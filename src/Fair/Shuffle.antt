-- ===== src/Fair/Shuffle.antt =====
-- The Fisher-Yates shuffle that packages/fair/src/mines.ts, keno.ts and tower.ts share, and the fields
-- that they draw with it.
pub mod Fields
use scadium.Prelude.{
  ℕ, zero, suc, ◌+◌, ◌-◌, ◌*◌, ◌/◌, ◌≤◌, ◌<◌, ◌≡◌, refl, ◌∙◌, sym, Bool, true, false, ◌&&◌, List,
  [], ◌∷◌, ◌++◌, arith, length, take, All, length-append, length-take, get_or, set, length-set,
  ◌==◌, ltb, leb, if◌then◌else◌, min, All-get_or, Option, get_elem?, some,
}
use scadium.Prelude.Counting.{
  bit, count, includes, includes-count, count-set, count-take-le, sort, count-sort, length-sort,
  AscendsFrom, sort-AscendsFrom,
}
use scadium.Fair.Hash.{Text, Crypto, HasDigests}
use scadium.Fair.Floats.{IsFloat, scale, scale-lt, floats_from_hmac, floats_from_hmac_lem}

-- `Array.from({ length: n }, (_, i) => first + i)`
unfoldable pub range_from : ℕ → ℕ → List ℕ
range_from first zero = []
range_from first (suc n) = first ∷ range_from (first + 1) n

-- `tmp = arr[i]; arr[i] = arr[j]; arr[j] = tmp`
unfoldable pub swap : List ℕ → ℕ → ℕ → List ℕ
swap arr i j = set (set arr i (get_or arr j 0)) j (get_or arr i 0)

-- The loop from `i` down to 1; the floats are read from `offset + last - i` on.
unfoldable pub shuffle : List ℕ → ℕ → ℕ → ℕ → List ℕ → List ℕ
unfolding swap scale
shuffle floats offset last zero arr = arr
shuffle floats offset last (suc i) arr =
    let j = scale (get_or floats (offset + (last - suc i)) 0) (suc i + 1) in
    shuffle floats offset last i (swap arr (suc i) j)

-- `mineField`
unfoldable pub mine_field : Crypto → Text → Text → ℕ → ℕ → ℕ → List ℕ
unfolding shuffle range_from
mine_field crypto server_seed client_seed nonce cells mines =
    let floats = floats_from_hmac crypto server_seed client_seed nonce cells in
    sort (take mines (shuffle floats 0 (cells - 1) (cells - 1) (range_from 0 cells)))

-- `KENO.CELLS`, `KENO.DRAWS`
abbrev pub keno_cells : ℕ
keno_cells = 40

abbrev pub keno_draws : ℕ
keno_draws = 10

-- `kenoDraw`
unfoldable pub keno_draw : Crypto → Text → Text → ℕ → List ℕ
unfolding shuffle range_from
keno_draw crypto server_seed client_seed nonce =
    let floats = floats_from_hmac crypto server_seed client_seed nonce keno_cells in
    sort (
      take keno_draws
        (shuffle floats 0 (keno_cells - 1) (keno_cells - 1) (range_from 1 keno_cells)))

-- `kenoHits`
unfoldable pub keno_hits : List ℕ → List ℕ → ℕ
keno_hits [] drawn = 0
keno_hits (p ∷ picks) drawn = bit (includes drawn p) + keno_hits picks drawn

-- The rows from `r` on, of `left` more.
unfoldable pub tower_rows : List ℕ → ℕ → ℕ → ℕ → ℕ → List (List ℕ)
unfolding shuffle range_from
tower_rows floats columns traps_per_row r zero = []
tower_rows floats columns traps_per_row r (suc left) =
    sort (
      take traps_per_row
        (shuffle floats (r * columns) (columns - 1) (columns - 1) (range_from 0 columns)))
    ∷ tower_rows floats columns traps_per_row (r + 1) left

-- `towerTraps`
unfoldable pub tower_traps : Crypto → Text → Text → ℕ → ℕ → ℕ → ℕ → List (List ℕ)
tower_traps crypto server_seed client_seed nonce rows columns safe_per_row =
    tower_rows (floats_from_hmac crypto server_seed client_seed nonce (rows * columns)) columns
      (columns - safe_per_row) 0 rows
