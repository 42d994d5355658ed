-- ===== src/Fair/Shuffle/Fields.antt =====
-- The fields that packages/fair/src/mines.ts, keno.ts and tower.ts draw, as reorderings of the cells.
use scadium.Prelude.{
  ℕ, zero, suc, ◌+◌, ◌-◌, ◌*◌, ◌≤◌, ◌<◌, ◌≡◌, refl, ◌∙◌, ap, ◌&&◌, List, [], ◌∷◌, arith, length,
  take, All, length-take, get_or, set, length-set, ◌==◌, ltb, leb, if◌then◌else◌, min, All-get_or,
}
use scadium.Prelude.Counting.{
  bit, count, count-set, count-take-le, sort, count-sort, length-sort, AscendsFrom,
  sort-AscendsFrom,
}
use scadium.Fair.Hash.{Text, Crypto, HasDigests}
use scadium.Fair.Floats.{IsFloat, scale, scale-lt, floats_from_hmac, floats_from_hmac_lem}
use scadium.Fair.Shuffle.{
  range_from, swap, shuffle, mine_field, keno_cells, keno_draws, keno_draw, tower_rows, tower_traps,
}

length-swap : (arr : List ℕ) (i j : ℕ) → length (swap arr i j) ≡ length arr
unfolding swap
length-swap arr i j =
    length-set (set arr i (get_or arr j 0)) j (get_or arr i 0) ∙ length-set arr i (get_or arr j 0)

get_or-set :
    (xs : List ℕ) (i j v : ℕ)
    → i < length xs
    → j < length xs
    → get_or (set xs i v) j 0 ≡ (if i == j then v else get_or xs j 0)
get_or-set [] i j v h k = absurd (omega arith)
get_or-set (x ∷ xs) zero zero v h k = refl
get_or-set (x ∷ xs) zero (suc j) v h k = ground arith
get_or-set (x ∷ xs) (suc i) zero v h k = ground arith
get_or-set (x ∷ xs) (suc i) (suc j) v h k = ground (arith, get_or-set xs i j v)

count-swap :
    (a : ℕ) (arr : List ℕ) (i j : ℕ)
    → i < length arr
    → j < length arr
    → count a (swap arr i j) ≡ count a arr
unfolding swap
count-swap a arr i j h k =
    let x = get_or arr i 0 in
    let y = get_or arr j 0 in
    ground (
      arith,
      count-set a arr i y h,
      count-set a (set arr i y) j x,
      length-set arr i y,
      get_or-set arr i j y h k,
    )

module _ (floats : List ℕ) (are_floats : All IsFloat floats) (offset last : ℕ) where
  shuffle-count :
      (a i : ℕ) (arr : List ℕ)
      → i < length arr
      → count a (shuffle floats offset last i arr) ≡ count a arr
  unfolding shuffle
  shuffle-count a zero arr h = refl
  shuffle-count a (suc i) arr h =
      let u = get_or floats (offset + (last - suc i)) 0 in
      let small =
        scale-lt u (suc i + 1) (All-get_or IsFloat floats _ 0 (omega arith) are_floats)
          (omega arith) in
      shuffle-count a i (swap arr (suc i) (scale u (suc i + 1)))
        (omega (arith, length-swap arr (suc i) (scale u (suc i + 1))))
      ∙ count-swap a arr (suc i) (scale u (suc i + 1)) h (omega arith)

  shuffle-length : (i : ℕ) (arr : List ℕ) → length (shuffle floats offset last i arr) ≡ length arr
  unfolding shuffle
  shuffle-length zero arr = refl
  shuffle-length (suc i) arr =
      shuffle-length i
        (swap arr (suc i) (scale (get_or floats (offset + (last - suc i)) 0) (suc i + 1)))
      ∙ length-swap arr (suc i) (scale (get_or floats (offset + (last - suc i)) 0) (suc i + 1))

count-range_from :
    (a first n : ℕ) → count a (range_from first n) ≡ bit (leb first a && ltb a (first + n))
unfolding count range_from
count-range_from a first zero = ground arith
count-range_from a first (suc n) = ground (arith, count-range_from a (first + 1) n)

length-range_from : (first n : ℕ) → length (range_from first n) ≡ n
unfolding range_from
length-range_from first zero = refl
length-range_from first (suc n) = ap suc (length-range_from (first + 1) n)

-- `k` of the cells from `first` on, or all: distinct, and in ascending order.
pub record IsDraw (first cells k : ℕ) (xs : List ℕ) : Type 0 where
  pub size : length xs ≡ min k cells
  pub distinct : (a : ℕ) → count a xs ≤ 1
  pub inside : (a : ℕ) → 0 < count a xs → (first ≤ a) × (a < first + cells)
  pub ascending : AscendsFrom 0 xs

drawn-IsDraw :
    (floats : List ℕ)
    → All IsFloat floats
    → (offset first cells k : ℕ) → 0 < cells
    → IsDraw first cells k
        (sort (take k (shuffle floats offset (cells - 1) (cells - 1) (range_from first cells))))
drawn-IsDraw floats are_floats offset first cells k pos_cells =
    let shuffled = shuffle floats offset (cells - 1) (cells - 1) (range_from first cells) in
    let same = λ (a : ℕ).
      shuffle-count floats are_floats offset (cells - 1) a (cells - 1) (range_from first cells)
        (omega (arith, length-range_from first cells)) in
    record {
      size = omega (
        arith,
        length-sort (take k shuffled),
        length-take k shuffled,
        shuffle-length floats are_floats offset (cells - 1) (cells - 1) (range_from first cells),
        length-range_from first cells,
      );
      distinct = λ a. ground (
        arith,
        count-sort a (take k shuffled),
        count-take-le a k shuffled,
        same a,
        count-range_from a first cells,
      );
      inside = λ a h. ground (
        arith,
        count-sort a (take k shuffled),
        count-take-le a k shuffled,
        same a,
        count-range_from a first cells,
      );
      ascending = sort-AscendsFrom (take k shuffled);
    }

module _ (crypto : Crypto) (digests : HasDigests crypto) (server_seed client_seed : Text)
    (nonce : ℕ) where
  -- A mine field is `mines` distinct cells of the board, in ascending order.
  pub mine_field-IsDraw :
      (cells mines : ℕ)
      → 0 < cells
      → IsDraw 0 cells mines (mine_field crypto server_seed client_seed nonce cells mines)
  unfolding mine_field
  mine_field-IsDraw cells mines h =
      drawn-IsDraw (floats_from_hmac crypto server_seed client_seed nonce cells)
        (floats_from_hmac_lem crypto digests server_seed client_seed nonce cells).1 0 0 cells mines
        h

  -- A keno draw is ten distinct numbers from 1 to 40, in ascending order.
  pub keno_draw-IsDraw :
      IsDraw 1 keno_cells keno_draws (keno_draw crypto server_seed client_seed nonce)
  unfolding keno_draw
  keno_draw-IsDraw =
      drawn-IsDraw (floats_from_hmac crypto server_seed client_seed nonce keno_cells)
        (floats_from_hmac_lem crypto digests server_seed client_seed nonce keno_cells).1 0 1
        keno_cells keno_draws (omega arith)

  tower_rows-IsDraw :
      (floats : List ℕ)
      → All IsFloat floats
      → (columns traps_per_row r left : ℕ) → 0 < columns
      → (length (tower_rows floats columns traps_per_row r left) ≡ left)
        × All (IsDraw 0 columns traps_per_row) (tower_rows floats columns traps_per_row r left)
  unfolding tower_rows
  tower_rows-IsDraw floats are_floats columns traps_per_row r zero h = (refl, tt)
  tower_rows-IsDraw floats are_floats columns traps_per_row r (suc left) h =
      let (size, rest) = tower_rows-IsDraw floats are_floats columns traps_per_row (r + 1) left h in
      (ap suc size, (drawn-IsDraw floats are_floats (r * columns) 0 columns traps_per_row h, rest))

  -- A tower has one row of distinct trap columns for each of its rows, with as many traps in each as
  -- the safe tiles leave.
  pub tower_traps-IsDraw :
      (rows columns safe_per_row : ℕ)
      → 0 < columns
      → (length (tower_traps crypto server_seed client_seed nonce rows columns safe_per_row) ≡ rows)
        × All
            (IsDraw 0 columns (columns - safe_per_row))
            (tower_traps crypto server_seed client_seed nonce rows columns safe_per_row)
  unfolding tower_traps
  tower_traps-IsDraw rows columns safe_per_row h =
      tower_rows-IsDraw (floats_from_hmac crypto server_seed client_seed nonce (rows * columns))
        (floats_from_hmac_lem crypto digests server_seed client_seed nonce (rows * columns)).1
        columns (columns - safe_per_row) 0 rows h
