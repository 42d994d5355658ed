-- ===== src/Rounds/Tower/Climbs.antt =====
-- What the picks of a round of tower climb (apps/api/src/games/tower/tower.service.ts).
use scadium.Prelude.{
  ℕ, zero, suc, ◌+◌, ◌-◌, ◌<◌, ◌≡◌, inl, inr, refl, ap, get_elem?, true, false, none, some, List,
  [], ◌∷◌, ◌++◌, length, leb, ok, arith, Bool-cases, All,
}
use scadium.Prelude.Counting.{includes}
use scadium.Fair.Hash.{Crypto, HasDigests}
use scadium.Fair.Derive.{Seed}
use scadium.Fair.Shuffle.Fields.{IsDraw, tower_traps-IsDraw}
use scadium.Rounds.Stateful.{StepResult, continue, finish}
use scadium.Rounds.Tower.{
  TowerSecret, TowerPublic, TowerResult, TowerRound, build_tower, apply_climb, climbing,
  tower_height, tower_columns, tower_safe_per_row,
}

-- From the first row on, each pick is a tile of its row and no trap.
abbrev pub Avoids : List (List ℕ) → List ℕ → Type 0
Avoids traps [] = Unit
Avoids [] (p ∷ ps) = ⊥
Avoids (t ∷ ts) (p ∷ ps) = (p < tower_columns) × (includes t p ≡ false) × Avoids ts ps

-- A round in progress: its traps are drawn, one row for each of the tower, every row below the current one is
-- climbed, and a row is left.
pub record IsClimbing (secret : TowerSecret) (public : TowerPublic) : Type 0 where
  pub full : length secret.traps ≡ tower_height
  pub drawn : All (IsDraw 0 tower_columns (tower_columns - tower_safe_per_row)) secret.traps
  pub climbed : Avoids secret.traps public.picks
  pub current : length public.picks ≡ public.current_row
  pub row_left : public.current_row < tower_height

-- A new round is in progress, whatever its seed.
pub build_tower-IsClimbing :
    (crypto : Crypto) (seed : Seed)
    → HasDigests crypto
    → let built = build_tower crypto seed in IsClimbing built.secret built.public
unfolding build_tower
build_tower-IsClimbing crypto seed digests =
    let drawn =
      tower_traps-IsDraw crypto digests seed.server_seed seed.client_seed seed.nonce tower_height
        tower_columns tower_safe_per_row (omega arith) in
    record { full = drawn.0; drawn = drawn.1; climbed = tt; current = refl; row_left = omega arith }

get_elem?-found :
    (traps : List (List ℕ)) (n : ℕ)
    → n < length traps
    → (row : List ℕ) × (get_elem? traps n ≡ some row)
get_elem?-found [] n h = absurd (omega arith)
get_elem?-found (t ∷ ts) zero h = (t, refl)
get_elem?-found (t ∷ ts) (suc n) h = get_elem?-found ts n (omega arith)

climb :
    (traps : List (List ℕ)) (picks row : List ℕ) (column : ℕ)
    → Avoids traps picks
    → get_elem? traps (length picks) ≡ some row
    → column < tower_columns
    → includes row column ≡ false
    → Avoids traps (picks ++ column ∷ [])
climb [] [] row column h found inside safe = absurd (ground arith)
climb (t ∷ ts) [] row column h found inside safe = (inside, ground arith, tt)
climb [] (p ∷ ps) row column h found inside safe = h
climb (t ∷ ts) (p ∷ ps) row column h found inside safe =
    let (low, clear, rest) = h in (low, clear, climb ts ps row column rest found inside safe)

length-append_one : (xs : List ℕ) (x : ℕ) → length (xs ++ x ∷ []) ≡ length xs + 1
length-append_one [] x = refl
length-append_one (y ∷ ys) x = omega (arith, length-append_one ys x)

-- What the answer to a pick of `column` means: the next row is reached, a trap was hit, or the top is reached.
abbrev pub IsFairClimb :
    (ℕ → ℕ) → ℕ → TowerRound → StepResult TowerSecret TowerPublic TowerResult → Type 0
IsFairClimb multipliers column round (continue secret public multiplier) =
    (secret ≡ round.secret)
    × (public.picks ≡ round.public.picks ++ column ∷ [])
    × (multiplier ≡ multipliers (length public.picks))
    × IsClimbing secret public
IsFairClimb multipliers column round (finish false multiplier result) =
    (multiplier ≡ 0)
    × ((row : List ℕ) × (get_elem? round.secret.traps round.public.current_row ≡ some row)
        × (includes row column ≡ true))
IsFairClimb multipliers column round (finish true multiplier result) =
    (multiplier ≡ multipliers tower_height)
    × (length result.picks ≡ tower_height)
    × Avoids round.secret.traps result.picks

-- Every pick of a column in a round in progress is answered, and fairly: a trap of the current row loses the
-- round; any other column is added to the picks, which avoid all traps, and the round goes on at the
-- multiplier of the rows climbed, until all the rows are climbed, when it is won at the top multiplier.
pub apply_climb-fair :
    (multipliers : ℕ → ℕ) (column : ℕ) (round : TowerRound)
    → column < tower_columns
    → IsClimbing round.secret round.public
    → (s : StepResult TowerSecret TowerPublic TowerResult) × (apply_climb multipliers column round
        ≡ ok s)
      × IsFairClimb multipliers column round s
unfolding apply_climb
apply_climb-fair multipliers column round inside play =
    let traps = round.secret.traps in
    let picks = round.public.picks in
    let n = round.public.current_row in
    let (row, found) = get_elem?-found traps n (omega (arith, play.full, play.row_left)) in
    elim (Bool-cases (includes row column)) [
      | inl hit ↦ (
        finish false 0 (record {
          traps = traps;
          picks = picks;
          hit = some (n, column);
          climbed = none;
          reached_top = false;
          cashed_out = false;
        }),
        ground arith,
        (refl, (row, found, hit)),
      )
      | inr safe ↦
          let next =
            climb traps picks row column play.climbed (rw play.current found) inside safe in
          let longer = length-append_one picks column in
          elim (Bool-cases (leb tower_height (n + 1))) [
            | inl top ↦ (
              finish true (multipliers (n + 1)) (record {
                traps = traps;
                picks = picks ++ column ∷ [];
                hit = none;
                climbed = some (n + 1);
                reached_top = true;
                cashed_out = false;
              }),
              ground arith,
              (let last : n + 1 ≡ tower_height = ground (arith, play.row_left) in
                  (ap multipliers last, omega (arith, longer, play.current, last), next)),
            )
            | inr below ↦ (
              continue round.secret (climbing (n + 1) (picks ++ column ∷ [])) (multipliers (n + 1)),
              ground arith,
              (
                refl,
                refl,
                rw (longer, play.current) refl,
                record {
                  full = play.full;
                  drawn = play.drawn;
                  climbed = next;
                  current = omega (arith, longer, play.current);
                  row_left = ground arith;
                },
              ),
            )
          ]
    ]
