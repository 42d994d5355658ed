-- ===== src/Rounds/Mines/Fields.antt =====
-- What the picks of a round of mines reveal (apps/api/src/games/mines/mines.service.ts).
use scadium.Prelude.{
  ℕ, ◌+◌, ◌-◌, ◌≤◌, ◌<◌, ◌≡◌, inl, inr, refl, subst, true, false, none, some, List, [], ◌∷◌, ◌++◌,
  length, leb, ◌==◌, ok, arith, Bool-cases,
}
use scadium.Prelude.Counting.{
  bit, count, includes, includes-count, total-add, total-count, total_full,
}
use scadium.Fair.Hash.{Crypto, HasDigests}
use scadium.Fair.Derive.{Seed}
use scadium.Fair.Shuffle.Fields.{IsDraw, mine_field-IsDraw}
use scadium.Rounds.Stateful.{StepResult, continue, finish}
use scadium.Rounds.Mines.{
  Secret, Public, MinesResult, MinesRound, build_mines, apply_pick, mine_cells,
}

-- The cells that are revealed are distinct safe cells of the field.
pub record IsSafelyRevealed (mines revealed : List ℕ) : Type 0 where
  pub distinct : (a : ℕ) → count a revealed ≤ 1
  pub safe : (a : ℕ) → 0 < count a revealed → (a < mine_cells) × (count a mines ≡ 0)

-- A round of mines in progress: its field is drawn, and a safe cell is left.
pub record IsPlayable (secret : Secret) (public : Public) : Type 0 where
  pub range : (1 ≤ secret.mine_count) × (secret.mine_count ≤ 24)
  pub field : IsDraw 0 mine_cells secret.mine_count secret.mines
  pub revealed : IsSafelyRevealed secret.mines public.revealed
  pub open_left : length public.revealed < mine_cells - secret.mine_count

-- A new round is in progress, whatever its seed.
pub build_mines-IsPlayable :
    (crypto : Crypto) (mines : ℕ) (seed : Seed)
    → HasDigests crypto
    → 1 ≤ mines
    → mines ≤ 24
    → let built = build_mines crypto mines seed in IsPlayable built.secret built.public
unfolding build_mines count
build_mines-IsPlayable crypto mines seed digests low high = record {
  range = (low, high);
  field =
      mine_field-IsDraw crypto digests seed.server_seed seed.client_seed seed.nonce mine_cells mines
        (omega arith);
  revealed = record { distinct = λ a. omega arith; safe = λ a h. absurd (omega arith) };
  open_left = omega arith;
}

count-append_one : (a x : ℕ) (xs : List ℕ) → count a (xs ++ x ∷ []) ≡ count a xs + bit (x == a)
unfolding count
count-append_one a x [] = omega arith
count-append_one a x (y ∷ ys) = omega (arith, count-append_one a x ys)

reveal :
    (mines revealed : List ℕ) (cell : ℕ)
    → IsSafelyRevealed mines revealed
    → cell < mine_cells
    → includes revealed cell ≡ false
    → includes mines cell ≡ false
    → IsSafelyRevealed mines (revealed ++ cell ∷ [])
reveal mines revealed cell h inside new safe = record {
  distinct = λ a.
      ground (arith, h.distinct a, count-append_one a cell revealed, includes-count revealed cell);
  safe =
      λ a k. ground (arith, h.safe a, count-append_one a cell revealed, includes-count mines cell);
}

-- Every cell of the field is a mine or revealed, and not both.
abbrev pub IsCleared : List ℕ → List ℕ → Type 0
IsCleared mines revealed = (a : ℕ) → a < mine_cells → count a mines + count a revealed ≡ 1

cleared :
    (mines revealed : List ℕ) (mine_count : ℕ)
    → mine_count ≤ 24
    → IsDraw 0 mine_cells mine_count mines
    → IsSafelyRevealed mines revealed
    → mine_cells - mine_count ≤ length revealed
    → IsCleared mines revealed
cleared mines revealed mine_count few field safe many =
    total_full (λ a. count a mines + count a revealed) mine_cells
      (λ a. ground (arith, field.distinct a, safe.distinct a, safe.safe a))
      (omega (
        arith,
        total-add (λ a. count a mines) (λ a. count a revealed) mine_cells,
        total-count mine_cells mines (λ a h. (field.inside a h).1),
        total-count mine_cells revealed (λ a h. (safe.safe a h).0),
        field.size,
      ))

-- What the answer to a pick of `cell` means: the next state is in progress again, the round is lost on a mine, or
-- every safe cell of the field is revealed.
abbrev pub IsFairAnswer : MinesRound → ℕ → StepResult Secret Public MinesResult → Type 0
IsFairAnswer round cell (continue secret public multiplier) =
    (secret ≡ round.secret)
    × (public.revealed ≡ round.public.revealed ++ cell ∷ [])
    × IsPlayable secret public
IsFairAnswer round cell (finish false multiplier result) =
    (multiplier ≡ 0) × (includes round.secret.mines cell ≡ true)
IsFairAnswer round cell (finish true multiplier result) =
    IsSafelyRevealed round.secret.mines result.revealed
    × IsCleared round.secret.mines result.revealed

-- Every pick that is answered is answered fairly: a mine loses the round, a safe cell is added to the ones
-- revealed, and the round goes on until every cell is a mine or revealed, when it is won.
pub apply_pick-fair :
    (multipliers : ℕ → ℕ → ℕ) (cell : ℕ) (round : MinesRound)
    (s : StepResult Secret Public MinesResult)
    → cell < mine_cells
    → IsPlayable round.secret round.public
    → apply_pick multipliers cell round ≡ ok s
    → IsFairAnswer round cell s
unfolding apply_pick
apply_pick-fair multipliers cell round s inside play h =
    let mines = round.secret.mines in
    let next = round.public.revealed ++ cell ∷ [] in
    let m = multipliers round.secret.mine_count (length next) in
    elim (Bool-cases (includes round.public.revealed cell)) [
      | inl again ↦ absurd (ground arith)
      | inr new ↦ elim (Bool-cases (includes mines cell)) [
        | inl hit ↦
            let same : finish false 0 (record {
              mines = mines;
              mine_count = round.secret.mine_count;
              revealed = round.public.revealed;
              hit_mine = some cell;
              cleared = false;
              cashed_out = false;
            })
                ≡ s =
              ground arith in
            subst (IsFairAnswer round cell) same (refl, hit)
        | inr safe ↦
            let shown = reveal mines round.public.revealed cell play.revealed inside new safe in
            elim (Bool-cases (leb (mine_cells - round.secret.mine_count) (length next))) [
              | inl all ↦
                  let same : finish true m (record {
                    mines = mines;
                    mine_count = round.secret.mine_count;
                    revealed = next;
                    hit_mine = none;
                    cleared = true;
                    cashed_out = false;
                  })
                      ≡ s =
                    ground arith in
                  subst (IsFairAnswer round cell) same (
                    shown,
                    cleared mines next round.secret.mine_count play.range.1 play.field shown
                        (ground arith),
                  )
              | inr some_left ↦
                  let same : continue round.secret
                        (record {
                          mine_count = round.secret.mine_count;
                          cells = mine_cells;
                          revealed = next;
                        })
                        m
                      ≡ s =
                    ground arith in
                  subst (IsFairAnswer round cell) same (
                    refl,
                    refl,
                    record {
                      range = play.range;
                      field = play.field;
                      revealed = shown;
                      open_left = ground arith;
                    },
                  )
            ]
      ]
    ]
