-- ===== src/Seeds/Nonces.antt =====
-- The seeds and nonces that the bets of a user are derived from
-- (apps/api/src/fairness/seed-manager.service.ts).
use scadium.Prelude.{
  ℕ, ◌≤◌, ◌≡◌, ◌≢◌, sym, subst, ◌∙◌, ap, Bool, Option, some, List, [], ◌∷◌, arith, ok, Table, put,
  All,
}
use scadium.Fair.Hash.{Text, Crypto}
use scadium.Seeds.{
  SeedRow, Draws, Revealed, rotate_server_seed, SeedContext, advance, consume_nonce, row_or_new,
  commit_server_seed,
}
use scadium.Seeds.Commitments.{rotate-row}
use scadium.Seeds.Replay.{consume_nonce_found}

-- A seed that was never the active or the next seed of the user: what a random draw of 32 bytes gives.
abbrev pub IsUnused : Text → SeedRow → List SeedContext → Type 0
IsUnused fresh row issued =
    (row.next_server_seed ≢ fresh) × All (λ (x : SeedContext). x.server_seed ≢ fresh) issued

-- The bets and rotations of user `u`, with the contexts they were issued, newest first.
pub data Plays (crypto : Crypto) (u : ℕ) (a : Table SeedRow)
    : List SeedContext → Table SeedRow → Type 0 where
  opened : Plays crypto u a [] a
  bet :
      {issued : List SeedContext} {b : Table SeedRow} (draws : Draws)
      → Plays crypto u a issued b
      → Plays crypto u a
          ((consume_nonce crypto draws b u).0 ∷ issued)
          (consume_nonce crypto draws b u).1
  turn :
      {issued : List SeedContext} {b c : Table SeedRow} (draws : Draws) (active : Bool)
      (fresh : Text) {v : Revealed} (row : SeedRow)
      → Plays crypto u a issued b
      → b u ≡ some row
      → IsUnused fresh row issued
      → rotate_server_seed crypto draws b u active fresh ≡ ok (v, c)
      → Plays crypto u a issued c

-- Two contexts that no bet can take for one another.
abbrev pub Differ : SeedContext → SeedContext → Type 0
Differ x y = x.server_seed ≡ y.server_seed → x.nonce ≢ y.nonce

abbrev pub AllDiffer : List SeedContext → Type 0
AllDiffer [] = Unit
AllDiffer (x ∷ xs) = All (Differ x) xs × AllDiffer xs

-- What an issued context may share with the row of its user.
abbrev IsBehind : SeedRow → SeedContext → Type 0
IsBehind row x =
    (x.server_seed ≢ row.next_server_seed) × (x.server_seed ≡ row.server_seed → x.nonce ≤ row.nonce)

record IsAhead (seeds : Table SeedRow) (u : ℕ) (issued : List SeedContext) : Type 0 where
  row : SeedRow
  found : seeds u ≡ some row
  apart : row.server_seed ≢ row.next_server_seed
  behind : All (IsBehind row) issued
  distinct : AllDiffer issued

All-map :
    {P Q : SeedContext → Type 0} (xs : List SeedContext)
    → ((x : SeedContext) → P x → Q x)
    → All P xs
    → All Q xs
All-map [] f h = tt
All-map (x ∷ xs) f h = (f x h.0, All-map xs f h.1)

All-map₂ :
    {P R Q : SeedContext → Type 0} (xs : List SeedContext)
    → ((x : SeedContext) → P x → R x → Q x)
    → All P xs
    → All R xs
    → All Q xs
All-map₂ [] f h k = tt
All-map₂ (x ∷ xs) f h k = (f x h.0 k.0, All-map₂ xs f h.1 k.1)

bet-IsAhead :
    (crypto : Crypto) (draws : Draws) (b : Table SeedRow) (u : ℕ) (issued : List SeedContext)
    → IsAhead b u issued
    → IsAhead (consume_nonce crypto draws b u).1 u ((consume_nonce crypto draws b u).0 ∷ issued)
bet-IsAhead crypto draws b u issued h =
    let (issued_is, row_is) = consume_nonce_found crypto draws b u h.row h.found in
    record {
      row = advance h.row;
      found = row_is;
      apart = h.apart;
      behind =
          subst (λ (x : SeedContext). All (IsBehind (advance h.row)) (x ∷ issued)) (sym issued_is)
            (
              (h.apart, λ e. omega arith),
              All-map issued (λ x k. (k.0, λ e. let bound = k.1 e in omega (arith, bound)))
                  h.behind,
            );
      distinct =
          subst (λ (x : SeedContext). AllDiffer (x ∷ issued)) (sym issued_is)
            (
              All-map issued (λ x k e same. let bound = k.1 (sym e) in omega (arith, bound, same))
                  h.behind,
              h.distinct,
            );
    }

abbrev promote : Crypto → Text → SeedRow → SeedRow
promote crypto fresh row = record row {
  server_seed = row.next_server_seed;
  server_seed_hash = row.next_server_seed_hash;
  next_server_seed = fresh;
  next_server_seed_hash = commit_server_seed crypto fresh;
  nonce = 0;
}

put_self : (u : ℕ) (row : SeedRow) (t : Table SeedRow) → put u row t u ≡ some row
put_self u row t = ground arith

turn-IsAhead :
    (crypto : Crypto) (draws : Draws) (b c : Table SeedRow) (u : ℕ) (issued : List SeedContext)
    (active : Bool) (fresh : Text) {v : Revealed} (row : SeedRow)
    → IsAhead b u issued
    → b u ≡ some row
    → IsUnused fresh row issued
    → rotate_server_seed crypto draws b u active fresh ≡ ok (v, c)
    → IsAhead c u issued
turn-IsAhead crypto draws b c u issued active fresh row h found unused e =
    let (idle, revealed, shown, written) = rotate-row crypto draws b u active fresh e in
    let same : row ≡ h.row = cc in
    let behind : All (IsBehind row) issued =
      subst (λ (r : SeedRow). All (IsBehind r) issued) (sym same) h.behind in
    record {
      row = promote crypto fresh row;
      found =
          ap (λ (t : Table SeedRow). t u) written
          ∙ put_self u _ b
          ∙ ap (λ (o : Option SeedRow). some (promote crypto fresh (row_or_new crypto draws o)))
              found;
      apart = unused.0;
      behind = All-map₂ issued (λ x k new. (new, λ e'. absurd (k.0 e'))) behind unused.1;
      distinct = h.distinct;
    }

Plays-IsAhead :
    {crypto : Crypto} {u : ℕ} {a b : Table SeedRow} {issued : List SeedContext} (row : SeedRow)
    → a u ≡ some row
    → row.server_seed ≢ row.next_server_seed
    → Plays crypto u a issued b
    → IsAhead b u issued
Plays-IsAhead row found apart opened = record {
  row = row;
  found = found;
  apart = apart;
  behind = tt;
  distinct = tt;
}
Plays-IsAhead {crypto} {u} row found apart (bet {issued} {b} draws plays) =
    bet-IsAhead crypto draws b u issued (Plays-IsAhead row found apart plays)
Plays-IsAhead {crypto} {u} row found apart
      (turn {issued} {b} {c} draws active fresh now plays here unused e) =
    turn-IsAhead crypto draws b c u issued active fresh now (Plays-IsAhead row found apart plays)
      here unused e

-- However a user bets and rotates, every two bets differ in their server seed or in their nonce, when the
-- first two server seeds differ and each rotation draws a seed that was not used before. Setting the
-- client seed is not among the steps.
pub Plays-AllDiffer :
    {crypto : Crypto} {u : ℕ} {a b : Table SeedRow} {issued : List SeedContext} (row : SeedRow)
    → a u ≡ some row
    → row.server_seed ≢ row.next_server_seed
    → Plays crypto u a issued b
    → AllDiffer issued
Plays-AllDiffer row found apart plays = (Plays-IsAhead row found apart plays).distinct
