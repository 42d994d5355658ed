-- ===== src/Ledger/Invariant.antt =====
-- The invariants of the balances and of their ledger (apps/api/src/prisma/apply-balance-delta.ts).
use mathlib.Core.Logic.{ite}
use scadium.Prelude.{
  ℕ, ◌≡◌, sym, ◌∙◌, ◌≢◌, inl, inr, Option, none, some, List, [], ◌∷◌, arith, ◌==◌, if◌then◌else◌,
  ok, >>=-eq-ok, Bool-cases, ℕ_discrete,
}
use scadium.Prelude.Int.{ℤ, pos, ◌+ℤ◌, ◌-ℤ◌, ◌≤ℤ◌, ltb_ℤ, int_laws}
use scadium.Ledger.{
  Currency, User, LedgerRow, Accounts, Meta, balance, debit, move, apply_balance_delta,
}
use scadium.Ledger.Moves.{row_of, apply_balance_delta-Applied, Applied-own, Applied-other}

pub Currency-discrete : Discrete Currency
Currency-discrete = hlevel

-- No balance of any user is negative.
abbrev pub IsSolvent : Accounts → Type 0
IsSolvent a = (id : ℕ) (c : Currency) (u : User) → a.users id ≡ some u → pos 0 ≤ℤ balance c u

-- A debit that goes through was covered.
debit-covered :
    (a : Accounts) (id : ℕ) (delta : ℤ) (c : Currency) (u : User) {a' : Accounts}
    → a.users id ≡ some u
    → debit a id delta c ≡ ok a'
    → pos 0 -ℤ delta ≤ℤ balance c u
unfolding debit
debit-covered a id delta c u e h = ground arith

move-covered :
    (a : Accounts) (id : ℕ) (delta : ℤ) (meta : Meta) (u : User) {m : Accounts}
    → a.users id ≡ some u
    → move a id delta meta ≡ ok m
    → pos 0 ≤ℤ balance meta.currency u
    → pos 0 ≤ℤ balance meta.currency u +ℤ delta
unfolding move
move-covered a id delta meta u e h p = elim (Bool-cases (ltb_ℤ delta (pos 0))) [
  | inl neg ↦
      let covered = debit-covered a id delta meta.currency u e (rw neg at h) in
      omega (int_laws, covered)
  | inr nonneg ↦ let at_least : pos 0 ≤ℤ delta = ground arith in omega (int_laws, at_least)
]

-- Every movement that goes through keeps all balances at zero or above.
pub apply_balance_delta-IsSolvent :
    (a : Accounts) (id : ℕ) (delta : ℤ) (meta : Meta) {b : ℤ} {a' : Accounts}
    → IsSolvent a
    → apply_balance_delta a id delta meta ≡ ok (b, a')
    → IsSolvent a'
unfolding apply_balance_delta
apply_balance_delta-IsSolvent a id delta meta {b} {a'} solvent h j c v found =
    let (u, s) = apply_balance_delta-Applied a id delta meta h in
    let (m, moved, _) = >>=-eq-ok (move a id delta meta) _ h in
    let kept = move-covered a id delta meta u s.found moved (solvent id meta.currency u s.found) in
    elim (ℕ_discrete j id) [
      | yes same ↦
          let here : a'.users id ≡ some v = rw (← same) found in
          elim (Currency-discrete c meta.currency) [
            | yes own ↦ rw (own, Applied-own s v here, s.after) kept
            | no other ↦ rw (Applied-other s c v other here) (solvent id c u s.found)
          ]
      | no ne ↦ solvent j c v (sym (s.others j ne) ∙ found)
    ]

-- The balance that the newest row of a user and a currency recorded.
unfoldable pub latest : List LedgerRow → ℕ → Currency → Option ℤ
latest [] id c = none
latest (r ∷ rows) id c =
    let rest = latest rows id c in
    if r.user_id == id
    then ite (Currency-discrete r.currency c) (some r.balance_after) rest
    else rest

latest_own :
    (r : LedgerRow) (rows : List LedgerRow)
    → latest (r ∷ rows) r.user_id r.currency ≡ some r.balance_after
unfolding latest
latest_own r rows = ground arith

latest_other_user :
    (r : LedgerRow) (rows : List LedgerRow) (j : ℕ) (c : Currency)
    → j ≢ r.user_id
    → latest (r ∷ rows) j c ≡ latest rows j c
unfolding latest
latest_other_user r rows j c ne = ground arith

latest_other_currency :
    (r : LedgerRow) (rows : List LedgerRow) (j : ℕ) (c : Currency)
    → c ≢ r.currency
    → latest (r ∷ rows) j c ≡ latest rows j c
unfolding latest
latest_other_currency r rows j c ne = ground arith

-- The live balance is a projection of the ledger: it is what the newest row recorded.
abbrev pub IsProjection : Accounts → Type 0
IsProjection a =
    (id : ℕ) (c : Currency) (u : User) (b : ℤ)
    → a.users id ≡ some u
    → latest a.ledger id c ≡ some b
    → b ≡ balance c u

-- Every movement that goes through keeps the live balances equal to the newest rows.
pub apply_balance_delta-IsProjection :
    (a : Accounts) (id : ℕ) (delta : ℤ) (meta : Meta) {b : ℤ} {a' : Accounts}
    → IsProjection a
    → apply_balance_delta a id delta meta ≡ ok (b, a')
    → IsProjection a'
apply_balance_delta-IsProjection a id delta meta {b} {a'} proj h j c v x found recorded =
    let (u, s) = apply_balance_delta-Applied a id delta meta h in
    let newest = rw s.logged at recorded in
    let row = row_of id delta meta b in
    elim (ℕ_discrete j id) [
      | yes same ↦
          let here : a'.users id ≡ some v = rw (← same) found in
          elim (Currency-discrete c meta.currency) [
            | yes own ↦ ground (arith, Applied-own s v here, latest_own row a.ledger)
            | no other ↦ rw (Applied-other s c v other here) (
                proj id c u x s.found
                  (ground (arith, latest_other_currency row a.ledger j c other)))
          ]
      | no ne ↦
          proj j c v x (sym (s.others j ne) ∙ found)
            (ground (arith, latest_other_user row a.ledger j c ne))
    ]
