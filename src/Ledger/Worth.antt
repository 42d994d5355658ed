-- ===== src/Ledger/Worth.antt =====
-- A play balance together with what has left it for the time being, over the movements of
-- apps/api/src/prisma/apply-balance-delta.ts.
use scadium.Prelude.{
  ◌==◌, if◌then◌else◌, ℕ, ◌≡◌, ◌≢◌, ◌∙◌, Option, none, some, arith, ok, inl, inr, Option-cases,
  ℕ_discrete, Result-cases,
}
use scadium.Prelude.Int.{ℤ, pos, ◌+ℤ◌}
use scadium.Ledger.{
  User, Accounts, Meta, Currency, balance, apply_balance_delta, move, credit, record_move,
}
use scadium.Ledger.Moves.{apply_balance_delta-Applied, Applied-own}

-- An amount that goes to one user.
abbrev pub to_user : ℕ → ℕ → ℕ → ℕ
to_user id amount j = if id == j then amount else 0

abbrev pub worth_of : ℕ → Option User → Option ℤ
worth_of out none = none
worth_of out (some u) = some (balance Currency.jeton u +ℤ pos out)

-- A movement that the amounts outside make up for.
pub worth_of-moved :
    (a a' : Accounts) (id : ℕ) (delta : ℤ) (meta : Meta) {b : ℤ} (out out' : ℕ → ℕ)
    → meta.currency ≡ Currency.jeton
    → apply_balance_delta a id delta meta ≡ ok (b, a')
    → ((x : ℤ) → x +ℤ delta +ℤ pos (out' id) ≡ x +ℤ pos (out id))
    → ((j : ℕ) → j ≢ id → out' j ≡ out j)
    → (j : ℕ) → worth_of (out' j) (a'.users j) ≡ worth_of (out j) (a.users j)
worth_of-moved a a' id delta meta {b} out out' play h own others j =
    let (u, m) = apply_balance_delta-Applied a id delta meta h in
    elim (ℕ_discrete j id) [
      | no other ↦ rw (m.others j other, others j other)
      | yes same ↦ elim (Option-cases (a'.users id)) [
        | inl gone ↦ absurd (ground (arith, m.updated))
        | inr (v, found) ↦
            let after : balance Currency.jeton v ≡ balance Currency.jeton u +ℤ delta =
              rw (← play) (Applied-own m v found ∙ m.after) in
            let sum : balance Currency.jeton v +ℤ pos (out' id)
                ≡ balance Currency.jeton u +ℤ pos (out id) =
              rw after (own (balance Currency.jeton u)) in
            rw (same, found, m.found, sum)
      ]
    ]

-- A credit without a cap goes through for every user that exists.
pub credit_goes_through :
    (a : Accounts) (id n : ℕ) (meta : Meta) (u : User)
    → meta.max_balance ≡ none
    → a.users id ≡ some u
    → (r : ℤ × Accounts) × (apply_balance_delta a id (pos n) meta ≡ ok r)
unfolding apply_balance_delta move credit record_move
credit_goes_through a id n meta u free found =
    elim (Result-cases (apply_balance_delta a id (pos n) meta)) [
      | inl (r, e) ↦ (r, e)
      | inr (x, e) ↦ absurd (ground arith)
    ]
