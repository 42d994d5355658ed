-- ===== src/Vault/Service/Money.antt =====
-- The balances that apps/api/src/vault/vault.service.ts moves.
use scadium.Prelude.{ℕ, ◌≡◌, ◌∙◌, some, arith, ok, Result-cases, Option-cases, inl, inr}
use scadium.Prelude.Int.{ℤ, pos, ◌+ℤ◌, ◌-ℤ◌, int_laws}
use scadium.Ledger.{Accounts, User, Currency, balance, apply_balance_delta}
use scadium.Ledger.Moves.{apply_balance_delta-Applied, Applied-own, Applied-other}
use scadium.Ledger.Invariant.{IsSolvent, apply_balance_delta-IsSolvent}
use scadium.Vault.Service.{VaultDb, deposit, deposit_meta}

-- The two movements of a deposit.
deposit-moves :
    (db : VaultDb) (user_id pool_id amount now : ℕ) {db' : VaultDb}
    → deposit db user_id pool_id amount now ≡ ok db'
    → (m n : ℤ × Accounts) × (apply_balance_delta db.accounts user_id
          (pos 0 -ℤ pos amount)
          (deposit_meta Currency.scad pool_id)
        ≡ ok m)
      × (apply_balance_delta m.1 user_id (pos amount) (deposit_meta Currency.scad_vault pool_id)
          ≡ ok n)
      × (db'.accounts ≡ n.1)
unfolding deposit
deposit-moves db user_id pool_id amount now h = elim (Option-cases (db.pools pool_id)) [
  | inl e ↦ absurd (ground arith)
  | inr (pool, e) ↦
      elim (Result-cases (
        apply_balance_delta db.accounts user_id (pos 0 -ℤ pos amount)
          (deposit_meta Currency.scad pool_id))) [
            | inr (x, f) ↦ absurd (ground arith)
            | inl (m, f) ↦
                elim (Result-cases (
                  apply_balance_delta m.1 user_id (pos amount)
                    (deposit_meta Currency.scad_vault pool_id))) [
                      | inr (x, g) ↦ absurd (ground arith)
                      | inl (n, g) ↦ (m, n, f, g, ground arith)
                    ]
          ]
]

-- A deposit moves its amount from the spendable to the locked SCAD of the user, keeps every other balance,
-- and leaves no balance of anyone negative.
pub deposit-balances :
    (db : VaultDb) (user_id pool_id amount now : ℕ) (u' : User) {db' : VaultDb}
    → IsSolvent db.accounts
    → deposit db user_id pool_id amount now ≡ ok db'
    → db'.accounts.users user_id ≡ some u'
    → IsSolvent db'.accounts
      × ((u : User) × (db.accounts.users user_id ≡ some u)
          × (balance Currency.scad u' ≡ balance Currency.scad u -ℤ pos amount)
          × (balance Currency.scad_vault u' ≡ balance Currency.scad_vault u +ℤ pos amount)
          × (balance Currency.jeton u' ≡ balance Currency.jeton u))
deposit-balances db user_id pool_id amount now u' solvent h found =
    let (m, n, debited, credited, same) = deposit-moves db user_id pool_id amount now h in
    let (u, first) =
      apply_balance_delta-Applied db.accounts user_id (pos 0 -ℤ pos amount)
        (deposit_meta Currency.scad pool_id) debited in
    let (v, second) =
      apply_balance_delta-Applied m.1 user_id (pos amount)
        (deposit_meta Currency.scad_vault pool_id) credited in
    let here : n.1.users user_id ≡ some u' = rw (← same) found in
    let solvent' =
      apply_balance_delta-IsSolvent m.1 user_id (pos amount)
        (deposit_meta Currency.scad_vault pool_id)
        (apply_balance_delta-IsSolvent db.accounts user_id (pos 0 -ℤ pos amount)
          (deposit_meta Currency.scad pool_id) solvent debited)
        credited in
    (
      rw same solvent',
      (
        u,
        first.found,
        rw
            (
              Applied-other second Currency.scad u' (λ e. cc) here,
              Applied-own first v second.found,
              first.after,
            )
            (omega int_laws),
        rw (
          Applied-own second u' here,
          second.after,
          Applied-other first Currency.scad_vault v (λ e. cc) second.found,
        ),
        Applied-other second Currency.jeton u' (λ e. cc) here
            ∙ Applied-other first Currency.jeton v (λ e. cc) second.found,
      ),
    )
