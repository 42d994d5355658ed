-- ===== src/Ledger/Limits.antt =====
-- Which movements of apps/api/src/prisma/apply-balance-delta.ts are refused, and what
-- `deriveBalance` of that file sums.
use scadium.Prelude.{
  ℕ, suc, ◌≡◌, sym, ◌∙◌, ◌≢◌, ◌⊎◌, ◌↔◌, true, some, List, ◌∷◌, arith, ok, err, bad_request, Check,
  >>=-eq-ok, ℕ_discrete,
}
use scadium.Prelude.Int.{ℤ, pos, negsuc, ◌+ℤ◌, ◌-ℤ◌, ◌≤ℤ◌, int_laws}
use scadium.Ledger.{
  Currency, jeton, scad, scad_staked, usds, scad_vault, User, LedgerRow, Accounts, Meta, balance,
  set_balance, debit, credit, move, record_move, apply_balance_delta, derive_balance,
}
use scadium.Ledger.Moves.{row_of, apply_balance_delta-Applied, Applied-other}

-- A debit of a known user is refused exactly when the user is banned or the balance is too small.
pub apply_balance_delta_refused :
    (a : Accounts) (id n : ℕ) (meta : Meta) (u : User)
    → a.users id ≡ some u
    → (apply_balance_delta a id (negsuc n) meta ≡ err (bad_request Check.insufficient_balance))
      ↔ ((u.banned ≡ true) ⊎ (¬ (pos 0 -ℤ negsuc n ≤ℤ balance meta.currency u)))
unfolding apply_balance_delta move debit record_move
apply_balance_delta_refused a id n meta u e = (λ h. ground arith, λ h. ground arith)

credit_within :
    (a : Accounts) (id : ℕ) (delta : ℤ) (meta : Meta) (limit : ℤ) (u : User) {m : Accounts}
    → meta.max_balance ≡ some limit
    → a.users id ≡ some u
    → credit a id delta meta ≡ ok m
    → balance meta.currency u ≤ℤ limit -ℤ delta
unfolding credit
credit_within a id delta meta limit u e found h = ground arith

move_positive :
    (a : Accounts) (id n : ℕ) (meta : Meta)
    → move a id (pos (suc n)) meta ≡ credit a id (pos (suc n)) meta
unfolding move
move_positive a id n meta = ground arith

-- A credit under a cap never leaves the balance above the cap.
pub apply_balance_delta_capped :
    (a : Accounts) (id n : ℕ) (meta : Meta) (limit : ℤ) {b : ℤ} {a' : Accounts}
    → meta.max_balance ≡ some limit
    → apply_balance_delta a id (pos (suc n)) meta ≡ ok (b, a')
    → b ≤ℤ limit
unfolding apply_balance_delta
apply_balance_delta_capped a id n meta limit {b} {a'} e h =
    let (u, s) = apply_balance_delta-Applied a id (pos (suc n)) meta h in
    let (m, moved, _) = >>=-eq-ok (move a id (pos (suc n)) meta) _ h in
    let credited = rw move_positive at moved in
    let within = credit_within a id (pos (suc n)) meta limit u e s.found credited in
    rw s.after (omega (int_laws, within))

-- `deriveBalance` sums the deltas of all currencies: a movement of any currency shifts it, while the
-- balance of every other currency, `playBalanceLamports` among them, stays.
pub derive_balance_mixes :
    (a : Accounts) (id : ℕ) (delta : ℤ) (meta : Meta) (c : Currency) (v : User) {b : ℤ}
    {a' : Accounts}
    → c ≢ meta.currency
    → apply_balance_delta a id delta meta ≡ ok (b, a')
    → a'.users id ≡ some v
    → (u : User) × (a.users id ≡ some u)
      × (balance c v ≡ balance c u)
      × (derive_balance a'.ledger id ≡ delta +ℤ derive_balance a.ledger id)
unfolding derive_balance
derive_balance_mixes a id delta meta c v {b} ne h found =
    let (u, s) = apply_balance_delta-Applied a id delta meta h in
    (u, s.found, Applied-other s c v ne found, ground (arith, s.logged))

derive_own :
    (r : LedgerRow) (rows : List LedgerRow)
    → derive_balance (r ∷ rows) r.user_id ≡ r.delta +ℤ derive_balance rows r.user_id
unfolding derive_balance
derive_own r rows = ground arith

derive_other :
    (r : LedgerRow) (rows : List LedgerRow) (j : ℕ)
    → j ≢ r.user_id
    → derive_balance (r ∷ rows) j ≡ derive_balance rows j
unfolding derive_balance
derive_other r rows j ne = ground arith

-- The five balances of a user together.
abbrev pub holdings : User → ℤ
holdings u =
    balance jeton u
    +ℤ balance scad u
    +ℤ balance scad_staked u
    +ℤ balance usds u
    +ℤ balance scad_vault u

holdings-set_balance :
    (c : Currency) (delta : ℤ) (u : User)
    → holdings (set_balance c (balance c u +ℤ delta) u) ≡ holdings u +ℤ delta
unfolding balance set_balance
holdings-set_balance jeton delta u = omega int_laws
holdings-set_balance scad delta u = omega int_laws
holdings-set_balance scad_staked delta u = omega int_laws
holdings-set_balance usds delta u = omega int_laws
holdings-set_balance scad_vault delta u = omega int_laws

-- What `deriveBalance` tracks: the balances of a user together, above what the user opened with.
abbrev pub IsDerived : (ℕ → ℤ) → Accounts → Type 0
IsDerived opening a =
    (id : ℕ) (u : User)
    → a.users id ≡ some u
    → holdings u ≡ opening id +ℤ derive_balance a.ledger id

-- Every movement keeps the sum of a user's five balances at the opening amount plus `deriveBalance`.
pub apply_balance_delta-IsDerived :
    (opening : ℕ → ℤ) (a : Accounts) (id : ℕ) (delta : ℤ) (meta : Meta) {b : ℤ} {a' : Accounts}
    → IsDerived opening a
    → apply_balance_delta a id delta meta ≡ ok (b, a')
    → IsDerived opening a'
apply_balance_delta-IsDerived opening a id delta meta {b} {a'} derived h j v found =
    let (u, s) = apply_balance_delta-Applied a id delta meta h in
    elim (ℕ_discrete j id) [
      | yes same ↦
          let user_eq : v ≡ set_balance meta.currency b u = ground (arith, s.updated) in
          rw
            (
              same,
              s.logged,
              derive_own,
              user_eq,
              s.after,
              holdings-set_balance,
              derived id u s.found,
            )
            (omega int_laws)
      | no ne ↦
          rw (s.logged, derive_other (row_of id delta meta b) a.ledger j ne)
            (derived j v (sym (s.others j ne) ∙ found))
    ]
