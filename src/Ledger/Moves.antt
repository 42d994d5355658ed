-- ===== src/Ledger/Moves.antt =====
-- What `applyBalanceDelta` of apps/api/src/prisma/apply-balance-delta.ts does, on each branch.
use scadium.Prelude.{
  ℕ, ◌≡◌, ◌≢◌, inl, inr, some, ◌∷◌, arith, ok, >>=-eq-ok, Option-cases, Bool-cases,
}
use scadium.Prelude.Int.{ℤ, pos, ◌+ℤ◌, ltb_ℤ, +ℤ_zero}
use scadium.Ledger.{
  Currency, jeton, scad, scad_staked, usds, scad_vault, User, LedgerRow, Accounts, Meta, balance,
  set_balance, debit, credit, move, record_move, apply_balance_delta,
}

pub balance-set_balance : (c : Currency) (b : ℤ) (u : User) → balance c (set_balance c b u) ≡ b
unfolding balance set_balance
balance-set_balance c b u = ground arith

pub balance-set_balance_ne :
    (d c : Currency) (b : ℤ) (u : User) → d ≢ c → balance d (set_balance c b u) ≡ balance d u
unfolding balance set_balance
balance-set_balance_ne d c b u h = ground arith

set_balance_same : (c : Currency) (u : User) → set_balance c (balance c u +ℤ pos 0) u ≡ u
unfolding balance set_balance
set_balance_same jeton u = rw +ℤ_zero
set_balance_same scad u = rw +ℤ_zero
set_balance_same scad_staked u = rw +ℤ_zero
set_balance_same usds u = rw +ℤ_zero
set_balance_same scad_vault u = rw +ℤ_zero

-- The row of the ledger that a movement leaves.
abbrev pub row_of : ℕ → ℤ → Meta → ℤ → LedgerRow
row_of id delta meta after = record {
  user_id = id;
  currency = meta.currency;
  delta = delta;
  reason = meta.reason;
  ref_type = meta.ref_type;
  ref_id = meta.ref_id;
  balance_after = after;
}

-- What a movement that goes through has done to user `u`: the balance of one currency, one row.
pub record Applied (a : Accounts) (id : ℕ) (delta : ℤ) (meta : Meta) (u : User) (b : ℤ)
    (a' : Accounts) : Type 0 where
  pub found : a.users id ≡ some u
  pub after : b ≡ balance meta.currency u +ℤ delta
  pub updated : a'.users id ≡ some (set_balance meta.currency b u)
  pub others : (j : ℕ) → j ≢ id → a'.users j ≡ a.users j
  pub logged : a'.ledger ≡ row_of id delta meta b ∷ a.ledger

-- The same of the movement alone, before its row.
record Shifted (a : Accounts) (id : ℕ) (delta : ℤ) (c : Currency) (u : User) (a' : Accounts)
    : Type 0 where
  found : a.users id ≡ some u
  updated : a'.users id ≡ some (set_balance c (balance c u +ℤ delta) u)
  others : (j : ℕ) → j ≢ id → a'.users j ≡ a.users j
  logged : a'.ledger ≡ a.ledger

debit-Shifted :
    (a : Accounts) (id : ℕ) (delta : ℤ) (c : Currency) {a' : Accounts}
    → debit a id delta c ≡ ok a'
    → (u : User) × Shifted a id delta c u a'
unfolding debit
debit-Shifted a id delta c h = elim (Option-cases (a.users id)) [
  | inl e ↦ absurd (ground arith)
  | inr (u, e) ↦ (
    u,
    record {
      found = e;
      updated = ground arith;
      others = λ j ne. ground arith;
      logged = ground arith;
    },
  )
]

credit-Shifted :
    (a : Accounts) (id : ℕ) (delta : ℤ) (meta : Meta) {a' : Accounts}
    → credit a id delta meta ≡ ok a'
    → (u : User) × Shifted a id delta meta.currency u a'
unfolding credit
credit-Shifted a id delta meta h = elim (Option-cases (a.users id)) [
  | inl e ↦ absurd (ground arith)
  | inr (u, e) ↦ (
    u,
    record {
      found = e;
      updated = ground arith;
      others = λ j ne. ground arith;
      logged = ground arith;
    },
  )
]

move-Shifted :
    (a : Accounts) (id : ℕ) (delta : ℤ) (meta : Meta) {a' : Accounts} (u : User)
    → a'.users id ≡ some u
    → move a id delta meta ≡ ok a'
    → (v : User) × Shifted a id delta meta.currency v a'
unfolding move
move-Shifted a id delta meta {a'} u after h = elim (Bool-cases (ltb_ℤ delta (pos 0))) [
  | inl neg ↦ debit-Shifted a id delta meta.currency (rw neg at h)
  | inr nonneg ↦ elim (Bool-cases (ltb_ℤ (pos 0) delta)) [
    | inl positive ↦ credit-Shifted a id delta meta (rw (nonneg, positive) at h)
    | inr nonpos ↦
        let zero_delta : delta ≡ pos 0 = ground arith in
        let same : a ≡ a' = ground arith in
        (
          u,
          record {
            found = ground arith;
            updated = rw (zero_delta, set_balance_same) after;
            others = λ j ne. ground arith;
            logged = ground arith;
          },
        )
  ]
]

-- A movement that goes through adds `delta` to one balance of one user, who exists, and puts one
-- row with that delta and the new balance on the ledger; all else stays as it was.
pub apply_balance_delta-Applied :
    (a : Accounts) (id : ℕ) (delta : ℤ) (meta : Meta) {b : ℤ} {a' : Accounts}
    → apply_balance_delta a id delta meta ≡ ok (b, a')
    → (u : User) × Applied a id delta meta u b a'
unfolding apply_balance_delta record_move
apply_balance_delta-Applied a id delta meta {b} {a'} h =
    let (m, moved, logged) = >>=-eq-ok (move a id delta meta) _ h in
    elim (Option-cases (m.users id)) [
      | inl e ↦ absurd (ground arith)
      | inr (v, e) ↦
          let (u, s) = move-Shifted a id delta meta v e moved in
          let value : b ≡ balance meta.currency u +ℤ delta =
            ground
              (arith, balance-set_balance meta.currency (balance meta.currency u +ℤ delta) u) in
          (
            u,
            record {
              found = s.found;
              after = value;
              updated = ground arith;
              others = λ j ne. ground (arith, s.others j ne);
              logged = ground (arith, s.logged);
            },
          )
    ]

module _ {a a' : Accounts} {id : ℕ} {delta b : ℤ} {meta : Meta} {u : User} where
  pub Applied-own :
      Applied a id delta meta u b a'
      → (v : User) → a'.users id ≡ some v
      → balance meta.currency v ≡ b
  Applied-own s v found = ground (arith, balance-set_balance meta.currency b u)

  pub Applied-other :
      Applied a id delta meta u b a'
      → (c : Currency) (v : User) → c ≢ meta.currency
      → a'.users id ≡ some v
      → balance c v ≡ balance c u
  Applied-other s c v other found = ground (arith, balance-set_balance_ne c meta.currency b u other)
