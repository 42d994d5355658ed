-- ===== src/Vault/Accrual/Shares.antt =====
-- What apps/api/src/vault/vault-accrual.service.ts hands out.
use native.Mathlib.Nat.{div-mul-le_self, le_of_mul-le-mul_right}
use scadium.Prelude.{
  ℕ, ◌+◌, ◌*◌, ◌≤◌, ◌<◌, ◌≡◌, refl, true, false, some, List, [], ◌∷◌, leb, ltb, ◌==◌, ◌||◌, length,
  ok, arith, Result-cases, Option-cases, Bool-cases, inl, inr, ◌⊎◌,
}
use scadium.Prelude.Int.{ℤ, sub_ℕ}
use scadium.Vault.Shares.{lamports_to_scad_base, vault_yield_slice_lamports, min_accrual_scad_base}
use scadium.Vault.Service.{Pool, VaultDb}
use scadium.Vault.Accrual.{
  Round, AccrualDb, Read, read_pools, weight, total_weight, pool_yield, Tally, tally_one,
  credit_one, credit_pools, nothing, distribute, is_distributed, pool_count_of, plan, commit,
  accrue,
}

pool_yield-mul :
    (total_yield weights : ℕ) (p : Pool)
    → pool_yield total_yield weights p * weights ≤ total_yield * weight p
unfolding pool_yield
pool_yield-mul total_yield weights p = div-mul-le_self (total_yield * weight p) weights

-- One round of the loop either passes a pool over or credits it.
pub credit_pools_step :
    (total_yield weights : ℕ) (r : Read) (rs : List Read) (tally : Tally) (db : VaultDb)
    {result : Tally × VaultDb}
    → credit_pools total_yield weights (r ∷ rs) tally db ≡ ok result
    → (credit_pools total_yield weights rs tally db ≡ ok result)
      ⊎ ((current : Pool) × (db.pools r.id ≡ some current)
          × (credit_pools total_yield weights rs
                (tally_one tally (pool_yield total_yield weights r.pool))
                (credit_one r current (pool_yield total_yield weights r.pool) db)
              ≡ ok result))
unfolding credit_pools
credit_pools_step total_yield weights r rs tally db h =
    elim (Bool-cases (leb (pool_yield total_yield weights r.pool) 0)) [
      | inl none_left ↦ inl (ground arith)
      | inr some_left ↦ elim (Option-cases (db.pools r.id)) [
        | inl e ↦ absurd (ground arith)
        | inr (current, e) ↦ inr (current, e, ground arith)
      ]
    ]

pub credit_pools_nil :
    (total_yield weights : ℕ) (tally : Tally) (db : VaultDb) {result : Tally × VaultDb}
    → credit_pools total_yield weights [] tally db ≡ ok result
    → result ≡ (tally, db)
unfolding credit_pools
credit_pools_nil total_yield weights tally db h = ground arith

credit_pools-allocated :
    (total_yield weights : ℕ) (rs : List Read) (tally : Tally) (db : VaultDb) {tally' : Tally}
    {db' : VaultDb}
    → credit_pools total_yield weights rs tally db ≡ ok (tally', db')
    → tally'.allocated * weights ≤ tally.allocated * weights + total_yield * total_weight rs
credit_pools-allocated total_yield weights [] tally db {tally'} {db'} h =
    ground (arith, credit_pools_nil total_yield weights tally db h)
credit_pools-allocated total_yield weights (r ∷ rs) tally db {tally'} {db'} h =
    elim (credit_pools_step total_yield weights r rs tally db h) [
      | inl passed ↦ omega (arith, credit_pools-allocated total_yield weights rs tally db passed)
      | inr (current, found, credited) ↦
          let amount = pool_yield total_yield weights r.pool in
          omega (
            arith,
            pool_yield-mul total_yield weights r.pool,
            credit_pools-allocated total_yield weights rs (tally_one tally amount)
                (credit_one r current amount db) credited,
          )
    ]

-- `totalYieldScad`
abbrev pub yield_of : ℕ → ℕ → ℕ
yield_of wagered paid = lamports_to_scad_base (vault_yield_slice_lamports (sub_ℕ wagered paid))

-- What `commit` hands out of a plan to distribute.
pub commit_distribute :
    (db : AccrualDb) (period : ℕ) (ngr : ℤ) (total_yield weights : ℕ) (rs : List Read)
    {db' : AccrualDb}
    → is_distributed (db.rounds period) ≡ false
    → commit db period (distribute ngr total_yield weights rs) ≡ ok db'
    → (credited : Tally × VaultDb) × (credit_pools total_yield weights rs
          (record { allocated = 0; credited = 0 })
          db.vault
        ≡ ok credited)
      × (db'.vault ≡ credited.1)
      × (db'.rounds period
          ≡ some (record {
            distributed = true;
            ngr_lamports = ngr;
            yield_scad = credited.0.allocated;
            pool_count = credited.0.credited;
          }))
unfolding commit
commit_distribute db period ngr total_yield weights rs fresh h =
    elim (Result-cases
      (credit_pools total_yield weights rs (record { allocated = 0; credited = 0 }) db.vault)) [
        | inl (credited, e) ↦ (credited, e, ground arith, ground arith)
        | inr (e, f) ↦ absurd (ground arith)
      ]

-- The plan of an hour that is still open.
pub plan_open :
    (db : AccrualDb) (period wagered paid : ℕ) (ids : List ℕ)
    → is_distributed (db.rounds period) ≡ false
    → (plan db period wagered paid ids ≡ nothing (sub_ℕ wagered paid))
      ⊎ ((plan db period wagered paid ids
            ≡ distribute
                (sub_ℕ wagered paid)
                (yield_of wagered paid)
                (total_weight (read_pools db.vault.pools ids))
                (read_pools db.vault.pools ids))
          × (0 < total_weight (read_pools db.vault.pools ids)))
unfolding plan
plan_open db period wagered paid ids fresh =
    let rs = read_pools db.vault.pools ids in
    elim (Bool-cases (
      ltb (yield_of wagered paid) min_accrual_scad_base
      || (length rs == 0 || leb (total_weight rs) 0))) [
        | inl t ↦ inl (rw (fresh, t))
        | inr f ↦ inr (rw (fresh, f), ground arith)
      ]

pub commit_nothing :
    (db : AccrualDb) (period : ℕ) (ngr : ℤ) {db' : AccrualDb}
    → commit db period (nothing ngr) ≡ ok db'
    → (db'.vault ≡ db.vault)
      × (db'.rounds period
          ≡ some (record {
            distributed = true;
            ngr_lamports = ngr;
            yield_scad = 0;
            pool_count = pool_count_of (db.rounds period);
          }))
unfolding commit
commit_nothing db period ngr h = (ground arith, ground arith)

-- An open hour that is accrued is recorded as distributed, and the yield it records is at most the yield
-- that the net gaming revenue of the hour gives: what the pools are credited never exceeds it.
pub accrue-yield-le :
    (db : AccrualDb) (period wagered paid : ℕ) (ids : List ℕ) {db' : AccrualDb}
    → is_distributed (db.rounds period) ≡ false
    → accrue db period wagered paid ids ≡ ok db'
    → (round : Round) × (db'.rounds period ≡ some round)
      × (round.distributed ≡ true)
      × (round.yield_scad ≤ yield_of wagered paid)
unfolding accrue
accrue-yield-le db period wagered paid ids {db'} fresh h =
    elim (plan_open db period wagered paid ids fresh) [
      | inl e ↦
          let (vault, row) = commit_nothing db period (sub_ℕ wagered paid) (rw e at h) in
          (_, row, refl, omega arith)
      | inr (e, some_weight) ↦
          let rs = read_pools db.vault.pools ids in
          let total_yield = yield_of wagered paid in
          let ((tally, vault), credited, same, row) =
            commit_distribute db period (sub_ℕ wagered paid) total_yield (total_weight rs) rs fresh
              (rw e at h) in
          (
            _,
            row,
            refl,
            le_of_mul-le-mul_right
                (omega (
                  arith,
                  credit_pools-allocated total_yield (total_weight rs) rs
                      (record { allocated = 0; credited = 0 }) db.vault credited,
                ))
                some_weight,
          )
    ]

-- An hour that is already distributed is left as it is, whatever has been planned for it.
pub commit_settled :
    (db : AccrualDb) (period : ℕ) (ngr : ℤ) (total_yield weights : ℕ) (rs : List Read)
    → is_distributed (db.rounds period) ≡ true
    → commit db period (distribute ngr total_yield weights rs) ≡ ok db
unfolding commit
commit_settled db period ngr total_yield weights rs h = rw h
