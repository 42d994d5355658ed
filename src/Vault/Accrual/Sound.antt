-- ===== src/Vault/Accrual/Sound.antt =====
-- The invariant of the vault, over an accrual with nothing between its reads and its writes:
-- apps/api/src/vault/vault-accrual.service.ts.
use scadium.Prelude.{
  ℕ, ◌≡◌, ◌≢◌, refl, sym, subst, false, some, List, [], ◌∷◌, ltb, ◌&&◌, ok, Table, put, All, arith,
  Option-cases, Bool-cases, inl, inr, ◌⊎◌, ℕ_discrete,
}
use scadium.Prelude.Int.{pos_part-+ℤ, sub_ℕ}
use scadium.Vault.Shares.Price.{apply_accrual-mul, apply_accrual_mono}
use scadium.Vault.Service.{Pool, VaultDb}
use scadium.Vault.Service.Backing.{IsBacked}
use scadium.Vault.Service.Sound.{IsSound}
use scadium.Vault.Accrual.{
  AccrualDb, Read, read_pools, total_weight, pool_yield, credit_pool, Tally, tally_one, credit_one,
  credit_pools, is_distributed, accrue,
}
use scadium.Vault.Accrual.Shares.{
  credit_pools_step, credit_pools_nil, commit_distribute, plan_open, commit_nothing, yield_of,
}

credit_pool-IsBacked : (p : Pool) (amount : ℕ) → IsBacked p → IsBacked (credit_pool p p amount)
unfolding credit_pool
credit_pool-IsBacked p amount b =
    let (value, nonneg) = pos_part-+ℤ p.total_assets amount b.nonneg in
    record {
      priced = omega (arith, b.priced, apply_accrual_mono p.index_ray p.total_shares amount);
      nonneg = nonneg;
      covered =
          omega (arith, value, b.covered, apply_accrual-mul p.index_ray p.total_shares amount);
    }

-- The pools of the list stand in the table as they were read, each once.
abbrev pub IsCurrent : Table Pool → List Read → Type 0
IsCurrent pools [] = Unit
IsCurrent pools (r ∷ rs) =
    (pools r.id ≡ some r.pool) × All (λ q. q.id ≢ r.id) rs × IsCurrent pools rs

IsCurrent-put :
    (pools : Table Pool) (id : ℕ) (p : Pool) (rs : List Read)
    → All (λ q. q.id ≢ id) rs
    → IsCurrent pools rs
    → IsCurrent (put id p pools) rs
IsCurrent-put pools id p [] ne c = tt
IsCurrent-put pools id p (r ∷ rs) ne c =
    (ground (arith, ne.0), c.1, IsCurrent-put pools id p rs ne.1 c.2)

credit_pool-shares :
    (read current : Pool) (amount : ℕ)
    → (credit_pool read current amount).total_shares ≡ current.total_shares
unfolding credit_pool
credit_pool-shares read current amount = refl

credit_one-IsSound :
    (r : Read) (amount : ℕ) (db : VaultDb)
    → db.pools r.id ≡ some r.pool
    → IsSound db
    → IsSound (credit_one r r.pool amount db)
unfolding credit_one
credit_one-IsSound r amount db e s = record {
  backed = λ k q f. elim (ℕ_discrete r.id k) [
    | yes same ↦
        let here : q ≡ credit_pool r.pool r.pool amount = ground arith in
        rw here (credit_pool-IsBacked r.pool amount (s.backed r.id r.pool e))
    | no other ↦ s.backed k q (ground arith)
  ];
  shared = λ k q f. elim (ℕ_discrete r.id k) [
    | yes same ↦ ground (arith, credit_pool-shares r.pool r.pool amount, s.shared r.id r.pool e)
    | no other ↦ s.shared k q (ground arith)
  ];
}

credit_pools-IsSound :
    (total_yield weights : ℕ) (rs : List Read) (tally : Tally) (db : VaultDb)
    {result : Tally × VaultDb}
    → IsSound db
    → IsCurrent db.pools rs
    → credit_pools total_yield weights rs tally db ≡ ok result
    → IsSound result.1
unfolding credit_one
credit_pools-IsSound total_yield weights [] tally db s c h =
    rw (credit_pools_nil total_yield weights tally db h) s
credit_pools-IsSound total_yield weights (r ∷ rs) tally db s c h =
    elim (credit_pools_step total_yield weights r rs tally db h) [
      | inl passed ↦ credit_pools-IsSound total_yield weights rs tally db s c.2 passed
      | inr (current, found, credited) ↦
          let amount = pool_yield total_yield weights r.pool in
          let same : current ≡ r.pool = ground (arith, c.0) in
          credit_pools-IsSound total_yield weights rs (tally_one tally amount)
            (credit_one r r.pool amount db) (credit_one-IsSound r amount db c.0 s)
            (IsCurrent-put db.pools r.id (credit_pool r.pool r.pool amount) rs c.1 c.2)
            (rw same at credited)
    ]

read_pools_step :
    (pools : Table Pool) (id : ℕ) (ids : List ℕ)
    → (read_pools pools (id ∷ ids) ≡ read_pools pools ids)
      ⊎ ((p : Pool) × (pools id ≡ some p)
          × (read_pools pools (id ∷ ids) ≡ record { id = id; pool = p } ∷ read_pools pools ids))
unfolding read_pools
read_pools_step pools id ids = elim (Option-cases (pools id)) [
  | inl e ↦ inl (ground arith)
  | inr (p, e) ↦ elim (Bool-cases (p.active && ltb 0 p.total_shares)) [
    | inl t ↦ inr (p, e, ground arith)
    | inr f ↦ inl (ground arith)
  ]
]

Fresh-read_pools :
    (pools : Table Pool) (id : ℕ) (ids : List ℕ)
    → All (λ j. j ≢ id) ids
    → All (λ q. q.id ≢ id) (read_pools pools ids)
unfolding read_pools
Fresh-read_pools pools id [] h = tt
Fresh-read_pools pools id (j ∷ ids) h = elim (read_pools_step pools j ids) [
  | inl e ↦ subst (All (λ (q : Read). q.id ≢ id)) (sym e) (Fresh-read_pools pools id ids h.1)
  | inr (p, found, e) ↦
      subst (All (λ (q : Read). q.id ≢ id)) (sym e) (h.0, Fresh-read_pools pools id ids h.1)
]

-- Every id once.
abbrev pub IsDistinct : List ℕ → Type 0
IsDistinct [] = Unit
IsDistinct (i ∷ is) = All (λ j. j ≢ i) is × IsDistinct is

read_pools-IsCurrent :
    (pools : Table Pool) (ids : List ℕ) → IsDistinct ids → IsCurrent pools (read_pools pools ids)
unfolding read_pools
read_pools-IsCurrent pools [] h = tt
read_pools-IsCurrent pools (j ∷ ids) h = elim (read_pools_step pools j ids) [
  | inl e ↦ subst (IsCurrent pools) (sym e) (read_pools-IsCurrent pools ids h.1)
  | inr (p, found, e) ↦
      subst (IsCurrent pools) (sym e)
        (found, Fresh-read_pools pools j ids h.0, read_pools-IsCurrent pools ids h.1)
]

-- An accrual between whose reads and writes nothing else happens keeps the vault sound, when the read
-- lists every pool once.
pub accrue-IsSound :
    (db : AccrualDb) (period wagered paid : ℕ) (ids : List ℕ) {db' : AccrualDb}
    → IsDistinct ids
    → IsSound db.vault
    → is_distributed (db.rounds period) ≡ false
    → accrue db period wagered paid ids ≡ ok db'
    → IsSound db'.vault
unfolding accrue
accrue-IsSound db period wagered paid ids {db'} distinct sound fresh h =
    elim (plan_open db period wagered paid ids fresh) [
      | inl e ↦
          let (vault, row) = commit_nothing db period (sub_ℕ wagered paid) (rw e at h) in
          rw vault sound
      | inr (e, some_weight) ↦
          let rs = read_pools db.vault.pools ids in
          let total_yield = yield_of wagered paid in
          let (credited, paid_out, same, row) =
            commit_distribute db period (sub_ℕ wagered paid) total_yield (total_weight rs) rs fresh
              (rw e at h) in
          rw same (
            credit_pools-IsSound total_yield (total_weight rs) rs
              (record { allocated = 0; credited = 0 }) db.vault sound
              (read_pools-IsCurrent db.vault.pools ids distinct) paid_out)
    ]
