-- ===== src/Vault/Accrual.antt =====
-- apps/api/src/vault/vault-accrual.service.ts: the hourly yield. The pools are read before the
-- transaction that credits them, so the read and the commit are two steps.
pub mod Shares
pub mod Sound
pub mod Stale
use scadium.Prelude.{
  ℕ, ◌+◌, ◌-◌, ◌*◌, ◌/◌, Bool, true, false, ◌&&◌, ◌||◌, Option, none, some, List, [], ◌∷◌, leb, ltb,
  ◌==◌, length, if◌then◌else◌, Result, ok, err, ◌>>=◌, or_raise, missing_row, Table, put,
}
use scadium.Prelude.Int.{ℤ, pos, ◌+ℤ◌, ◌-ℤ◌, sub_ℕ}
use scadium.Vault.Shares.{
  min_accrual_scad_base, assets_for_shares, apply_accrual, vault_yield_slice_lamports,
  lamports_to_scad_base,
}
use scadium.Vault.Service.{Pool, VaultDb, VaultEvent, accrued}

-- The row `VaultAccrualRound`.
pub record Round : Type 0 where
  pub distributed : Bool
  pub ngr_lamports : ℤ
  pub yield_scad : ℕ
  pub pool_count : ℕ

pub record AccrualDb : Type 0 where
  pub vault : VaultDb
  pub rounds : Table Round

-- A pool as it was read.
pub record Read : Type 0 where
  pub id : ℕ
  pub pool : Pool

-- `findMany({ where: { active: true, totalShares: { gt: 0 } } })` over the ids of the table.
unfoldable pub read_pools : Table Pool → List ℕ → List Read
read_pools pools [] = []
read_pools pools (id ∷ ids) =
    let rest = read_pools pools ids in
    elim (pools id) [
      | none ↦ rest
      | some p ↦
          if p.active && ltb 0 p.total_shares then record { id = id; pool = p } ∷ rest else rest
    ]

abbrev pub weight : Pool → ℕ
weight p = p.weight_bps * p.total_shares

abbrev pub total_weight : List Read → ℕ
total_weight [] = 0
total_weight (r ∷ rs) = weight r.pool + total_weight rs

-- A pool's part of the yield.
unfoldable pub pool_yield : ℕ → ℕ → Pool → ℕ
pool_yield total_yield weights p = total_yield * weight p / weights

-- `Math.round(a year / DISTRIBUTION_INTERVAL_MS)`
abbrev pub rounds_per_year : ℕ
rounds_per_year = 8760

unfoldable pub apr_bps_of : Pool → ℕ → ℕ
apr_bps_of p amount =
    let value_before = assets_for_shares p.total_shares p.index_ray in
    if ltb 0 value_before then amount * 10000 * rounds_per_year / value_before else 0

-- The update of one pool: the index and the rate are those computed from the pool that was read, the
-- assets are incremented in place.
unfoldable pub credit_pool : Pool → Pool → ℕ → Pool
credit_pool read current amount = record current {
  index_ray = apply_accrual read.index_ray read.total_shares amount;
  total_assets = current.total_assets +ℤ pos amount;
  apr_bps = apr_bps_of read amount;
}

pub record Tally : Type 0 where
  pub allocated : ℕ
  pub credited : ℕ

-- The writes of one round of the loop: the pool and its event.
unfoldable pub credit_one : Read → Pool → ℕ → VaultDb → VaultDb
credit_one r current amount db = record db {
  pools = put r.id (credit_pool r.pool current amount) db.pools;
  events =
      record {
        user_id = none;
        pool_id = r.id;
        kind = accrued;
        assets_delta = pos amount;
        shares_delta = pos 0;
        penalty_assets = 0;
        index_ray_after = apply_accrual r.pool.index_ray r.pool.total_shares amount;
      }
      ∷ db.events;
}

abbrev pub tally_one : Tally → ℕ → Tally
tally_one tally amount = record {
  allocated = tally.allocated + amount;
  credited = tally.credited + 1;
}

-- The loop over the pools inside the transaction.
unfoldable pub credit_pools : ℕ → ℕ → List Read → Tally → VaultDb → Result (Tally × VaultDb)
credit_pools total_yield weights [] tally db = ok (tally, db)
credit_pools total_yield weights (r ∷ rs) tally db =
    let amount = pool_yield total_yield weights r.pool in
    elim (leb amount 0) [
      | true ↦ credit_pools total_yield weights rs tally db
      | false ↦ elim (db.pools r.id) [
        | none ↦ err missing_row
        | some current ↦
            credit_pools total_yield weights rs (tally_one tally amount)
              (credit_one r current amount db)
      ]
    ]

-- What the service has decided before it opens the transaction.
pub data Plan : Type 0 where
  settled : Plan
  nothing : ℤ → Plan
  distribute : ℤ → ℕ → ℕ → List Read → Plan

abbrev pub is_distributed : Option Round → Bool
is_distributed none = false
is_distributed (some r) = r.distributed

abbrev pub pool_count_of : Option Round → ℕ
pool_count_of none = 0
pool_count_of (some r) = r.pool_count

-- The reads of `accrue`: the round, the bets of the hour, the pools.
unfoldable pub plan : AccrualDb → ℕ → ℕ → ℕ → List ℕ → Plan
plan db period wagered paid ids =
    if is_distributed (db.rounds period)
    then settled
    else let ngr = sub_ℕ wagered paid in
      let total_yield = lamports_to_scad_base (vault_yield_slice_lamports ngr) in
      let pools = read_pools db.vault.pools ids in
      if ltb total_yield min_accrual_scad_base || (length pools == 0 || leb (total_weight pools) 0)
      then nothing ngr
      else distribute ngr total_yield (total_weight pools) pools

-- The writes of `accrue`; a round that another worker has settled in between is left.
unfoldable pub commit : AccrualDb → ℕ → Plan → Result AccrualDb
commit db period settled = ok db
commit db period (nothing ngr) = ok (record db {
  rounds =
      put period
        (record {
          distributed = true;
          ngr_lamports = ngr;
          yield_scad = 0;
          pool_count = pool_count_of (db.rounds period);
        })
        db.rounds;
})
commit db period (distribute ngr total_yield weights pools) =
    if is_distributed (db.rounds period) then ok db else do
      credited ←
          credit_pools total_yield weights pools (record { allocated = 0; credited = 0 }) db.vault
      ok (record {
        vault = credited.1;
        rounds =
            put period
              (record {
                distributed = true;
                ngr_lamports = ngr;
                yield_scad = credited.0.allocated;
                pool_count = credited.0.credited;
              })
              db.rounds;
      })

-- `accrue`, when nothing happens between its reads and its writes.
unfoldable pub accrue : AccrualDb → ℕ → ℕ → ℕ → List ℕ → Result AccrualDb
accrue db period wagered paid ids = commit db period (plan db period wagered paid ids)
