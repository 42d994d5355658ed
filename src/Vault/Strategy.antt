-- ===== src/Vault/Strategy.antt =====
-- The strategy planning of a pool: packages/shared/src/constants.ts and
-- apps/api/src/vault/vault-strategy.service.ts. Balances are bigints of at least 0.
pub mod Plans
use scadium.Prelude.{
  ℕ, ◌+◌, ◌-◌, ◌*◌, ◌/◌, ◌≤◌, Bool, true, false, ◌||◌, ◌&&◌, not, Option, none, some, leb, ltb,
  if◌then◌else◌,
}
use scadium.Prelude.Int.{ℤ, pos, negsuc, sub_ℕ, ltb_ℤ, leb_ℤ}

abbrev pub buffer_bps : ℕ
buffer_bps = 1500

abbrev pub buffer_floor_bps : ℕ
buffer_floor_bps = 1000

abbrev pub max_invested_bps : ℕ
max_invested_bps = 8500

abbrev pub min_invest_base : ℕ
min_invest_base = 1000000000

abbrev pub drift_tolerance_bps : ℕ
drift_tolerance_bps = 1

-- `bufferTargetAssets`
unfoldable pub buffer_target_assets : ℕ → ℕ → ℕ
buffer_target_assets total_assets bps = if leb total_assets 0 then 0 else total_assets * bps / 10000

-- What the pool's token account and its position hold.
pub record Snapshot : Type 0 where
  pub has_strategy : Bool
  pub total_assets : ℕ
  pub liquid : ℕ
  pub invested : ℕ

-- `investableExcess`
unfoldable pub investable_excess : Snapshot → ℕ → ℕ → ℕ
investable_excess s buffer max_invested =
    if leb s.total_assets 0 || leb s.liquid 0
    then 0
    else let target = buffer_target_assets s.total_assets buffer in
      let above_buffer : ℕ = if ltb target s.liquid then s.liquid - target else 0 in
      let invest_cap = s.total_assets * max_invested / 10000 in
      let cap_room : ℕ = if leb invest_cap s.invested then 0 else invest_cap - s.invested in
      if ltb above_buffer cap_room then above_buffer else cap_room

-- `divestForBufferFloor`; the need is negative where the target lies under the floor.
unfoldable pub divest_for_buffer_floor : Snapshot → ℕ → ℕ → ℤ
divest_for_buffer_floor s buffer floor_bps =
    if leb s.total_assets 0 || leb s.invested 0
    then pos 0
    else if leb (buffer_target_assets s.total_assets floor_bps) s.liquid
    then pos 0
    else let need = sub_ℕ (buffer_target_assets s.total_assets buffer) s.liquid in
      if ltb_ℤ need (pos s.invested) then need else pos s.invested

-- `unwindForWithdrawal`
unfoldable pub unwind_for_withdrawal : ℕ → ℕ → ℕ
unwind_for_withdrawal net liquid = if ltb liquid net then net - liquid else 0

-- `harvestableYield`
unfoldable pub harvestable_yield : ℕ → ℕ → ℕ
harvestable_yield strategy_value invested =
    if ltb invested strategy_value then strategy_value - invested else 0

-- `vaultStrategyDrift`
unfoldable pub vault_strategy_drift : ℕ → ℕ → ℕ → ℕ → ℤ × Bool
vault_strategy_drift total_assets liquid strategy_value tolerance =
    let drift = sub_ℕ (liquid + strategy_value) total_assets in
    let size : ℕ = elim drift [ pos n ↦ n | negsuc n ↦ n + 1 ] in
    (drift, leb size (total_assets * tolerance / 10000))

pub data Move : Type 0 where
  hold : Move
  invest : ℕ → Move
  divest : ℤ → Move

-- `planRebalance`
unfoldable pub plan_rebalance : Snapshot → Move
plan_rebalance s =
    if not s.has_strategy || leb s.total_assets 0
    then hold
    else let to_invest = investable_excess s buffer_bps max_invested_bps in
      let to_divest = divest_for_buffer_floor s buffer_bps buffer_floor_bps in
      if leb min_invest_base to_invest
      then invest to_invest
      else if ltb_ℤ (pos 0) to_divest
      then divest to_divest
      else hold
