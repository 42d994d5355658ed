-- ===== src/Vault/Strategy/Plans.antt =====
-- What a rebalancing plan of apps/api/src/vault/vault-strategy.service.ts does to a pool's buffer.
use scadium.Prelude.{
  subst, sym, ℕ, ◌+◌, ◌-◌, ◌*◌, ◌/◌, ◌≤◌, ◌<◌, ◌≡◌, ◌⊎◌, inl, inr, true, ◌||◌, not, leb, arith,
  Bool-cases,
}
use scadium.Prelude.Int.{ℤ, pos, negsuc, ltb_ℤ}
use scadium.Vault.Strategy.{
  Snapshot, buffer_target_assets, investable_excess, divest_for_buffer_floor, Move, hold, invest,
  divest, plan_rebalance, buffer_bps, buffer_floor_bps, max_invested_bps, min_invest_base,
}

-- What a plan to invest leaves, and what a plan to divest restores.
abbrev pub IsSafeMove : Snapshot → Move → Type 0
IsSafeMove s hold = Unit
IsSafeMove s (invest a) =
    (min_invest_base ≤ a)
    × (a ≤ s.liquid)
    × (buffer_target_assets s.total_assets buffer_bps ≤ s.liquid - a)
    × (s.invested + a ≤ s.total_assets * max_invested_bps / 10000)
IsSafeMove s (divest (pos a)) =
    (0 < a)
    × (a ≤ s.invested)
    × (s.liquid + a ≤ buffer_target_assets s.total_assets buffer_bps)
    × ((s.liquid + a ≡ buffer_target_assets s.total_assets buffer_bps) ⊎ (a ≡ s.invested))
IsSafeMove s (divest (negsuc a)) = ⊥

investable_excess_lem :
    (s : Snapshot)
    → 0 < investable_excess s buffer_bps max_invested_bps
    → (investable_excess s buffer_bps max_invested_bps ≤ s.liquid)
      × (buffer_target_assets s.total_assets buffer_bps
          ≤ s.liquid - investable_excess s buffer_bps max_invested_bps)
      × (s.invested + investable_excess s buffer_bps max_invested_bps
          ≤ s.total_assets * max_invested_bps / 10000)
unfolding investable_excess
investable_excess_lem s h = ground arith

abbrev excess : Snapshot → ℕ
excess s = investable_excess s buffer_bps max_invested_bps

abbrev refill : Snapshot → ℤ
refill s = divest_for_buffer_floor s buffer_bps buffer_floor_bps

-- The three outcomes of planning.
data Planned (s : Snapshot) : Type 0 where
  holds : plan_rebalance s ≡ hold → Planned s
  invests : plan_rebalance s ≡ invest (excess s) → min_invest_base ≤ excess s → Planned s
  divests : plan_rebalance s ≡ divest (refill s) → ltb_ℤ (pos 0) (refill s) ≡ true → Planned s

planned : (s : Snapshot) → Planned s
unfolding plan_rebalance
planned s = elim (Bool-cases (not s.has_strategy || leb s.total_assets 0)) [
  | inl t ↦ holds (ground arith)
  | inr f ↦ elim (Bool-cases (leb min_invest_base (excess s))) [
    | inl t ↦ invests (ground arith) (ground arith)
    | inr g ↦ elim (Bool-cases (ltb_ℤ (pos 0) (refill s))) [
      | inl t ↦ divests (ground arith) t
      | inr k ↦ holds (ground arith)
    ]
  ]
]

divest_for_buffer_floor_lem :
    (s : Snapshot)
    → ltb_ℤ (pos 0) (refill s) ≡ true
    → IsSafeMove s (divest (refill s))
      × (s.liquid < buffer_target_assets s.total_assets buffer_floor_bps)
unfolding divest_for_buffer_floor
divest_for_buffer_floor_lem s h = ground arith

-- Every move that is planned is safe: an investment is at least the minimum, is covered by the liquid assets,
-- leaves the buffer's target liquid and keeps the invested assets within their cap; a divestment is
-- positive, is covered by what is invested, and fills the buffer to its target exactly unless it takes
-- all that is invested.
pub plan_rebalance_safe : (s : Snapshot) → IsSafeMove s (plan_rebalance s)
plan_rebalance_safe s = elim (planned s) [
  | holds e ↦ subst (IsSafeMove s) (sym e) tt
  | invests e most ↦
      let (covered, buffered, capped) = investable_excess_lem s (omega (arith, most)) in
      subst (IsSafeMove s) (sym e) (most, covered, buffered, capped)
  | divests e positive ↦ subst (IsSafeMove s) (sym e) (divest_for_buffer_floor_lem s positive).0
]
