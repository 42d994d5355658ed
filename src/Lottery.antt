-- ===== src/Lottery.antt =====
-- The settlement of a lottery round: packages/shared/src/constants.ts and
-- apps/api/src/games/lottery/lottery.settlement.ts. Amounts are bigints of at least 0.
pub mod Settlement
mod Tests
use scadium.Prelude.{ℕ, ◌+◌, ◌-◌, ◌*◌, ◌/◌, Bool, List, [], ◌∷◌, map, ltb, if◌then◌else◌}

abbrev pub treasury_fee_bps : ℕ
treasury_fee_bps = 2000

abbrev pub rewards_breakdown_bps : List ℕ
rewards_breakdown_bps = 125 ∷ 375 ∷ 750 ∷ 1250 ∷ 2500 ∷ 5000 ∷ []

abbrev pub sum : List ℕ → ℕ
sum [] = 0
sum (x ∷ xs) = x + sum xs

pub record PoolSplit : Type 0 where
  pub brackets : List ℕ
  pub burn : ℕ

-- A part of the winners' share, floored.
abbrev pub bracket_slice : ℕ → ℕ → ℕ
bracket_slice to_winners bps = to_winners * bps / 10000

-- `lotteryPoolSplit`
unfoldable pub lottery_pool_split : ℕ → PoolSplit
lottery_pool_split total_pool =
    let burn = total_pool * treasury_fee_bps / 10000 in
    record { brackets = map (bracket_slice (total_pool - burn)) rewards_breakdown_bps; burn = burn }

pub record BracketSettlement : Type 0 where
  pub bracket_slices : List ℕ
  pub per_winner : List ℕ
  pub bracket_rollover : List ℕ
  pub burn : ℕ
  pub next_rollover : ℕ

-- The count of a bracket, 0 past the end of the list.
abbrev pub head_count : List ℕ → ℕ
head_count [] = 0
head_count (c ∷ cs) = c

abbrev pub tail_counts : List ℕ → List ℕ
tail_counts [] = []
tail_counts (c ∷ cs) = cs

-- The loop over the brackets: what each winner gets, and what rolls on.
unfoldable pub per_winners : List ℕ → List ℕ → List ℕ
per_winners [] counts = []
per_winners (slice ∷ slices) counts =
    let count = head_count counts in
    (if ltb 0 count then slice / count else 0) ∷ per_winners slices (tail_counts counts)

unfoldable pub rollovers : List ℕ → List ℕ → List ℕ
rollovers [] counts = []
rollovers (slice ∷ slices) counts =
    let count = head_count counts in
    (if ltb 0 count then slice - slice / count * count else slice)
    ∷ rollovers slices (tail_counts counts)

-- `splitBracketPrizes`
unfoldable pub split_bracket_prizes : ℕ → List ℕ → BracketSettlement
split_bracket_prizes total_pool counts =
    let split = lottery_pool_split total_pool in
    let rolled = rollovers split.brackets counts in
    let residual = total_pool - split.burn - sum split.brackets in
    record {
      bracket_slices = split.brackets;
      per_winner = per_winners split.brackets counts;
      bracket_rollover = rolled;
      burn = split.burn;
      next_rollover = sum rolled + residual;
    }
