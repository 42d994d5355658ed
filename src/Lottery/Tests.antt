-- ===== src/Lottery/Tests.antt =====
-- Runs of apps/api/src/games/lottery/lottery.settlement.ts, and the theorem about it at a concrete input.
use scadium.Prelude.{ℕ, ◌+◌, ◌≡◌, refl, List, [], ◌∷◌}
use scadium.Lottery.{lottery_pool_split, split_bracket_prizes, rollovers}
use scadium.Lottery.Settlement.{paid, split_bracket_prizes-conserves}

-- Two winners in the first bracket, seven in the last.
abbrev winners : List ℕ
winners = 2 ∷ 0 ∷ 0 ∷ 0 ∷ 0 ∷ 7 ∷ []

split_runs : (split_bracket_prizes 1000003 winners).next_rollover ≡ 390002
unfolding split_bracket_prizes lottery_pool_split rollovers
split_runs = refl

split_bracket_prizes-conserves_example :
    (split_bracket_prizes 1000003 winners).burn
      + paid (split_bracket_prizes 1000003 winners).per_winner winners
      + (split_bracket_prizes 1000003 winners).next_rollover
    ≡ 1000003
split_bracket_prizes-conserves_example = split_bracket_prizes-conserves 1000003 winners
