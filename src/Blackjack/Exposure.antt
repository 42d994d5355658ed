-- ===== src/Blackjack/Exposure.antt =====
-- apps/api/src/common/exposure-guard.ts: what a round may cost the house.
use scadium.Prelude.{ℕ, ◌+◌, ◌-◌, ◌*◌, ◌/◌, Bool, true, false, ltb, ◌==◌, if◌then◌else◌}
use scadium.Blackjack.{ExposureGuard}

-- `HOUSE.MAX_ROUND_EXPOSURE_BPS`
abbrev pub max_round_exposure_bps : ℕ
max_round_exposure_bps = 2000

-- `HOUSE.MAX_WIN_PER_BET_LAMPORTS`
abbrev pub max_win_per_bet_lamports : ℕ
max_win_per_bet_lamports = 50000000000

-- `BLACKJACK.MAX_PAYOUT_X`
abbrev pub max_payout_x : ℕ
max_payout_x = 100

-- `potential`, for a whole multiplier.
unfoldable pub potential : ℕ → ℕ → ℕ
potential stake max_multiplier =
    let raw = stake * max_multiplier in
    if ltb raw max_win_per_bet_lamports then raw else max_win_per_bet_lamports

-- `roundCapLamports`
unfoldable pub round_cap_lamports : ExposureGuard → ℕ
round_cap_lamports g = g.house_balance_lamports * max_round_exposure_bps / 10000

-- `reserve`: whether the exposure fits, and the guard after it.
unfoldable pub reserve : ExposureGuard → ℕ → Bool × ExposureGuard
reserve g exposure =
    if exposure == 0
    then (false, g)
    else if ltb (round_cap_lamports g) (g.reserved + exposure)
    then (false, g)
    else (true, record g { reserved = g.reserved + exposure })

-- `release`
unfoldable pub release : ExposureGuard → ℕ → ExposureGuard
release g exposure = record g { reserved = g.reserved - exposure }
