-- ===== src/Fair/Tickets.antt =====
-- Draws over a list of stakes (packages/fair/src/jackpot.ts and engine-draw.ts), and the single draws
-- of plinko.ts, wheel.ts and hilo.ts.
pub mod Ranges
use scadium.Prelude.{
  ℕ, zero, suc, ◌+◌, ◌-◌, ◌*◌, ◌/◌, ◌%◌, Bool, true, false, ◌&&◌, List, [], ◌∷◌, map, length,
  get_or, ltb, leb, if◌then◌else◌, Option, none, some,
}
use scadium.Fair.Hash.{Text, Crypto, hmac_sha256, build_message, parse_hex}
use scadium.Fair.Floats.{float_one, scale, floats_from_hmac}

-- `jackpotRoll`
unfoldable pub jackpot_roll : Crypto → Text → Text → ℕ → ℕ
jackpot_roll crypto server_seed client_seed nonce =
    parse_hex 0 (hmac_sha256 crypto server_seed (build_message client_seed nonce))

-- `jackpotWinningTicket`
unfoldable pub jackpot_winning_ticket : Crypto → Text → Text → ℕ → ℕ → ℕ
jackpot_winning_ticket crypto server_seed client_seed nonce total =
    if leb total 0 then 0 else jackpot_roll crypto server_seed client_seed nonce % total

pub record Range : Type 0 where
  pub start : ℕ
  pub end : ℕ

-- `jackpotRanges`, from the cursor on.
unfoldable pub ranges_from : ℕ → List ℕ → List Range
ranges_from cursor [] = []
ranges_from cursor (amount ∷ amounts) =
    record { start = cursor; end = cursor + amount } ∷ ranges_from (cursor + amount) amounts

unfoldable pub jackpot_ranges : List ℕ → List Range
unfolding ranges_from
jackpot_ranges amounts = ranges_from 0 amounts

-- `findIndex`, from index `i` on; `none` is -1.
unfoldable pub find_range : ℕ → ℕ → List Range → Option ℕ
find_range ticket i [] = none
find_range ticket i (r ∷ ranges) =
    let rest = find_range ticket (i + 1) ranges in
    if leb r.start ticket && ltb ticket r.end then some i else rest

-- `jackpotWinnerIndex`
unfoldable pub jackpot_winner_index : List ℕ → ℕ → Option ℕ
unfolding jackpot_ranges find_range
jackpot_winner_index amounts ticket = find_range ticket 0 (jackpot_ranges amounts)

-- The loop of `weightedWinnerIndex` over the weights that are left; at its end the last participant.
unfoldable pub weighted_from : ℕ → ℕ → ℕ → ℕ → List ℕ → ℕ
weighted_from ticket last cumulative i [] = last
weighted_from ticket last cumulative i (w ∷ weights) =
    let rest = weighted_from ticket last (cumulative + w) (i + 1) weights in
    if ltb ticket (cumulative + w) then i else rest

-- `weightedWinnerIndex`
unfoldable pub weighted_winner_index : ℕ → List ℕ → ℕ
unfolding weighted_from
weighted_winner_index ticket weights = weighted_from ticket (length weights - 1) 0 0 weights

-- The directions of `plinkoDrop`: right from one half on.
unfoldable pub plinko_path : Crypto → Text → Text → ℕ → ℕ → List ℕ
plinko_path crypto server_seed client_seed nonce rows =
    map (λ f. if leb float_one (f * 2) then 1 else 0)
      (floats_from_hmac crypto server_seed client_seed nonce rows)

abbrev pub sum : List ℕ → ℕ
sum [] = 0
sum (x ∷ xs) = x + sum xs

-- `plinkoDrop`: the path and the bin.
unfoldable pub plinko_drop : Crypto → Text → Text → ℕ → ℕ → List ℕ × ℕ
unfolding plinko_path
plinko_drop crypto server_seed client_seed nonce rows =
    let path = plinko_path crypto server_seed client_seed nonce rows in (path, sum path)

-- `wheelSpin`
unfoldable pub wheel_spin : Crypto → Text → Text → ℕ → ℕ → ℕ
unfolding scale
wheel_spin crypto server_seed client_seed nonce segment_count =
    let u = get_or (floats_from_hmac crypto server_seed client_seed nonce 1) 0 0 in
    let idx = scale u segment_count in if leb segment_count idx then segment_count - 1 else idx

-- `hiloSequence`
unfoldable pub hilo_sequence : Crypto → Text → Text → ℕ → ℕ → List ℕ
unfolding scale
hilo_sequence crypto server_seed client_seed nonce count =
    map (λ f. scale f 52) (floats_from_hmac crypto server_seed client_seed nonce count)

-- `cardRank`
unfoldable pub card_rank : ℕ → ℕ
card_rank card = card % 13
