-- ===== src/Blackjack/Betting.antt =====
-- `placeBet`, `clearBet` and `openBetting` of apps/api/src/games/blackjack/blackjack.engine.ts.
use scadium.Prelude.{
  ℕ, Bool, true, false, not, ◌&&◌, ◌||◌, Option, none, some, List, [], ◌∷◌, map, ltb, if◌then◌else◌,
  Result, ok, err, bad_request, unavailable, Check,
}
use scadium.Fair.Hash.{Text}
use scadium.Blackjack.{
  Phase, HandStatus, SeatBet, Seat, ExposureGuard, TableState, RoundRow, same_phase, bet_total,
  stake_of, seat_of, update_seat, persist_betting_stakes, Answer, has_round, after_save,
}
use scadium.Blackjack.Exposure.{potential, reserve, release, max_payout_x}

-- What `openBetting` draws and reads: the seeds, the seed of the deck once the entropy is folded in, the id of
-- the new round, the bankroll if the chain is enabled, whether the seed and the round are stored, and whether the stakes
-- are saved afterwards.
pub record Opening : Type 0 where
  pub chain_enabled : Bool
  pub bankroll : Option ℕ
  pub round_id : ℕ
  pub stored : Bool
  pub saved : Bool
  pub client_seed : Text
  pub deal_seed : Text

abbrev pub clear_bet_of : Seat → Seat
clear_bet_of s = record s { bet = none }

-- The per-round state of a seat, reset.
abbrev pub reset_seat : Seat → Seat
reset_seat s = record s {
  cards = [];
  status = HandStatus.playing;
  doubled = false;
  side_21p3_outcome = none;
  side_perfect_pairs_outcome = none;
  result = none;
  payout_lamports = 0;
}

-- The reservations of the bets that stand when the window opens; one that does not fit is only logged.
unfoldable pub reserve_bets : ExposureGuard → List Seat → ExposureGuard
reserve_bets g [] = g
reserve_bets g (s ∷ seats) = elim s.bet [
  | none ↦ reserve_bets g seats
  | some b ↦ reserve_bets (reserve g (potential (bet_total b) max_payout_x)).1 seats
]

abbrev pub opening_guard : Opening → List Seat → Option ExposureGuard
opening_guard env seats =
    if env.chain_enabled
    then elim env.bankroll [
      | none ↦ none
      | some house ↦
          some (reserve_bets (record { house_balance_lamports = house; reserved = 0 }) seats)
    ]
    else none

-- `openBetting`, once its rows are stored and before the stakes are.
unfoldable pub open_betting : Opening → TableState → List RoundRow → TableState × List RoundRow
open_betting env t rounds =
    let opened : TableState = record t {
      phase = Phase.betting;
      exposure = opening_guard env t.seats;
      seats = map reset_seat t.seats;
      active_seat = none;
      dealer_cards = [];
      dealer_hidden = true;
      deck_index = 0;
      deal_log = [];
      round_db_id = some env.round_id;
      client_seed = env.client_seed;
      deal_seed = env.deal_seed;
      nonce = 0;
    } in
    let created : RoundRow = record { id = env.round_id; ended = false; seats = [] } in
    (opened, created ∷ rounds)

-- The swap of a replaced bet's reservation for the new one's; a refusal takes the old one back.
unfoldable pub swap_exposure : Bool → TableState → ℕ → ℕ → Bool × Option ExposureGuard
swap_exposure chain_enabled t previous total = elim t.exposure [
  | none ↦ (true, none)
  | some g ↦
      if chain_enabled && same_phase t.phase Phase.betting
      then (let prev_potential : ℕ =
            if ltb 0 previous then potential previous max_payout_x else 0 in
          let released = release g prev_potential in
          let (fits, reserved) = reserve released (potential total max_payout_x) in
          if fits then (true, some reserved) else (false, some (reserve released prev_potential).1))
      else (true, some g)
]

-- `openBetting` with the answer of its bet. A failure to store the rows ends it after the phase was set, and one
-- to save the stakes leaves the row of the round without them.
unfoldable pub start_betting : Opening → TableState → List RoundRow → ℕ → Answer ℕ
start_betting env t rounds prev =
    let (opened, rows) = open_betting env t rounds in
    if env.stored
    then (if env.saved
        then (opened, persist_betting_stakes opened rows, ok prev)
        else (opened, rows, err unavailable))
    else (record t { phase = Phase.betting }, rounds, err unavailable)

-- The bet on its seat, which replaces one of `prev`: the first one of a round opens the window.
unfoldable pub put_bet : Opening → Bool → TableState → List RoundRow → ℕ → SeatBet → ℕ → Answer ℕ
put_bet env first t rounds index bet prev =
    let (fits, guard) = swap_exposure env.chain_enabled t prev (bet_total bet) in
    let placed : TableState = record t {
      exposure = guard;
      seats = update_seat index (λ s. record s { bet = some bet; idle_rounds = 0 }) t.seats;
    } in
    if fits
    then (if first
        then start_betting env placed rounds prev
        else if env.saved || not (has_round t)
        then (placed, persist_betting_stakes placed rounds, ok prev)
        else (placed, rounds, err unavailable))
    else (record t { exposure = guard }, rounds, err (bad_request Check.exposure_limit))

-- A bet of a seated player while bets are open. After a settlement all the bets are of the round before.
unfoldable pub accept_bet : Opening → TableState → List RoundRow → Seat → SeatBet → Answer ℕ
accept_bet env t rounds seat bet =
    if same_phase t.phase Phase.settled
    then put_bet env true (record t { seats = map clear_bet_of t.seats }) rounds seat.index bet 0
    else put_bet env (same_phase t.phase Phase.idle) t rounds seat.index bet (stake_of seat.bet)

-- `placeBet`: the stake of the bet that this one replaces.
unfoldable pub place_bet : Opening → TableState → List RoundRow → ℕ → SeatBet → Answer ℕ
place_bet env t rounds user_id bet =
    if same_phase t.phase Phase.idle
      || same_phase t.phase Phase.betting
      || same_phase t.phase Phase.settled
    then elim (seat_of user_id t.seats) [
      | none ↦ (t, rounds, err (bad_request Check.not_seated))
      | some seat ↦ accept_bet env t rounds seat bet
    ]
    else (t, rounds, err (bad_request Check.bets_closed))

-- `clearBet` with its update of the row: the refund.
unfoldable pub clear_stake :
    TableState → List RoundRow → ℕ → Result (ℕ × TableState × List RoundRow)
clear_stake t rounds user_id =
    if same_phase t.phase Phase.betting
    then elim (seat_of user_id t.seats) [
      | none ↦ err (bad_request Check.no_bet)
      | some seat ↦ elim seat.bet [
        | none ↦ err (bad_request Check.no_bet)
        | some bet ↦
            let cleared : TableState = record t {
              seats = update_seat seat.index clear_bet_of t.seats;
              exposure = elim t.exposure [
                | none ↦ none
                | some g ↦ some (release g (potential (bet_total bet) max_payout_x))
              ];
            } in
            ok (bet_total bet, cleared, persist_betting_stakes cleared rounds)
      ]
    ]
    else err (bad_request Check.no_window)

-- `clearBet`
unfoldable pub clear_bet : Bool → TableState → List RoundRow → ℕ → Answer ℕ
clear_bet saved t rounds user_id =
    after_save (saved || not (has_round t)) t rounds (clear_stake t rounds user_id)
