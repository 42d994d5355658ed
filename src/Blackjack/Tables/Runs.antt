-- ===== src/Blackjack/Tables/Runs.antt =====
-- Any sequence of the calls and timers of apps/api/src/games/blackjack/blackjack.engine.ts on one table.
use scadium.Prelude.{ℕ, ◌≡◌, inl, inr, subst, Bool, List, [], Result, ok}
use scadium.Fair.Hash.{Crypto}
use scadium.Blackjack.{Phase, SeatBet, TableState, RoundRow}
use scadium.Blackjack.Seats.{take_seat, leave_seat}
use scadium.Blackjack.Betting.{Opening, place_bet, clear_bet}
use scadium.Blackjack.Hands.{Action, act, deal, dealer_turn, time_out}
use scadium.Blackjack.Settlement.{settle_hands, end_pause}
use scadium.Blackjack.Facade.Bets.{IsTable}
use scadium.Blackjack.Saves.{clear_bet-Changed, leave_seat-Changed, act-cases}
use scadium.Blackjack.Tables.{IsSound, IsSound-IsTable}
use scadium.Blackjack.Tables.Steps.{
  in_round, take_seat-IsSound, give_up_seat-IsSound, place_bet-IsSound, clear_stake-IsSound,
}
use scadium.Blackjack.Tables.Hands.{
  deal-IsSound, play_turn-IsSound, halted-IsSound, time_out-IsSound, dealer_turn-IsSound,
  settle_hands-IsSound, end_pause-IsSound,
}

-- `settle_failed` is the way back of a settlement whose transaction fails.
pub data Table (crypto : Crypto) : TableState → Type 0 where
  created : (t : TableState) → t.seats ≡ [] → Table crypto t
  sat_down :
      {t t' : TableState} (index user_id : ℕ)
      → Table crypto t
      → take_seat t index user_id ≡ ok t'
      → Table crypto t'
  left :
      {t t' : TableState} (saved : Bool) (rounds rows : List RoundRow) (user_id : ℕ)
      (answer : Result ℕ)
      → Table crypto t
      → leave_seat saved t rounds user_id ≡ (t', rows, answer)
      → Table crypto t'
  bet :
      {t : TableState} (env : Opening) (rounds : List RoundRow) (user_id : ℕ) (stake : SeatBet)
      → Table crypto t
      → Table crypto (place_bet env t rounds user_id stake).0
  cleared :
      {t t' : TableState} (saved : Bool) (rounds rows : List RoundRow) (user_id : ℕ)
      (answer : Result ℕ)
      → Table crypto t
      → clear_bet saved t rounds user_id ≡ (t', rows, answer)
      → Table crypto t'
  dealt :
      {t : TableState} (rounds : List RoundRow)
      → Table crypto t
      → Table crypto (deal crypto t rounds).0
  acted :
      {t t' : TableState} (saved : Bool) (rounds rows : List RoundRow) (user_id : ℕ) (a : Action)
      (answer : Result (Unit {0}))
      → Table crypto t
      → act crypto saved t rounds user_id a ≡ (t', rows, answer)
      → Table crypto t'
  timed_out : {t : TableState} (index : ℕ) → Table crypto t → Table crypto (time_out index t)
  dealer_played : {t : TableState} → Table crypto t → Table crypto (dealer_turn crypto t)
  settled : {t : TableState} → Table crypto t → Table crypto (settle_hands t)
  settle_failed :
      {t : TableState} → Table crypto t → Table crypto (record t { phase = Phase.dealer_turn })
  paused : {t : TableState} → Table crypto t → Table crypto (end_pause t)

Table-IsSound : {crypto : Crypto} {t : TableState} → Table crypto t → IsSound t
Table-IsSound (created t e) = record { apart = rw e tt; clear = λ idle. rw e tt }
Table-IsSound (sat_down {t} index user_id before e) =
    take_seat-IsSound t index user_id e (Table-IsSound before)
Table-IsSound (left {t} saved rounds rows user_id answer before e) =
    elim (leave_seat-Changed saved t rounds user_id e) [
      | inl same ↦ subst IsSound same (Table-IsSound before)
      | inr (refund, written, gone) ↦
          give_up_seat-IsSound t rounds user_id gone (Table-IsSound before)
    ]
Table-IsSound (bet {t} env rounds user_id stake before) =
    place_bet-IsSound env t rounds user_id stake (Table-IsSound before)
Table-IsSound (cleared {t} saved rounds rows user_id answer before e) =
    elim (clear_bet-Changed saved t rounds user_id e) [
      | inl same ↦ subst IsSound same (Table-IsSound before)
      | inr (refund, written, gone) ↦
          clear_stake-IsSound t rounds user_id gone (Table-IsSound before)
    ]
Table-IsSound {crypto} (dealt {t} rounds before) =
    deal-IsSound crypto t rounds (Table-IsSound before)
Table-IsSound {crypto} (acted {t} saved rounds rows user_id a answer before e) =
    elim (act-cases crypto saved t rounds user_id a e) [
      | inl same ↦ subst IsSound same (Table-IsSound before)
      | inr (inl (written, played)) ↦
          play_turn-IsSound crypto t rounds user_id a played (Table-IsSound before)
      | inr (inr same) ↦
          subst IsSound same (halted-IsSound crypto t user_id a (Table-IsSound before))
    ]
Table-IsSound (timed_out {t} index before) = time_out-IsSound index t (Table-IsSound before)
Table-IsSound {crypto} (dealer_played {t} before) =
    dealer_turn-IsSound crypto t (Table-IsSound before)
Table-IsSound (settled {t} before) = settle_hands-IsSound t (Table-IsSound before)
Table-IsSound (settle_failed {t} before) = in_round _ (λ idle. cc) (Table-IsSound before).apart
Table-IsSound (paused {t} before) = end_pause-IsSound t (Table-IsSound before)

-- Whatever the players do and whichever timers fire, from a table without seats on and in whatever order: no
-- two seats share an index or a user, and an idle table holds no stakes.
pub Table-IsTable : {crypto : Crypto} {t : TableState} → Table crypto t → IsTable t
Table-IsTable {crypto} {t} run = IsSound-IsTable t (Table-IsSound run)
