-- ===== src/Blackjack/Recovery/Runs.antt =====
-- A round of apps/api/src/games/blackjack/blackjack.engine.ts from its first bet to its settlement, with the rows
-- that it writes.
use scadium.Prelude.{
  Bool, ℕ, ◌≡◌, inl, inr, refl, sym, subst, ap, ◌∙◌, true, false, some, List, [], ◌∷◌, ◌++◌, map,
  arith, Option-cases, ok,
}
use scadium.Fair.Hash.{Crypto}
use scadium.Blackjack.{
  Phase, SeatBet, Seat, TableState, RoundRow, same_phase, seat_at, seat_of, stake_of,
}
use scadium.Blackjack.Seats.{take_seat, leave_seat, new_seat}
use scadium.Blackjack.Betting.{Opening, place_bet, accept_bet, put_bet, clear_bet, clear_bet_of}
use scadium.Blackjack.Hands.{Action, act, deal, dealer_turn, time_out}
use scadium.Blackjack.Facade.Stakes.{stakes, is_live}
use scadium.Blackjack.Tables.Runs.{
  Table, sat_down, left, bet, cleared, dealt, acted, timed_out, dealer_played, Table-IsTable,
}
use scadium.Blackjack.Recovery.{IsRecorded, IsRecorded-kept}
use scadium.Blackjack.Saves.{clear_bet-ok, leave_seat-ok, act-ok}
use scadium.Blackjack.Recovery.Steps.{
  put_bet_first-IsRecorded, put_bet_more-IsRecorded, clear_stake-IsRecorded,
  give_up_seat-IsRecorded, deal-IsRecorded, play_turn-IsRecorded, time_out-IsRecorded,
  dealer_turn-IsRecorded,
}

-- The steps of one round whose writes go through; a bet in the window may be refused.
pub data Played (crypto : Crypto) : TableState → List RoundRow → Type 0 where
  opens :
      {t t' : TableState} (env : Opening) (rounds rows : List RoundRow) (user_id : ℕ)
      (stake : SeatBet) (prev : ℕ)
      → Table crypto t
      → is_live t.phase ≡ false
      → place_bet env t rounds user_id stake ≡ (t', rows, ok prev)
      → Played crypto t' rows
  bets :
      {t : TableState} {rounds : List RoundRow} (env : Opening) (user_id : ℕ) (stake : SeatBet)
      → Played crypto t rounds
      → t.phase ≡ Phase.betting
      → env.saved ≡ true
      → Played crypto
          (place_bet env t rounds user_id stake).0
          (place_bet env t rounds user_id stake).1
  clears :
      {t t' : TableState} {rounds rows : List RoundRow} (saved : Bool) (user_id refund : ℕ)
      → Played crypto t rounds
      → clear_bet saved t rounds user_id ≡ (t', rows, ok refund)
      → Played crypto t' rows
  sits :
      {t t' : TableState} {rounds : List RoundRow} (index user_id : ℕ)
      → Played crypto t rounds
      → take_seat t index user_id ≡ ok t'
      → Played crypto t' rounds
  leaves :
      {t t' : TableState} {rounds rows : List RoundRow} (saved : Bool) (user_id refund : ℕ)
      → Played crypto t rounds
      → is_live t.phase ≡ true
      → leave_seat saved t rounds user_id ≡ (t', rows, ok refund)
      → Played crypto t' rows
  deals :
      {t : TableState} {rounds : List RoundRow}
      → Played crypto t rounds
      → Played crypto (deal crypto t rounds).0 (deal crypto t rounds).1
  acts :
      {t t' : TableState} {rounds rows : List RoundRow} (saved : Bool) (user_id : ℕ) (a : Action)
      → Played crypto t rounds
      → act crypto saved t rounds user_id a ≡ (t', rows, ok tt)
      → Played crypto t' rows
  runs_out :
      {t : TableState} {rounds : List RoundRow} (index : ℕ)
      → Played crypto t rounds
      → Played crypto (time_out index t) rounds
  dealer_plays :
      {t : TableState} {rounds : List RoundRow}
      → Played crypto t rounds
      → Played crypto (dealer_turn crypto t) rounds

Played-Table :
    {crypto : Crypto} {t : TableState} {rows : List RoundRow}
    → Played crypto t rows
    → Table crypto t
Played-Table {crypto} (opens {t} env rounds rows user_id stake prev start idle e) =
    subst (Table crypto) (ap (λ x. x.0) e) (bet env rounds user_id stake start)
Played-Table (bets {t} {rounds} env user_id stake before open_now through) =
    bet env rounds user_id stake (Played-Table before)
Played-Table (clears {t} {t'} {rounds} {rows} saved user_id refund before e) =
    cleared saved rounds rows user_id (ok refund) (Played-Table before) e
Played-Table (sits index user_id before e) = sat_down index user_id (Played-Table before) e
Played-Table (leaves {t} {t'} {rounds} {rows} saved user_id refund before alive e) =
    left saved rounds rows user_id (ok refund) (Played-Table before) e
Played-Table (deals {t} {rounds} before) = dealt rounds (Played-Table before)
Played-Table (acts {t} {t'} {rounds} {rows} saved user_id a before e) =
    acted saved rounds rows user_id a (ok tt) (Played-Table before) e
Played-Table (runs_out index before) = timed_out index (Played-Table before)
Played-Table (dealer_plays before) = dealer_played (Played-Table before)

opens-at :
    (env : Opening) (t : TableState) (rounds : List RoundRow) (user_id : ℕ) (stake : SeatBet)
    (seat : Seat) {prev : ℕ} (p : Phase)
    → t.phase ≡ p
    → is_live p ≡ false
    → seat_of user_id t.seats ≡ some seat
    → (place_bet env t rounds user_id stake).2 ≡ ok prev
    → IsRecorded (place_bet env t rounds user_id stake).0 (place_bet env t rounds user_id stake).1
unfolding place_bet accept_bet same_phase
opens-at env t rounds user_id stake seat Phase.idle e dead found h =
    let same : place_bet env t rounds user_id stake
        ≡ put_bet env true t rounds seat.index stake (stake_of seat.bet) =
      rw (ap (λ q. same_phase q Phase.idle) e, found, place_bet)
        (rw
          (ap (λ q. same_phase q Phase.settled) e, ap (λ q. same_phase q Phase.idle) e, accept_bet)
          refl) in
    rw same (
      put_bet_first-IsRecorded env t rounds seat.index stake (stake_of seat.bet)
        (ap (λ x. x.2) (sym same) ∙ h))
opens-at env t rounds user_id stake seat Phase.settled e dead found h =
    let clean : TableState = record t { seats = map clear_bet_of t.seats } in
    let same : place_bet env t rounds user_id stake
        ≡ put_bet env true clean rounds seat.index stake 0 =
      rw
        (
          ap (λ q. same_phase q Phase.idle) e,
          ap (λ q. same_phase q Phase.betting) e,
          ap (λ q. same_phase q Phase.settled) e,
          found,
          place_bet,
        )
        (rw (ap (λ q. same_phase q Phase.settled) e, accept_bet) refl) in
    rw same
      (put_bet_first-IsRecorded env clean rounds seat.index stake 0 (ap (λ x. x.2) (sym same) ∙ h))
opens-at env t rounds user_id stake seat Phase.betting e dead found h = cc
opens-at env t rounds user_id stake seat Phase.dealing e dead found h = cc
opens-at env t rounds user_id stake seat Phase.player_turns e dead found h = cc
opens-at env t rounds user_id stake seat Phase.dealer_turn e dead found h = cc

opens-IsRecorded :
    (env : Opening) (t : TableState) (rounds : List RoundRow) (user_id : ℕ) (stake : SeatBet)
    {prev : ℕ}
    → is_live t.phase ≡ false
    → (place_bet env t rounds user_id stake).2 ≡ ok prev
    → IsRecorded (place_bet env t rounds user_id stake).0 (place_bet env t rounds user_id stake).1
unfolding place_bet
opens-IsRecorded env t rounds user_id stake {prev} dead h =
    elim (Option-cases (seat_of user_id t.seats)) [
      | inl none_seated ↦ absurd (ground arith)
      | inr (s, found) ↦ opens-at env t rounds user_id stake s t.phase refl dead found h
    ]

bets-IsRecorded :
    (env : Opening) (t : TableState) (rounds : List RoundRow) (user_id : ℕ) (stake : SeatBet)
    → t.phase ≡ Phase.betting
    → env.saved ≡ true
    → IsRecorded t rounds
    → IsRecorded (place_bet env t rounds user_id stake).0 (place_bet env t rounds user_id stake).1
unfolding place_bet accept_bet same_phase
bets-IsRecorded env t rounds user_id stake e through h =
    elim (Option-cases (seat_of user_id t.seats)) [
      | inl none_seated ↦
          rw
            (
              ap (λ q. same_phase q Phase.idle) e,
              ap (λ q. same_phase q Phase.betting) e,
              none_seated,
              place_bet,
            )
            h
      | inr (s, found) ↦
          rw
            (
              ap (λ q. same_phase q Phase.idle) e,
              ap (λ q. same_phase q Phase.betting) e,
              found,
              place_bet,
            )
            (rw
              (
                ap (λ q. same_phase q Phase.settled) e,
                ap (λ q. same_phase q Phase.idle) e,
                accept_bet,
              )
              (put_bet_more-IsRecorded env t rounds s.index stake (stake_of s.bet) through h))
    ]

pub append-stakes :
    (j : ℕ) (seats : List Seat) (index user_id : ℕ)
    → stakes j (seats ++ new_seat index user_id ∷ []) ≡ stakes j seats
unfolding stakes
append-stakes j [] index user_id = grind arith
append-stakes j (s ∷ seats) index user_id = grind (arith, append-stakes j seats index user_id)

sits-IsRecorded :
    (t : TableState) (rounds : List RoundRow) (index user_id : ℕ) {t' : TableState}
    → take_seat t index user_id ≡ ok t'
    → IsRecorded t rounds
    → IsRecorded t' rounds
unfolding take_seat
sits-IsRecorded t rounds index user_id {t'} e h =
    let new = new_seat index user_id in
    elim (Option-cases (seat_at index t.seats)) [
      | inr (s, taken) ↦ absurd (ground arith)
      | inl free ↦
          let same : record t { seats = t.seats ++ new ∷ [] } ≡ t' = ground arith in
          subst (λ x. IsRecorded x rounds) same
            (IsRecorded-kept t _ rounds refl (λ j. append-stakes j t.seats index user_id) h)
    ]

-- At every point of a round that a bet opens, until it is settled, and whatever the players do, a double included,
-- as long as each write of the row goes through: the row of the round holds, for every user, exactly what
-- the user has at stake on the table, which is what a recovery gives back.
pub Played-IsRecorded :
    {crypto : Crypto} {t : TableState} {rows : List RoundRow}
    → Played crypto t rows
    → IsRecorded t rows
Played-IsRecorded (opens {t} {t'} env rounds rows user_id stake prev start idle e) =
    rw (← ap (λ x. x.0) e, ← ap (λ x. x.1) e)
      (opens-IsRecorded env t rounds user_id stake idle (ap (λ x. x.2) e))
Played-IsRecorded (bets {t} {rounds} env user_id stake before open_now through) =
    bets-IsRecorded env t rounds user_id stake open_now through (Played-IsRecorded before)
Played-IsRecorded (clears {t} {t'} {rounds} saved user_id refund before e) =
    clear_stake-IsRecorded t rounds user_id (clear_bet-ok saved t rounds user_id e)
      (Played-IsRecorded before)
Played-IsRecorded (sits {t} {t'} {rounds} index user_id before e) =
    sits-IsRecorded t rounds index user_id e (Played-IsRecorded before)
Played-IsRecorded (leaves {t} {t'} {rounds} saved user_id refund before alive e) =
    give_up_seat-IsRecorded t rounds user_id alive (Table-IsTable (Played-Table before)).distinct
      (leave_seat-ok saved t rounds user_id e) (Played-IsRecorded before)
Played-IsRecorded {crypto} (deals {t} {rounds} before) =
    deal-IsRecorded crypto t rounds (Played-IsRecorded before)
Played-IsRecorded {crypto} (acts {t} {t'} {rounds} saved user_id a before e) =
    play_turn-IsRecorded crypto t rounds user_id a (act-ok crypto saved t rounds user_id a e)
      (Played-IsRecorded before)
Played-IsRecorded (runs_out {t} {rounds} index before) =
    time_out-IsRecorded index t rounds (Played-IsRecorded before)
Played-IsRecorded {crypto} (dealer_plays {t} {rounds} before) =
    dealer_turn-IsRecorded crypto t rounds (Played-IsRecorded before)
