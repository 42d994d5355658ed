-- ===== src/Blackjack/Tests.antt =====
-- Runs of apps/api/src/games/blackjack, and the theorems about it at concrete inputs.
use scadium.Prelude.{
  ℕ, ◌+◌, ◌*◌, ◌/◌, ◌≤◌, ◌≡◌, refl, Bool, true, false, none, some, Option, List, [], ◌∷◌, arith, ok,
  err, Table, put, Result, claim_lost, unavailable, bad_request, Check, replicate,
}
use scadium.Prelude.Int.{pos, ◌+ℤ◌, ◌-ℤ◌}
use scadium.Ledger.{
  User, Accounts, balance, set_balance, apply_balance_delta, move, debit, credit, record_move,
}
use scadium.Fair.Hash.{Crypto}
use scadium.Fair.Cards.{
  Card, six, seven, ten, hearts, spades, hand_value, is_blackjack, is_bust, is_ace, card_value,
}
use scadium.Fair.Cards.Values.{hard_total}
use scadium.Rounds.{Services, bump, pay}
use scadium.Rounds.Money.Steps.{KeepsPlay}
use scadium.Blackjack.{
  Phase, HandStatus, SeatBet, Seat, TableState, RoundRow, bet_total, seat_at, seat_of, delete_seat,
  after_save, update_seat, filter_seats, update_round, write_state, persist_betting_stakes,
  betting_seats, same_phase,
}
use scadium.Blackjack.{sort_seats, insert_seat, has_bet, filter_seats}
use scadium.Blackjack.Seats.{take_seat, leave_seat, give_up_seat, new_seat}
use scadium.Blackjack.Exposure.{max_payout_x}
use scadium.Blackjack.Betting.{
  Opening, place_bet, accept_bet, start_betting, put_bet, swap_exposure, open_betting,
}
use scadium.Blackjack.Hands.{deal, dealer_turn, any_live}
use scadium.Blackjack.Hands.Dealer.{Drew, Stands, dealer_turn_lem}
use scadium.Blackjack.Hands.Log.{IsLogged}
use scadium.Blackjack.Hands.Log.Turns.{IsUndealt}
use scadium.Blackjack.Hands.Log.Runs.{dealt, dealer_played, Hand-IsLogged}
use scadium.Blackjack.Settlement.{
  BlackjackDb, main_result, settle_seat, settle_tx, pay_seats, pay_seat, refund_all, recover_tx,
  parse_seat_stakes, is_open_round,
}
use scadium.Blackjack.Settlement.Payouts.{main_result-showdown, settle_seat-le}
use scadium.Blackjack.Settlement.Gains.{Gains, row_stakes, recover_tx-Gains}
use scadium.Blackjack.Settlement.Once.{settled_now, no_more, Attempt-once}
use scadium.Blackjack.Settlement.Late.{late_settlement}
use scadium.Blackjack.Facade.{
  Gates, Floor, Reply, Task, Request, place_checks, load_user, serve, request_bet, request_leave,
  resume, debit_then, seat_bet, after_placing, after_leave,
}
use scadium.Blackjack.Facade.Stakes.{stakes}
use scadium.Blackjack.Facade.Bets.{IsTable}
use scadium.Blackjack.Facade.Runs.{starts, arrives, resumes, waiting, Serving-conserves}
use scadium.Blackjack.Facade.Conserved.{funds}
use scadium.Blackjack.Recovery.{IsRecorded}
use scadium.Blackjack.Recovery.Runs.{opens, Played-IsRecorded}
use scadium.Blackjack.Tables.Runs.{created, sat_down, bet, Table-IsTable}
use scadium.Blackjack.Facade.Failed.{alone, IsStranded, failed_opening-creates}

abbrev toy : Crypto
toy = record { hmac = λ key message. replicate 32 200; hash = λ input. replicate 32 9 }

abbrev lenient : Services ℕ
lenient = record {
  assert_can_wager = λ rest accounts user_id amount. ok tt;
  accrue = λ rest accounts user_id game stake. ok (rest + stake, accounts);
  credit_referral = λ rest user_id stake game. ok rest;
}

lenient-KeepsPlay : KeepsPlay lenient
lenient-KeepsPlay = record {
  kept = λ e a user_id game stake h v u' found. (u', ground arith, refl);
}

abbrev player : User
player = record {
  banned = false;
  play_balance_lamports = pos 9000000;
  scadium_balance = pos 0;
  scadium_staked = pos 0;
  usds_balance = pos 0;
  scadium_vault = pos 0;
  total_wagered = 0;
  total_won = 0;
  total_lost = 0;
  games_played = 0;
  biggest_win = 0;
}

abbrev no_rows : (A : Type 0) → Table A
no_rows A j = none

abbrev accounts : Accounts
accounts = record { users = put 1 player (no_rows User); ledger = [] }

-- One player on seat 0 of an idle table.
abbrev empty_table : TableState
empty_table = record {
  id = 4;
  is_private = false;
  owner_id = none;
  max_seats = 5;
  phase = Phase.idle;
  active_seat = none;
  seats = [];
  dealer_cards = [];
  dealer_hidden = true;
  deck_index = 0;
  deal_log = [];
  round_db_id = none;
  client_seed = 1 ∷ [];
  deal_seed = 2 ∷ [];
  nonce = 0;
  exposure = none;
}

abbrev table : TableState
table = record empty_table { seats = new_seat 0 1 ∷ [] }

take_seat_runs : take_seat empty_table 0 1 ≡ ok table
unfolding take_seat seat_at seat_of
take_seat_runs = refl

seat_taken_runs : take_seat table 0 2 ≡ err (bad_request Check.seat_taken)
unfolding take_seat seat_at seat_of
seat_taken_runs = refl

abbrev stake : SeatBet
stake = record {
  main_lamports = 2000000;
  side_21p3_lamports = 100;
  side_perfect_pairs_lamports = 0;
}

abbrev opening : Opening
opening = record {
  chain_enabled = false;
  bankroll = none;
  round_id = 8;
  stored = true;
  saved = true;
  client_seed = 1 ∷ [];
  deal_seed = 2 ∷ [];
}

abbrev gates : Gates
gates = record { deposited_only = λ a u. ok tt; can_wager = λ a u n. ok tt }

table-IsTable : IsTable table
unfolding seat_at seat_of stakes
table-IsTable = record {
  distinct = (tt, tt);
  single = λ index s h. ground arith;
  idle_clear = λ e j. ground arith;
}

abbrev floor : Floor
floor = record { accounts = accounts; table = table; rounds = [] }

-- A bet whose player leaves between its debit and its place on the table.
abbrev asked : Reply
asked = serve gates toy true floor 1 (Request.to_bet stake)

abbrev debited : Reply
debited = resume toy opening asked.0 asked.1

abbrev walked : Reply
walked = serve gates toy true debited.0 1 Request.to_leave

abbrev turned_away : Reply
turned_away = resume toy opening walked.0 debited.1

turned_away_runs : turned_away.1 ≡ Task.to_credit 1 2000100 (err (bad_request Check.not_seated))
unfolding serve request_bet request_leave resume debit_then seat_bet after_placing after_leave
    place_checks load_user bet_total apply_balance_delta move debit record_move balance set_balance
    ◌+ℤ◌ ◌-ℤ◌ leave_seat give_up_seat after_save place_bet same_phase seat_of delete_seat
turned_away_runs = refl

Serving-conserves_example :
    funds turned_away.0 (waiting (walked.1 ∷ turned_away.1 ∷ [])) 1 ≡ funds floor (λ i. 0) 1
unfolding serve request_bet resume debit_then place_checks load_user bet_total apply_balance_delta
    move debit record_move balance set_balance ◌+ℤ◌ ◌-ℤ◌
Serving-conserves_example =
    Serving-conserves {gates = gates} {crypto = toy} {start = floor}
      (resumes opening (walked.1 ∷ []) [] debited.1
        (arrives 1 Request.to_leave (
          resumes opening [] [] asked.1
            (arrives 1 (Request.to_bet stake)
              (starts (sat_down 0 1 (created empty_table refl) take_seat_runs)))
            refl refl tt))
        refl refl tt)
      1

abbrev failing : Opening
failing = record opening { stored = false }

place_bet_fails : (place_bet failing table [] 1 stake).2 ≡ err unavailable
unfolding place_bet accept_bet start_betting put_bet swap_exposure same_phase seat_of
place_bet_fails = refl

abbrev less : User
less = record player { play_balance_lamports = pos 6999900 }

failed_opening-creates_example :
    IsStranded 1 stake
      (new_seat 0 1)
      floor
      (alone toy failing 3 (serve gates toy true floor 1 (Request.to_bet stake)))
unfolding bet_total place_checks load_user seat_of apply_balance_delta move debit record_move
    balance set_balance ◌+ℤ◌ ◌-ℤ◌
failed_opening-creates_example =
    failed_opening-creates gates toy failing floor 1 stake (new_seat 0 1) table-IsTable refl refl
      refl refl refl refl

abbrev ten_of_hearts : Card
ten_of_hearts = record { rank = ten; suit = hearts }

abbrev six_of_spades : Card
six_of_spades = record { rank = six; suit = spades }

abbrev seven_of_spades : Card
seven_of_spades = record { rank = seven; suit = spades }

abbrev stood_seat : Seat
stood_seat = record (new_seat 0 1) {
  bet = some stake;
  cards = ten_of_hearts ∷ seven_of_spades ∷ [];
  status = HandStatus.standing;
}

-- The dealer shows sixteen against a hand that stands.
abbrev sixteen : TableState
sixteen = record table {
  phase = Phase.dealer_turn;
  seats = stood_seat ∷ [];
  dealer_cards = ten_of_hearts ∷ six_of_spades ∷ [];
  round_db_id = some 8;
}

any_live_runs : any_live (betting_seats sixteen.seats) ≡ true
unfolding any_live betting_seats sort_seats filter_seats insert_seat has_bet
any_live_runs = refl

dealer_turn_lem_example :
    Drew sixteen.dealer_cards (dealer_turn toy sixteen).dealer_cards
    × Stands (hand_value (dealer_turn toy sixteen).dealer_cards)
    × (hard_total (dealer_turn toy sixteen).dealer_cards ≤ 26)
unfolding is_ace card_value
dealer_turn_lem_example = dealer_turn_lem toy sixteen (omega arith) any_live_runs

-- A window that closes with a bet in it.
abbrev closing : TableState
closing = record table {
  phase = Phase.betting;
  seats = record (new_seat 0 1) { bet = some stake } ∷ [];
}

closing-IsUndealt : IsUndealt closing
closing-IsUndealt = record {
  empty_log = refl;
  at_start = refl;
  no_dealer = refl;
  no_cards = (refl, tt);
  distinct = (tt, tt);
}

Hand-IsLogged_example : IsLogged toy (dealer_turn toy (deal toy closing []).0)
Hand-IsLogged_example = Hand-IsLogged (dealer_played (dealt closing [] closing-IsUndealt))

main_result-showdown_example :
    (main_result
      (ten_of_hearts ∷ six_of_spades ∷ [])
      HandStatus.standing
      (ten_of_hearts ∷ seven_of_spades ∷ [])
      100).1
    ≡ 200
unfolding hand_value is_bust is_blackjack
main_result-showdown_example =
    main_result-showdown (ten_of_hearts ∷ six_of_spades ∷ []) HandStatus.standing
      (ten_of_hearts ∷ seven_of_spades ∷ []) 100
      (record { busted = λ e. cc; standing = λ ne. (refl, omega arith) })

settle_seat-le_example :
    (settle_seat (ten_of_hearts ∷ six_of_spades ∷ []) stood_seat).payout_lamports
    ≤ max_payout_x * bet_total stake
settle_seat-le_example = settle_seat-le (ten_of_hearts ∷ six_of_spades ∷ []) stood_seat stake refl

abbrev won_seat : Seat
won_seat = record stood_seat { payout_lamports = 4000000 }

abbrev open_row : RoundRow
open_row = record { id = 8; ended = false; seats = (1, some stake) ∷ [] }

abbrev db : BlackjackDb ℕ
db = record {
  accounts = accounts;
  rounds = open_row ∷ [];
  bets = [];
  rest = 0;
  failures = [];
  next_id = 30;
}

abbrev ratio : ℕ → ℕ → ℕ
ratio payout n = payout * 100 / n

abbrev ok_or {ℓ} : {A : Type ℓ} → Result A → A → A
ok_or (ok a) d = a
ok_or (err e) d = d

abbrev settled_db : BlackjackDb ℕ
settled_db = ok_or (settle_tx lenient ratio true (won_seat ∷ []) [] sixteen db) db

settle_runs : settle_tx lenient ratio true (won_seat ∷ []) [] sixteen db ≡ ok settled_db
unfolding settle_tx is_open_round pay_seats pay_seat pay bump apply_balance_delta move credit
    record_move balance set_balance ◌+ℤ◌ ◌-ℤ◌ bet_total
settle_runs = refl

Attempt-once_example :
    ((leader : Bool) (players : List Seat) (state : List (ℕ × Option SeatBet)) (t : TableState)
      → settle_tx lenient ratio leader players state (record t { round_db_id = some 8 }) settled_db
        ≡ err claim_lost)
    × ((row : RoundRow) → recover_tx (record row { id = 8 }) settled_db ≡ err claim_lost)
Attempt-once_example =
    Attempt-once lenient ratio 8 db settled_db
      (settled_now true (won_seat ∷ []) [] sixteen refl settle_runs) no_more

abbrev refunded_db : BlackjackDb ℕ
refunded_db = ok_or (recover_tx open_row db) db

recover_runs : recover_tx open_row db ≡ ok refunded_db
unfolding recover_tx refund_all parse_seat_stakes is_open_round pay apply_balance_delta move credit
    record_move balance set_balance ◌+ℤ◌ ◌-ℤ◌ bet_total
recover_runs = refl

recover_tx-Gains_example : Gains accounts refunded_db.accounts (row_stakes open_row.seats)
recover_tx-Gains_example = recover_tx-Gains open_row db recover_runs

-- The table once the hands are settled, and the next bet.
abbrev shown : TableState
shown = record sixteen { phase = Phase.settled }

abbrev next_opening : Opening
next_opening = record opening { round_id = 9 }

abbrev next_bet : TableState × List RoundRow × Result ℕ
next_bet = place_bet next_opening shown (open_row ∷ []) 1 stake

abbrev late_db : BlackjackDb ℕ
late_db =
    ok_or
      (settle_tx lenient ratio true (won_seat ∷ []) [] next_bet.0
        (record db { rounds = next_bet.1 }))
      db

late_settlement_example :
    (is_open_round 9 late_db.rounds ≡ false) × (is_open_round 8 late_db.rounds ≡ true)
unfolding place_bet accept_bet start_betting put_bet swap_exposure same_phase seat_of open_betting
    persist_betting_stakes write_state update_round update_seat filter_seats settle_tx is_open_round
    pay_seats pay_seat pay bump apply_balance_delta move credit record_move balance set_balance ◌+ℤ◌
    ◌-ℤ◌ bet_total
late_settlement_example =
    late_settlement lenient ratio next_opening shown (open_row ∷ []) 1 stake 8 true (won_seat ∷ [])
      [] db refl refl (omega arith) refl refl refl

Table-IsTable_example : IsTable (place_bet opening table [] 1 stake).0
Table-IsTable_example =
    Table-IsTable {crypto = toy}
      (bet opening [] 1 stake (sat_down 0 1 (created empty_table refl) take_seat_runs))

abbrev first_bet : TableState × List RoundRow × Result ℕ
first_bet = place_bet opening table [] 1 stake

first_bet_runs : first_bet ≡ (first_bet.0, first_bet.1, ok 0)
unfolding place_bet accept_bet start_betting put_bet swap_exposure same_phase seat_of open_betting
    persist_betting_stakes write_state update_round update_seat filter_seats bet_total has_bet
first_bet_runs = refl

Played-IsRecorded_example : IsRecorded first_bet.0 first_bet.1
Played-IsRecorded_example = Played-IsRecorded {crypto = toy} (
    opens opening [] first_bet.1 1 stake 0 (sat_down 0 1 (created empty_table refl) take_seat_runs)
      refl first_bet_runs)
