-- ===== src/Blackjack/Facade.antt =====
-- apps/api/src/games/blackjack/blackjack.service.ts: the facade that debits a stake before the table takes it,
-- and gives it back when the table does not. Each debit and each credit is a transaction of its own, and
-- between two of its awaits a request stands as a `Task`, while others run.
pub mod Stakes
pub mod Bets
pub mod Moves
pub mod Turns
pub mod Conserved
pub mod Steps
pub mod Timers
pub mod Runs
pub mod Failed
use Prim.Native.String.{String}
use scadium.Prelude.{
  ℕ, ◌+◌, Bool, true, false, ◌||◌, Option, none, some, List, ltb, if◌then◌else◌, Result, ok, err,
  ◌>>=◌, ◌>>◌, raise_if, or_raise, bad_request, forbidden, not_found, Error, Check,
}
use scadium.Prelude.Int.{pos, ◌-ℤ◌}
use scadium.Ledger.{Accounts, Meta, Currency, apply_balance_delta}
use scadium.Fair.Hash.{Crypto}
use scadium.Blackjack.{SeatBet, TableState, RoundRow, bet_total, seat_of}
use scadium.Blackjack.Seats.{leave_seat}
use scadium.Blackjack.Betting.{Opening, place_bet, clear_bet}
use scadium.Blackjack.Hands.{Action, is_double, act}

-- `BLACKJACK.MIN_BET_LAMPORTS`, `MAX_BET_LAMPORTS`
abbrev pub min_bet_lamports : ℕ
min_bet_lamports = 1000000

abbrev pub max_bet_lamports : ℕ
max_bet_lamports = 100000000000

-- What other services ask of a wager: the economy's `assertDepositedOnly`, and `assertCanWager`.
pub record Gates : Type 0 where
  pub deposited_only : Accounts → ℕ → Result (Unit {0})
  pub can_wager : Accounts → ℕ → ℕ → Result (Unit {0})

-- One table, with the accounts and the rounds that its requests write.
pub record Floor : Type 0 where
  pub accounts : Accounts
  pub table : TableState
  pub rounds : List RoundRow

-- A request of a player.
pub data Request : Type 0 where
  to_bet : SeatBet → Request
  to_clear to_leave : Request
  to_act : Action → Request

-- Where a request of a user stands between two of its awaits: what it does next, or its answer. A double holds
-- the extra stake that it read off the table, `to_replace` the stake and the one that it replaces.
pub data Task : Type 0 where
  to_stake to_seat : ℕ → SeatBet → Task
  to_raise to_double : ℕ → ℕ → Task
  to_replace : ℕ → ℕ → ℕ → Task
  to_credit : ℕ → ℕ → Result (Unit {0}) → Task
  answered : Result (Unit {0}) → Task

abbrev pub Reply : Type 0
Reply = Floor × Task

abbrev pub table_meta : String → ℕ → Meta
table_meta reason table_id = record {
  reason = reason;
  ref_type = "BlackjackTable";
  ref_id = some table_id;
  currency = Currency.jeton;
  max_balance = none;
}

-- `credit`, with the answer that follows it; an error of the credit is the answer instead.
unfoldable pub credit_then : Floor → ℕ → ℕ → Result (Unit {0}) → Reply
credit_then f user_id amount answer =
    elim (apply_balance_delta f.accounts user_id (pos amount) (table_meta "refund" f.table.id)) [
      | ok paid ↦ (record f { accounts = paid.1 }, answered answer)
      | err e ↦ (f, answered (err e))
    ]

-- `debit`, and what comes next.
unfoldable pub debit_then : Floor → ℕ → ℕ → Task → Reply
debit_then f user_id amount next =
    elim (apply_balance_delta f.accounts user_id (pos 0 -ℤ pos amount)
      (table_meta "blackjack_bet" f.table.id)) [
        | ok paid ↦ (record f { accounts = paid.1 }, next)
        | err e ↦ (f, answered (err e))
      ]

-- `loadUser`
unfoldable pub load_user : Accounts → ℕ → Result (Unit {0})
load_user accounts user_id = do
  user ← or_raise (accounts.users user_id) not_found
  raise_if user.banned forbidden

-- The refund of a replaced bet stands in the `try` block, so its error is caught like one of the table.
unfoldable pub refund_previous : Floor → ℕ → ℕ → ℕ → Reply
refund_previous f user_id total previous =
    elim (apply_balance_delta f.accounts user_id (pos previous) (table_meta "refund" f.table.id)) [
      | ok paid ↦ (record f { accounts = paid.1 }, answered (ok tt))
      | err e ↦ (f, to_credit user_id total (err e))
    ]

-- What follows the table's answer to a bet: a refusal gives the stake back.
unfoldable pub after_placing : ℕ → ℕ → Result ℕ → Task
after_placing user_id total (ok previous) =
    if ltb 0 previous then to_replace user_id total previous else answered (ok tt)
after_placing user_id total (err e) = to_credit user_id total (err e)

-- The table's part of `placeBet`, after the debit.
unfoldable pub seat_bet : Opening → Floor → ℕ → SeatBet → Reply
seat_bet env f user_id bet =
    let (table, rounds, answer) = place_bet env f.table f.rounds user_id bet in
    (record f { table = table; rounds = rounds }, after_placing user_id (bet_total bet) answer)

-- The checks of `placeBet`.
unfoldable pub place_checks : Gates → Accounts → ℕ → SeatBet → Result (Unit {0})
place_checks gates accounts user_id bet = do
  raise_if (ltb bet.main_lamports min_bet_lamports || ltb max_bet_lamports bet.main_lamports)
      (bad_request Check.amount_range)
  raise_if
      (ltb max_bet_lamports bet.side_21p3_lamports
        || ltb max_bet_lamports bet.side_perfect_pairs_lamports)
      (bad_request Check.side_bet_range)
  load_user accounts user_id
  gates.deposited_only accounts user_id
  gates.can_wager accounts user_id (bet_total bet)

-- `placeBet` up to its debit.
unfoldable pub request_bet : Gates → Floor → ℕ → SeatBet → Reply
request_bet gates f user_id bet = elim (place_checks gates f.accounts user_id bet) [
  | ok u ↦ (f, to_stake user_id bet)
  | err e ↦ (f, answered (err e))
]

-- What follows the table's answer to `clearBet`.
unfoldable pub after_clear : ℕ → Result ℕ → Task
after_clear user_id (ok refund) = to_credit user_id refund (ok tt)
after_clear user_id (err e) = answered (err e)

-- `clearBet` up to its credit.
unfoldable pub request_clear : Bool → Floor → ℕ → Reply
request_clear saved f user_id =
    let (table, rounds, answer) = clear_bet saved f.table f.rounds user_id in
    (record f { table = table; rounds = rounds }, after_clear user_id answer)

-- What follows the table's answer to `leaveSeat`.
unfoldable pub after_leave : ℕ → Result ℕ → Task
after_leave user_id (ok refund) =
    if ltb 0 refund then to_credit user_id refund (ok tt) else answered (ok tt)
after_leave user_id (err e) = answered (err e)

-- `leaveSeat` up to its credit.
unfoldable pub request_leave : Bool → Floor → ℕ → Reply
request_leave saved f user_id =
    let (table, rounds, answer) = leave_seat saved f.table f.rounds user_id in
    (record f { table = table; rounds = rounds }, after_leave user_id answer)

-- What follows the table's answer to an action with a stake of `extra`: it goes back if the table refuses.
unfoldable pub after_act : ℕ → ℕ → Result (Unit {0}) → Task
after_act user_id extra (ok u) = answered (ok tt)
after_act user_id extra (err e) =
    if ltb 0 extra then to_credit user_id extra (err e) else answered (err e)

-- The table's part of `action`.
unfoldable pub table_act : Crypto → Bool → Floor → ℕ → Action → ℕ → Reply
table_act crypto saved f user_id a extra =
    let (table, rounds, answer) = act crypto saved f.table f.rounds user_id a in
    (record f { table = table; rounds = rounds }, after_act user_id extra answer)

-- A double is a fresh wager of the main stake, which is read off the table.
unfoldable pub request_double : Gates → Floor → ℕ → Reply
request_double gates f user_id = elim (seat_of user_id f.table.seats) [
  | none ↦ (f, answered (err (bad_request Check.no_bet)))
  | some seat ↦ elim seat.bet [
    | none ↦ (f, answered (err (bad_request Check.no_bet)))
    | some bet ↦
        elim (load_user f.accounts user_id
          >> gates.can_wager f.accounts user_id bet.main_lamports) [
            | ok u ↦ (f, to_raise user_id bet.main_lamports)
            | err e ↦ (f, answered (err e))
          ]
  ]
]

-- `action` up to its debit, or to its answer.
unfoldable pub request_action : Gates → Crypto → Bool → Floor → ℕ → Action → Reply
request_action gates crypto saved f user_id a =
    if is_double a then request_double gates f user_id else table_act crypto saved f user_id a 0

-- A request as it arrives, up to its first movement of funds; `saved` is whether the row can be written.
unfoldable pub serve : Gates → Crypto → Bool → Floor → ℕ → Request → Reply
serve gates crypto saved f user_id (to_bet bet) = request_bet gates f user_id bet
serve gates crypto saved f user_id to_clear = request_clear saved f user_id
serve gates crypto saved f user_id to_leave = request_leave saved f user_id
serve gates crypto saved f user_id (to_act a) = request_action gates crypto saved f user_id a

-- The next step of a request.
unfoldable pub resume : Crypto → Opening → Floor → Task → Reply
resume crypto env f (to_stake user_id bet) =
    debit_then f user_id (bet_total bet) (to_seat user_id bet)
resume crypto env f (to_seat user_id bet) = seat_bet env f user_id bet
resume crypto env f (to_raise user_id extra) = debit_then f user_id extra (to_double user_id extra)
resume crypto env f (to_double user_id extra) =
    table_act crypto env.saved f user_id Action.double extra
resume crypto env f (to_replace user_id total previous) = refund_previous f user_id total previous
resume crypto env f (to_credit user_id amount answer) = credit_then f user_id amount answer
resume crypto env f (answered answer) = (f, answered answer)
