-- ===== src/Blackjack/Settlement.antt =====
-- The settlement of a round and the recovery of unfinished ones: apps/api/src/games/blackjack/blackjack.engine.ts,
-- with the guards of apps/api/src/games/settle-claim.ts. The result of the hands is fixed first; the
-- transaction that pays them is a step of its own.
pub mod Payouts
pub mod Gains
pub mod Once
pub mod Late
use Prim.Native.String.{String}
use scadium.Prelude.{
  ℕ, ◌+◌, ◌*◌, ◌/◌, Bool, true, false, not, ◌&&◌, ◌||◌, Option, none, some, List, [], ◌∷◌, map, ltb,
  ◌==◌, if◌then◌else◌, Result, ok, err, ◌>>=◌, ◌>>◌, raise_if, or_raise, Error, claim_lost,
  missing_row, put,
}
use scadium.Prelude.Int.{pos}
use scadium.Ledger.{Accounts, Meta, Currency, apply_balance_delta}
use scadium.Fair.Cards.{
  Card, TwentyOnePlusThree, suited_trips, straight_flush, three_of_a_kind, straight, flush,
  no_poker, PerfectPairs, perfect, colored, mixed, no_pair, hand_value, is_blackjack, is_bust,
}
use scadium.Rounds.{GameType, Bet, Services, bump, pay}
use scadium.Blackjack.{
  Phase, HandStatus, SeatResult, SeatBet, Seat, TableState, RoundRow, bet_total, stake_of, has_bet,
  betting_seats, update_round, stake_entry,
}

-- `SIDE_BETS.twentyOnePlusThree`
abbrev pub poker_multiplier : TwentyOnePlusThree → ℕ
poker_multiplier suited_trips = 100
poker_multiplier straight_flush = 40
poker_multiplier three_of_a_kind = 30
poker_multiplier straight = 10
poker_multiplier flush = 6
poker_multiplier no_poker = 0

-- `SIDE_BETS.perfectPairs`
abbrev pub pairs_multiplier : PerfectPairs → ℕ
pairs_multiplier perfect = 25
pairs_multiplier colored = 12
pairs_multiplier mixed = 6
pairs_multiplier no_pair = 0

-- The main hand against the dealer's.
unfoldable pub main_result : List Card → HandStatus → List Card → ℕ → SeatResult × ℕ
main_result dealer HandStatus.blackjack cards main =
    if is_blackjack dealer then (SeatResult.push, main) else (SeatResult.natural, main * 5 / 2)
main_result dealer HandStatus.busted cards main = (SeatResult.lose, 0)
main_result dealer s cards main =
    let total = (hand_value cards).total in
    let dealer_total = (hand_value dealer).total in
    if is_blackjack dealer
    then (SeatResult.lose, 0)
    else if is_bust dealer || ltb dealer_total total
    then (SeatResult.win, main * 2)
    else if total == dealer_total
    then (SeatResult.push, main)
    else (SeatResult.lose, 0)

-- A side bet that has no outcome, or the outcome 'none', adds nothing.
unfoldable pub side_payout : Seat → SeatBet → ℕ
side_payout s bet =
    let poker : ℕ = elim s.side_21p3_outcome [
      | none ↦ 0
      | some o ↦ bet.side_21p3_lamports * poker_multiplier o
    ] in
    let pairs : ℕ = elim s.side_perfect_pairs_outcome [
      | none ↦ 0
      | some o ↦ bet.side_perfect_pairs_lamports * pairs_multiplier o
    ] in
    poker + pairs

-- The result and the payout of a seat with a bet.
unfoldable pub settle_seat : List Card → Seat → Seat
settle_seat dealer s = elim s.bet [
  | none ↦ s
  | some bet ↦
      let (result, main) = main_result dealer s.status s.cards bet.main_lamports in
      record s { result = some result; payout_lamports = main + side_payout s bet }
]

-- `settle` up to its transaction.
unfoldable pub settle_hands : TableState → TableState
settle_hands t = record t {
  seats = map (settle_seat t.dealer_cards) t.seats;
  phase = Phase.settled;
}

-- The tables that the settlement writes.
pub record BlackjackDb (E : Type 0) : Type 0 where
  pub accounts : Accounts
  pub rounds : List RoundRow
  pub bets : List Bet
  pub rest : E
  pub failures : List ℕ
  pub next_id : ℕ

abbrev pub blackjack_meta : String → String → ℕ → Meta
blackjack_meta reason ref_type ref = record {
  reason = reason;
  ref_type = ref_type;
  ref_id = some ref;
  currency = Currency.jeton;
  max_balance = none;
}

-- The guarded `updateMany` on `endedAt: null`: whether it matches, and what it writes.
unfoldable pub is_open_round : ℕ → List RoundRow → Bool
is_open_round id [] = false
is_open_round id (r ∷ rows) = if r.id == id then not r.ended else is_open_round id rows

abbrev pub end_round : RoundRow → RoundRow
end_round r = record r { ended = true }

-- A push keeps its stake and is recorded as won.
abbrev pub counts_as_won : ℕ → ℕ → Bool
counts_as_won stake payout = ltb stake payout || (payout == stake && ltb 0 stake)

module _ {E : Type 0} (services : Services E) (ratio : ℕ → ℕ → ℕ) where
  -- One seat in the loop of the transaction. `ratio` is the quotient in doubles.
  unfoldable pub pay_seat : ℕ → Seat → BlackjackDb E → Result (BlackjackDb E)
  pay_seat nonce s db = do
    let stake = stake_of s.bet
    let payout = s.payout_lamports
    user ← or_raise (db.accounts.users s.user_id) missing_row
    let bumped : Accounts = record db.accounts {
      users = put s.user_id (bump stake payout user) db.accounts.users;
    }
    accrued ← services.accrue db.rest bumped s.user_id GameType.blackjack stake
    rest ← services.credit_referral accrued.0 s.user_id stake GameType.blackjack
    paid ← pay accrued.1 s.user_id payout (blackjack_meta "blackjack_settle" "Bet" db.next_id)
    ok (record db {
      accounts = paid;
      rest = rest;
      bets =
          record {
            id = db.next_id;
            user_id = s.user_id;
            game_type = GameType.blackjack;
            amount_lamports = stake;
            payout_lamports = payout;
            multiplier = ratio payout stake;
            is_won = counts_as_won stake payout;
            nonce = nonce;
          }
          ∷ db.bets;
      next_id = db.next_id + 1;
    })

  unfoldable pub pay_seats : ℕ → List Seat → BlackjackDb E → Result (BlackjackDb E)
  pay_seats nonce [] db = ok db
  pay_seats nonce (s ∷ players) db = pay_seat nonce s db >>= pay_seats nonce players

  -- The transaction of `settle`: `players` and the snapshot are fixed before it, the round is the table's
  -- when it runs.
  unfoldable pub settle_tx :
      Bool
      → List Seat
      → List (ℕ × Option SeatBet)
      → TableState
      → BlackjackDb E
      → Result (BlackjackDb E)
  settle_tx leader players state t db = do
    raise_if (not leader) claim_lost
    id ← or_raise t.round_db_id missing_row
    raise_if (not (is_open_round id db.rounds)) claim_lost
    pay_seats t.nonce players (record db {
      rounds = update_round id (λ r. record r { ended = true; seats = state }) db.rounds;
    })

  -- A claim that is lost leaves all as it is; another failure is put on record, and the round stays open.
  abbrev pub after_settle :
      TableState → BlackjackDb E → Result (BlackjackDb E) → TableState × BlackjackDb E
  after_settle t db (ok db') = (t, db')
  after_settle t db (err claim_lost) = (t, db)
  after_settle t db (err e) = (
    record t { phase = Phase.dealer_turn },
    record db { failures = elim t.round_db_id [ none ↦ t.id | some id ↦ id ] ∷ db.failures },
  )

  -- `settle` from its transaction on.
  unfoldable pub settle :
      Bool
      → List Seat
      → List (ℕ × Option SeatBet)
      → TableState
      → BlackjackDb E
      → TableState × BlackjackDb E
  settle leader players state t db = after_settle t db (settle_tx leader players state t db)

-- The timer of the result pause.
unfoldable pub end_pause : TableState → TableState
end_pause t = elim t.phase [
  | Phase.settled ↦ record t {
    seats = map (λ (s : Seat). record s { bet = none }) t.seats;
    phase = Phase.idle;
  }
  | _ ↦ t
]

-- `parseSeatStakes`
unfoldable pub parse_seat_stakes : List (ℕ × Option SeatBet) → List (ℕ × ℕ)
parse_seat_stakes [] = []
parse_seat_stakes ((user_id, none) ∷ seats) = parse_seat_stakes seats
parse_seat_stakes ((user_id, some bet) ∷ seats) = (user_id, bet_total bet) ∷ parse_seat_stakes seats

unfoldable pub refund_all : ℕ → List (ℕ × ℕ) → Accounts → Result Accounts
refund_all id [] accounts = ok accounts
refund_all id ((user_id, stake) ∷ refunds) accounts =
    pay accounts user_id stake (blackjack_meta "blackjack_recovery_refund" "BlackjackRound" id)
    >>= refund_all id refunds

-- The transaction of `recoverStrandedRounds` for one round.
unfoldable pub recover_tx : {E : Type 0} → RoundRow → BlackjackDb E → Result (BlackjackDb E)
recover_tx row db = do
  raise_if (not (is_open_round row.id db.rounds)) claim_lost
  refunded ← refund_all row.id (parse_seat_stakes row.seats) db.accounts
  ok (record db { accounts = refunded; rounds = update_round row.id end_round db.rounds })

abbrev pub after_recovery :
    {E : Type 0} → ℕ → BlackjackDb E → Result (BlackjackDb E) → BlackjackDb E
after_recovery id db (ok db') = db'
after_recovery id db (err claim_lost) = db
after_recovery id db (err e) = record db { failures = id ∷ db.failures }

-- The loop over the unfinished rounds that were read.
unfoldable pub recover_rounds : {E : Type 0} → List RoundRow → BlackjackDb E → BlackjackDb E
recover_rounds [] db = db
recover_rounds (row ∷ rows) db = recover_rounds rows (after_recovery row.id db (recover_tx row db))

unfoldable pub unfinished : List RoundRow → List RoundRow
unfinished [] = []
unfinished (r ∷ rows) = let rest = unfinished rows in if r.ended then rest else r ∷ rest

-- `recoverStrandedRounds`
unfoldable pub recover_stranded_rounds : {E : Type 0} → BlackjackDb E → BlackjackDb E
recover_stranded_rounds db = recover_rounds (unfinished db.rounds) db
