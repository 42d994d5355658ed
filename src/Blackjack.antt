-- ===== src/Blackjack.antt =====
-- The multiplayer blackjack tables: apps/api/src/games/blackjack/blackjack.engine.ts, and the facade that
-- moves the stakes, blackjack.service.ts. A timer that fires is a step of its own; what only the
-- clients see (names, deadlines, broadcasts) is left out.
pub mod Seats
pub mod Exposure
pub mod Betting
pub mod Hands
pub mod Settlement
pub mod Facade
pub mod Tables
pub mod Recovery
pub mod Saves
mod Tests
use scadium.Prelude.{
  ℕ, ◌+◌, Bool, true, false, not, Option, none, some, List, [], ◌∷◌, ◌++◌, map, ◌==◌, leb,
  if◌then◌else◌, Result, ok, err, unavailable,
}
use scadium.Fair.Hash.{Text}
use scadium.Fair.Cards.{Card, TwentyOnePlusThree, PerfectPairs}

pub data Phase : Type 0 where
  idle betting dealing player_turns dealer_turn settled : Phase

pub data HandStatus : Type 0 where
  playing standing busted blackjack : HandStatus

pub data SeatResult : Type 0 where
  win lose push natural : SeatResult

pub record SeatBet : Type 0 where
  pub main_lamports : ℕ
  pub side_21p3_lamports : ℕ
  pub side_perfect_pairs_lamports : ℕ

pub record Seat : Type 0 where
  pub index : ℕ
  pub user_id : ℕ
  pub idle_rounds : ℕ
  pub bet : Option SeatBet
  pub cards : List Card
  pub status : HandStatus
  pub doubled : Bool
  pub side_21p3_outcome : Option TwentyOnePlusThree
  pub side_perfect_pairs_outcome : Option PerfectPairs
  pub result : Option SeatResult
  pub payout_lamports : ℕ

-- `DealLogEntry`: the position in the deck, and the seat it went to; none is the dealer.
pub record DealLogEntry : Type 0 where
  pub deck_index : ℕ
  pub dealt_to : Option ℕ
  pub card : Card

-- The state of an `ExposureGuard`.
pub record ExposureGuard : Type 0 where
  pub house_balance_lamports : ℕ
  pub reserved : ℕ

-- The seats are in the order in which they were taken.
pub record TableState : Type 0 where
  pub id : ℕ
  pub is_private : Bool
  pub owner_id : Option ℕ
  pub max_seats : ℕ
  pub phase : Phase
  pub active_seat : Option ℕ
  pub seats : List Seat
  pub dealer_cards : List Card
  pub dealer_hidden : Bool
  pub deck_index : ℕ
  pub deal_log : List DealLogEntry
  pub round_db_id : Option ℕ
  pub client_seed : Text
  pub deal_seed : Text
  pub nonce : ℕ
  pub exposure : Option ExposureGuard

-- The row `BlackjackRound`: whether `endedAt` is set, and of `stateJson` the seats with their bets.
pub record RoundRow : Type 0 where
  pub id : ℕ
  pub ended : Bool
  pub seats : List (ℕ × Option SeatBet)

unfoldable pub same_phase : Phase → Phase → Bool
same_phase idle idle = true
same_phase betting betting = true
same_phase dealing dealing = true
same_phase player_turns player_turns = true
same_phase dealer_turn dealer_turn = true
same_phase settled settled = true
same_phase a b = false

unfoldable pub is_playing : HandStatus → Bool
is_playing playing = true
is_playing s = false

-- `betTotal`
unfoldable pub bet_total : SeatBet → ℕ
bet_total b = b.main_lamports + b.side_21p3_lamports + b.side_perfect_pairs_lamports

unfoldable pub has_bet : Seat → Bool
has_bet s = elim s.bet [ none ↦ false | some b ↦ true ]

-- What a seat has at stake.
abbrev pub stake_of : Option SeatBet → ℕ
stake_of none = 0
stake_of (some b) = bet_total b

-- `seats.get(index)`, and the seat of a user.
unfoldable pub seat_at : ℕ → List Seat → Option Seat
seat_at index [] = none
seat_at index (s ∷ seats) = if s.index == index then some s else seat_at index seats

unfoldable pub seat_of : ℕ → List Seat → Option Seat
seat_of user_id [] = none
seat_of user_id (s ∷ seats) = if s.user_id == user_id then some s else seat_of user_id seats

-- A change of the seat at an index, which the map holds by reference.
unfoldable pub update_seat : ℕ → (Seat → Seat) → List Seat → List Seat
update_seat index change [] = []
update_seat index change (s ∷ seats) =
    if s.index == index then change s ∷ seats else s ∷ update_seat index change seats

-- `seats.delete(index)`
unfoldable pub delete_seat : ℕ → List Seat → List Seat
delete_seat index [] = []
delete_seat index (s ∷ seats) = if s.index == index then seats else s ∷ delete_seat index seats

unfoldable pub filter_seats : (Seat → Bool) → List Seat → List Seat
filter_seats test [] = []
filter_seats test (s ∷ seats) =
    let rest = filter_seats test seats in if test s then s ∷ rest else rest

unfoldable pub insert_seat : Seat → List Seat → List Seat
insert_seat s [] = s ∷ []
insert_seat s (x ∷ xs) = if leb s.index x.index then s ∷ x ∷ xs else x ∷ insert_seat s xs

unfoldable pub sort_seats : List Seat → List Seat
sort_seats [] = []
sort_seats (s ∷ seats) = insert_seat s (sort_seats seats)

-- `bettingSeats`
unfoldable pub betting_seats : List Seat → List Seat
betting_seats seats = sort_seats (filter_seats has_bet seats)

-- `update` of a round's row.
unfoldable pub update_round : ℕ → (RoundRow → RoundRow) → List RoundRow → List RoundRow
update_round id change [] = []
update_round id change (r ∷ rows) =
    if r.id == id then change r ∷ rows else r ∷ update_round id change rows

unfoldable pub write_state : TableState → List (ℕ × Option SeatBet) → List RoundRow → List RoundRow
write_state t seats rows = elim t.round_db_id [
  | none ↦ rows
  | some id ↦ update_round id (λ r. record r { seats = seats }) rows
]

abbrev pub stake_entry : Seat → ℕ × Option SeatBet
stake_entry s = (s.user_id, s.bet)

-- `persistBettingStakes`, which keeps the seats with a bet only.
unfoldable pub persist_betting_stakes : TableState → List RoundRow → List RoundRow
persist_betting_stakes t rows = write_state t (map stake_entry (filter_seats has_bet t.seats)) rows

-- The write of `snapshot` to the round's row.
unfoldable pub persist_snapshot : TableState → List RoundRow → List RoundRow
persist_snapshot t rows = write_state t (map stake_entry t.seats) rows

-- The state of an operation that may be refused or fail: the table, the rounds and the answer.
abbrev pub Answer : Type 0 → Type 0
Answer A = TableState × List RoundRow × Result A

unfoldable pub has_round : TableState → Bool
has_round t = elim t.round_db_id [ none ↦ false | some id ↦ true ]

-- An operation that changes the table and then writes the row of the round: when the write fails the table keeps
-- its change and the answer is an error.
unfoldable pub after_save :
    {A : Type 0}
    → Bool
    → TableState
    → List RoundRow
    → Result (A × TableState × List RoundRow)
    → Answer A
after_save saved t rounds (err e) = (t, rounds, err e)
after_save saved t rounds (ok (answer, changed, rows)) =
    if saved then (changed, rows, ok answer) else (changed, rounds, err unavailable)
