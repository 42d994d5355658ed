-- ===== src/Blackjack/Seats.antt =====
-- `takeSeat` and `leaveSeat` of apps/api/src/games/blackjack/blackjack.engine.ts.
use scadium.Prelude.{
  ℕ, Bool, true, false, not, ◌&&◌, ◌||◌, Option, none, some, List, [], ◌∷◌, ◌++◌, ◌==◌, leb,
  if◌then◌else◌, Result, ok, err, ◌>>=◌, ◌>>◌, raise_if, or_raise, bad_request, Check,
}
use scadium.Blackjack.{
  Phase, HandStatus, Seat, TableState, RoundRow, same_phase, bet_total, seat_at, seat_of,
  delete_seat, persist_betting_stakes, has_bet, has_round, after_save, Answer,
}

abbrev pub is_some_seat : Option Seat → Bool
is_some_seat none = false
is_some_seat (some s) = true

abbrev pub same_owner : Option ℕ → ℕ → Bool
same_owner none user_id = false
same_owner (some owner) user_id = owner == user_id

abbrev pub new_seat : ℕ → ℕ → Seat
new_seat index user_id = record {
  index = index;
  user_id = user_id;
  idle_rounds = 0;
  bet = none;
  cards = [];
  status = HandStatus.playing;
  doubled = false;
  side_21p3_outcome = none;
  side_perfect_pairs_outcome = none;
  result = none;
  payout_lamports = 0;
}

-- `takeSeat`
unfoldable pub take_seat : TableState → ℕ → ℕ → Result TableState
take_seat t seat_index user_id = do
  raise_if (leb t.max_seats seat_index) (bad_request Check.invalid_seat)
  raise_if (t.is_private && not (same_owner t.owner_id user_id)) (bad_request Check.private_table)
  raise_if (is_some_seat (seat_at seat_index t.seats)) (bad_request Check.seat_taken)
  raise_if (is_some_seat (seat_of user_id t.seats)) (bad_request Check.already_seated)
  ok (record t { seats = t.seats ++ new_seat seat_index user_id ∷ [] })

-- `leaveSeat` with its update of the row: the refund of a bet that the window still holds, the table and the
-- rounds.
unfoldable pub give_up_seat :
    TableState → List RoundRow → ℕ → Result (ℕ × TableState × List RoundRow)
give_up_seat t rounds user_id = do
  seat ← or_raise (seat_of user_id t.seats) (bad_request Check.not_seated)
  let left : TableState = record t { seats = delete_seat seat.index t.seats }
  elim seat.bet [
    | none ↦ ok (0, left, rounds)
    | some bet ↦
        if same_phase t.phase Phase.betting
        then ok (bet_total bet, left, persist_betting_stakes left rounds)
        else if same_phase t.phase Phase.idle || same_phase t.phase Phase.settled
        then ok (0, left, rounds)
        else err (bad_request Check.hand_in_progress)
  ]

-- The seat's stake stands in the window, so that `leaveSeat` writes the row.
unfoldable pub holds_stake : TableState → ℕ → Bool
holds_stake t user_id = elim (seat_of user_id t.seats) [
  | none ↦ false
  | some seat ↦ has_bet seat && same_phase t.phase Phase.betting
]

-- `leaveSeat`
unfoldable pub leave_seat : Bool → TableState → List RoundRow → ℕ → Answer ℕ
leave_seat saved t rounds user_id =
    after_save (saved || not (has_round t && holds_stake t user_id)) t rounds
      (give_up_seat t rounds user_id)
