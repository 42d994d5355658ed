-- ===== src/Blackjack/Recovery.antt =====
-- What the row of a round holds of the stakes, for `recoverStrandedRounds` of
-- apps/api/src/games/blackjack/blackjack.engine.ts to give back.
pub mod Steps
pub mod Runs
use scadium.Prelude.{
  ℕ, zero, suc, ◌+◌, ◌≡◌, ◌≢◌, inl, inr, refl, sym, subst, ap, ◌∙◌, Bool, true, false, not, ◌&&◌,
  ◌||◌, Option, none, some, List, [], ◌∷◌, ◌++◌, map, ◌==◌, leb, ltb, length, if◌then◌else◌, arith,
  Bool-cases, Option-cases, Result, ok, err, raise_if, bad_request, Check, >>=-eq-ok,
}
use scadium.Ledger.Worth.{to_user}
use scadium.Fair.Hash.{Crypto}
use scadium.Fair.Cards.{Card, hand_value}
use scadium.Blackjack.{
  Phase, HandStatus, Seat, SeatBet, TableState, RoundRow, bet_total, stake_of, has_bet, seat_at,
  seat_of, update_seat, delete_seat, filter_seats, betting_seats, same_phase, update_round,
  write_state, stake_entry, persist_betting_stakes, persist_snapshot,
}
use scadium.Blackjack.Settlement.{parse_seat_stakes}
use scadium.Blackjack.Settlement.Gains.{refunds}
use scadium.Blackjack.Facade.Stakes.{share, stakes}

-- The seats that the row of a round holds.
unfoldable pub round_seats : ℕ → List RoundRow → Option (List (ℕ × Option SeatBet))
round_seats id [] = none
round_seats id (r ∷ rows) = if r.id == id then some r.seats else round_seats id rows

-- The row of the table's round gives back what every user has at stake on the table.
pub record IsRecorded (t : TableState) (rows : List RoundRow) : Type 0 where
  pub id : ℕ
  pub saved : List (ℕ × Option SeatBet)
  pub known : t.round_db_id ≡ some id
  pub stored : round_seats id rows ≡ some saved
  pub refunded : (j : ℕ) → refunds (parse_seat_stakes saved) j ≡ stakes j t.seats

write-round_seats :
    (id : ℕ) (old seats : List (ℕ × Option SeatBet)) (rows : List RoundRow)
    → round_seats id rows ≡ some old
    → round_seats id (update_round id (λ r. record r { seats = seats }) rows) ≡ some seats
unfolding round_seats update_round
write-round_seats id old seats [] h = cc
write-round_seats id old seats (r ∷ rows) h = elim (Bool-cases (r.id == id)) [
  | inl e ↦ rw (e, e) refl
  | inr e ↦ rw (e, e) (write-round_seats id old seats rows (ground arith))
]

entries-refunds :
    (j : ℕ) (seats : List Seat)
    → refunds (parse_seat_stakes (map stake_entry seats)) j ≡ stakes j seats
unfolding parse_seat_stakes stakes
entries-refunds j [] = refl
entries-refunds j (s ∷ seats) = elim (Option-cases s.bet) [
  | inl e ↦ rw e (grind (arith, entries-refunds j seats))
  | inr (b, e) ↦ rw e (grind (arith, entries-refunds j seats))
]

pub filter-stakes :
    (j : ℕ) (seats : List Seat) → stakes j (filter_seats has_bet seats) ≡ stakes j seats
unfolding filter_seats has_bet stakes
filter-stakes j [] = refl
filter-stakes j (s ∷ seats) = elim (Option-cases s.bet) [
  | inl e ↦ rw e (grind (arith, filter-stakes j seats))
  | inr (b, e) ↦ rw e (grind (arith, filter-stakes j seats))
]

pub persist_betting-IsRecorded :
    (t : TableState) (rows : List RoundRow) (id : ℕ) (old : List (ℕ × Option SeatBet))
    → t.round_db_id ≡ some id
    → round_seats id rows ≡ some old
    → IsRecorded t (persist_betting_stakes t rows)
unfolding persist_betting_stakes write_state
persist_betting-IsRecorded t rows id old known found = record {
  id = id;
  saved = map stake_entry (filter_seats has_bet t.seats);
  known = known;
  stored =
      rw known
        (write-round_seats id old (map stake_entry (filter_seats has_bet t.seats)) rows found);
  refunded = λ j. entries-refunds j (filter_seats has_bet t.seats) ∙ filter-stakes j t.seats;
}

pub persist_snapshot-IsRecorded :
    (t : TableState) (rows : List RoundRow) (id : ℕ) (old : List (ℕ × Option SeatBet))
    → t.round_db_id ≡ some id
    → round_seats id rows ≡ some old
    → IsRecorded t (persist_snapshot t rows)
unfolding persist_snapshot write_state
persist_snapshot-IsRecorded t rows id old known found = record {
  id = id;
  saved = map stake_entry t.seats;
  known = known;
  stored = rw known (write-round_seats id old (map stake_entry t.seats) rows found);
  refunded = λ j. entries-refunds j t.seats;
}

-- A change of the table that moves no stake.
pub IsRecorded-kept :
    (t t' : TableState) (rows : List RoundRow)
    → t'.round_db_id ≡ t.round_db_id
    → ((j : ℕ) → stakes j t'.seats ≡ stakes j t.seats)
    → IsRecorded t rows
    → IsRecorded t' rows
IsRecorded-kept t t' rows same equal h = record {
  id = h.id;
  saved = h.saved;
  known = same ∙ h.known;
  stored = h.stored;
  refunded = λ j. h.refunded j ∙ sym (equal j);
}

-- A change of seats that moves no stake.
pub update-stakes_same :
    (j index : ℕ) (change : Seat → Seat) (seats : List Seat)
    → ((s : Seat) → share j (change s) ≡ share j s)
    → stakes j (update_seat index change seats) ≡ stakes j seats
unfolding update_seat stakes
update-stakes_same j index change [] keep = refl
update-stakes_same j index change (s ∷ seats) keep = elim (Bool-cases (s.index == index)) [
  | inl e ↦ rw e (omega (arith, keep s))
  | inr e ↦ rw e (omega (arith, update-stakes_same j index change seats keep))
]
