-- ===== src/Blackjack/Saves.antt =====
-- What the calls of apps/api/src/games/blackjack/blackjack.engine.ts leave, whether or not the write of the row goes
-- through.
use scadium.Prelude.{
  ℕ, ◌≡◌, ◌⊎◌, inl, inr, ap, Bool, true, false, not, ◌&&◌, ◌||◌, List, arith, Bool-cases, Result,
  Result-cases, ok, err,
}
use scadium.Fair.Hash.{Crypto}
use scadium.Blackjack.{TableState, RoundRow, after_save, has_round}
use scadium.Blackjack.Seats.{leave_seat, give_up_seat, holds_stake}
use scadium.Blackjack.Betting.{clear_bet, clear_stake}
use scadium.Blackjack.Hands.{Action, is_double, act, play_turn, halted}

-- The table is as before, or as the operation changed it.
abbrev pub Changed :
    {A : Type 0} → TableState → Result (A × TableState × List RoundRow) → TableState → Type 0
Changed {A} t r t' = (t ≡ t') ⊎ ((a : A) × (rows : List RoundRow) × (r ≡ ok (a, t', rows)))

pub after_save-Changed :
    {A : Type 0} (saved : Bool) (t : TableState) (rounds : List RoundRow)
    (r : Result (A × TableState × List RoundRow)) {t' : TableState} {rows : List RoundRow}
    {answer : Result A}
    → after_save saved t rounds r ≡ (t', rows, answer)
    → Changed t r t'
unfolding after_save
after_save-Changed saved t rounds (err e) h = inl (ap (λ x. x.0) h)
after_save-Changed true t rounds (ok (a, changed, written)) h =
    inr (a, written, ap (λ x. ok (a, x, written)) (ap (λ x. x.0) h))
after_save-Changed false t rounds (ok (a, changed, written)) h =
    inr (a, written, ap (λ x. ok (a, x, written)) (ap (λ x. x.0) h))

-- An operation that answers with a result is the one whose write went through.
pub after_save-ok :
    {A : Type 0} (saved : Bool) (t : TableState) (rounds : List RoundRow)
    (r : Result (A × TableState × List RoundRow)) {t' : TableState} {rows : List RoundRow} {a : A}
    → after_save saved t rounds r ≡ (t', rows, ok a)
    → r ≡ ok (a, t', rows)
unfolding after_save
after_save-ok saved t rounds (err e) h = ground arith
after_save-ok true t rounds (ok (a, changed, written)) h = ground arith
after_save-ok false t rounds (ok (a, changed, written)) h = ground arith

pub clear_bet-Changed :
    (saved : Bool) (t : TableState) (rounds : List RoundRow) (user_id : ℕ) {t' : TableState}
    {rows : List RoundRow} {answer : Result ℕ}
    → clear_bet saved t rounds user_id ≡ (t', rows, answer)
    → Changed t (clear_stake t rounds user_id) t'
unfolding clear_bet
clear_bet-Changed saved t rounds user_id h =
    after_save-Changed (saved || not (has_round t)) t rounds (clear_stake t rounds user_id) h

pub clear_bet-ok :
    (saved : Bool) (t : TableState) (rounds : List RoundRow) (user_id : ℕ) {t' : TableState}
    {rows : List RoundRow} {refund : ℕ}
    → clear_bet saved t rounds user_id ≡ (t', rows, ok refund)
    → clear_stake t rounds user_id ≡ ok (refund, t', rows)
unfolding clear_bet
clear_bet-ok saved t rounds user_id h =
    after_save-ok (saved || not (has_round t)) t rounds (clear_stake t rounds user_id) h

pub leave_seat-Changed :
    (saved : Bool) (t : TableState) (rounds : List RoundRow) (user_id : ℕ) {t' : TableState}
    {rows : List RoundRow} {answer : Result ℕ}
    → leave_seat saved t rounds user_id ≡ (t', rows, answer)
    → Changed t (give_up_seat t rounds user_id) t'
unfolding leave_seat
leave_seat-Changed saved t rounds user_id h =
    after_save-Changed (saved || not (has_round t && holds_stake t user_id)) t rounds
      (give_up_seat t rounds user_id) h

pub leave_seat-ok :
    (saved : Bool) (t : TableState) (rounds : List RoundRow) (user_id : ℕ) {t' : TableState}
    {rows : List RoundRow} {refund : ℕ}
    → leave_seat saved t rounds user_id ≡ (t', rows, ok refund)
    → give_up_seat t rounds user_id ≡ ok (refund, t', rows)
unfolding leave_seat
leave_seat-ok saved t rounds user_id h =
    after_save-ok (saved || not (has_round t && holds_stake t user_id)) t rounds
      (give_up_seat t rounds user_id) h

-- The table of an action: as before, with the turn played, or halted.
pub act-cases :
    (crypto : Crypto) (saved : Bool) (t : TableState) (rounds : List RoundRow) (user_id : ℕ)
    (a : Action) {t' : TableState} {rows : List RoundRow} {answer : Result (Unit {0})}
    → act crypto saved t rounds user_id a ≡ (t', rows, answer)
    → (t ≡ t')
      ⊎ (((written : List RoundRow) × (play_turn crypto t rounds user_id a ≡ ok (t', written)))
          ⊎ (halted crypto t user_id a ≡ t'))
unfolding act
act-cases crypto saved t rounds user_id a h =
    elim (Result-cases (play_turn crypto t rounds user_id a)) [
      | inr (e, refused) ↦ inl (ground arith)
      | inl ((moved, written), played) ↦
          elim (Bool-cases (saved || not (has_round t && is_double a))) [
            | inl through ↦ inr (inl (written, ground arith))
            | inr failed ↦ inr (inr (ground arith))
          ]
    ]

pub act-ok :
    (crypto : Crypto) (saved : Bool) (t : TableState) (rounds : List RoundRow) (user_id : ℕ)
    (a : Action) {t' : TableState} {rows : List RoundRow}
    → act crypto saved t rounds user_id a ≡ (t', rows, ok tt)
    → play_turn crypto t rounds user_id a ≡ ok (t', rows)
unfolding act
act-ok crypto saved t rounds user_id a h =
    elim (Result-cases (play_turn crypto t rounds user_id a)) [
      | inr (e, refused) ↦ absurd (ground arith)
      | inl ((moved, written), played) ↦
          elim (Bool-cases (saved || not (has_round t && is_double a))) [
            | inl through ↦ ground arith
            | inr failed ↦ absurd (ground arith)
          ]
    ]
