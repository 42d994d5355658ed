-- ===== src/Blackjack/Hands/Log/Runs.antt =====
-- A hand of apps/api/src/games/blackjack/blackjack.engine.ts, from the deal to the settlement.
use scadium.Prelude.{
  ℕ, ◌≡◌, ◌≢◌, inl, inr, sym, subst, none, List, [], ◌∷◌, ◌++◌, All, All-append, ◌==◌, arith,
  Bool-cases, Option-cases, Bool, Result, ok,
}
use scadium.Fair.Hash.{Crypto}
use scadium.Blackjack.{Seat, TableState, RoundRow, has_bet, seat_at, seat_of, delete_seat}
use scadium.Blackjack.Seats.{take_seat, leave_seat, give_up_seat, new_seat}
use scadium.Blackjack.Hands.{dealer_turn, Action, deal, act, time_out}
use scadium.Blackjack.Saves.{leave_seat-Changed, act-cases}
use scadium.Blackjack.Hands.Log.{Distinct, IsLogged}
use scadium.Blackjack.Hands.Log.Deals.{IsHand}
use scadium.Blackjack.Hands.Log.Turns.{
  IsUndealt, deal-IsLogged, play_turn-IsLogged, halted-IsLogged, time_out-IsLogged,
  dealer_turn-IsLogged,
}

free_index :
    (index : ℕ) (seats : List Seat)
    → seat_at index seats ≡ none
    → All (λ (x : Seat). x.index ≢ index) seats
unfolding seat_at
free_index index [] h = tt
free_index index (s ∷ seats) h = elim (Bool-cases (s.index == index)) [
  | inl e ↦ absurd (ground arith)
  | inr e ↦ (ground arith, free_index index seats (ground arith))
]

Distinct-append_one :
    (new : Seat) (seats : List Seat)
    → All (λ (x : Seat). x.index ≢ new.index) seats
    → Distinct seats
    → Distinct (seats ++ new ∷ [])
Distinct-append_one new [] ne d = (tt, tt)
Distinct-append_one new (s ∷ seats) ne d = (
  All-append (λ (x : Seat). x.index ≢ s.index) seats (new ∷ []) d.0 ((λ e. ne.0 (sym e)), tt),
  Distinct-append_one new seats ne.1 d.1,
)

take_seat-IsLogged :
    (crypto : Crypto) (t : TableState) (index user_id : ℕ) {t' : TableState}
    → IsLogged crypto t
    → take_seat t index user_id ≡ ok t'
    → IsLogged crypto t'
unfolding take_seat has_bet
take_seat-IsLogged crypto t index user_id {t'} h e = elim (Option-cases (seat_at index t.seats)) [
  | inr (s, taken) ↦ absurd (ground arith)
  | inl free ↦
      let new = new_seat index user_id in
      let same : record t { seats = t.seats ++ new ∷ [] } ≡ t' = ground arith in
      subst (IsLogged crypto) same (record {
        next = h.next;
        stream = h.stream;
        dealer = h.dealer;
        hands = All-append (IsHand crypto t) t.seats (new ∷ []) h.hands ((λ bet. cc), tt);
        distinct = Distinct-append_one new t.seats (free_index index t.seats free) h.distinct;
      })
]

delete-All :
    (P : Seat → Type 0) (index : ℕ) (seats : List Seat)
    → All P seats
    → All P (delete_seat index seats)
unfolding delete_seat
delete-All P index [] h = tt
delete-All P index (s ∷ seats) h = elim (Bool-cases (s.index == index)) [
  | inl e ↦ rw e h.1
  | inr e ↦ rw e (h.0, delete-All P index seats h.1)
]

delete-Distinct :
    (index : ℕ) (seats : List Seat) → Distinct seats → Distinct (delete_seat index seats)
unfolding delete_seat
delete-Distinct index [] d = tt
delete-Distinct index (s ∷ seats) d = elim (Bool-cases (s.index == index)) [
  | inl e ↦ rw e d.1
  | inr e ↦ rw e (
    delete-All (λ (x : Seat). x.index ≢ s.index) index seats d.0,
    delete-Distinct index seats d.1,
  )
]

give_up_seat-IsLogged :
    (crypto : Crypto) (t : TableState) (rounds rows : List RoundRow) (user_id refund : ℕ)
    {t' : TableState}
    → IsLogged crypto t
    → give_up_seat t rounds user_id ≡ ok (refund, t', rows)
    → IsLogged crypto t'
unfolding give_up_seat
give_up_seat-IsLogged crypto t rounds rows user_id refund {t'} h e =
    elim (Option-cases (seat_of user_id t.seats)) [
      | inl no_seat ↦ absurd (ground arith)
      | inr (s, found) ↦
          let same : record t { seats = delete_seat s.index t.seats } ≡ t' = ground arith in
          subst (IsLogged crypto) same (record {
            next = h.next;
            stream = h.stream;
            dealer = h.dealer;
            hands = delete-All (IsHand crypto t) s.index t.seats h.hands;
            distinct = delete-Distinct s.index t.seats h.distinct;
          })
    ]

-- A hand from the deal on, with what the other seats do meanwhile.
pub data Hand (crypto : Crypto) : TableState → Type 0 where
  dealt :
      (t : TableState) (rounds : List RoundRow) → IsUndealt t → Hand crypto (deal crypto t rounds).0
  acted :
      {t t' : TableState} (saved : Bool) (rounds rows : List RoundRow) (user_id : ℕ) (a : Action)
      (answer : Result (Unit {0}))
      → Hand crypto t
      → act crypto saved t rounds user_id a ≡ (t', rows, answer)
      → Hand crypto t'
  timed_out : {t : TableState} (index : ℕ) → Hand crypto t → Hand crypto (time_out index t)
  sat_down :
      {t t' : TableState} (index user_id : ℕ)
      → Hand crypto t
      → take_seat t index user_id ≡ ok t'
      → Hand crypto t'
  left :
      {t t' : TableState} (saved : Bool) (rounds rows : List RoundRow) (user_id : ℕ)
      (answer : Result ℕ)
      → Hand crypto t
      → leave_seat saved t rounds user_id ≡ (t', rows, answer)
      → Hand crypto t'
  dealer_played : {t : TableState} → Hand crypto t → Hand crypto (dealer_turn crypto t)

-- At every point of a hand that is dealt from a table without cards, whatever the players do and in whatever
-- order: the deal log is the stream of the
-- committed seed from its first card on, and the cards of every seat with a bet, and the dealer's,
-- are what `reproduceHand` makes of the positions that the log gives them.
pub Hand-IsLogged : {crypto : Crypto} {t : TableState} → Hand crypto t → IsLogged crypto t
Hand-IsLogged {crypto} (dealt t rounds u) = deal-IsLogged crypto t rounds u
Hand-IsLogged {crypto} (acted {t} saved rounds rows user_id a answer hand e) =
    elim (act-cases crypto saved t rounds user_id a e) [
      | inl same ↦ subst (IsLogged crypto) same (Hand-IsLogged hand)
      | inr (inl (written, played)) ↦
          play_turn-IsLogged crypto t rounds written user_id a (Hand-IsLogged hand) played
      | inr (inr same) ↦
          subst (IsLogged crypto) same (halted-IsLogged crypto t user_id a (Hand-IsLogged hand))
    ]
Hand-IsLogged {crypto} (timed_out {t} index hand) =
    time_out-IsLogged crypto index t (Hand-IsLogged hand)
Hand-IsLogged {crypto} (sat_down {t} index user_id hand e) =
    take_seat-IsLogged crypto t index user_id (Hand-IsLogged hand) e
Hand-IsLogged {crypto} (left {t} saved rounds rows user_id answer hand e) =
    elim (leave_seat-Changed saved t rounds user_id e) [
      | inl same ↦ subst (IsLogged crypto) same (Hand-IsLogged hand)
      | inr (refund, written, gone) ↦
          give_up_seat-IsLogged crypto t rounds written user_id refund (Hand-IsLogged hand) gone
    ]
Hand-IsLogged {crypto} (dealer_played {t} hand) = dealer_turn-IsLogged crypto t (Hand-IsLogged hand)
