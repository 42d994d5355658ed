-- ===== src/Blackjack/Tables/Changes.antt =====
-- What the changes of single seats in apps/api/src/games/blackjack/blackjack.engine.ts keep.
use scadium.Prelude.{
  ℕ, ◌≡◌, ◌≢◌, inl, inr, refl, subst, Bool, true, false, List, [], ◌∷◌, map, All, ◌==◌,
  if◌then◌else◌, arith, Bool-cases, Option-cases,
}
use scadium.Fair.Cards.{Card}
use scadium.Blackjack.{
  Seat, has_bet, update_seat, filter_seats, insert_seat, sort_seats, betting_seats,
}
use scadium.Blackjack.Betting.{clear_bet_of}
use scadium.Blackjack.Hands.{sit_out, resolve_side_bets}
use scadium.Blackjack.Tables.{NoBet, KeepsPlace}
use scadium.Blackjack.Settlement.{settle_seat}

-- A change that keeps the place of a seat and whether it has a bet.
pub record KeepsSeat (change : Seat → Seat) : Type 0 where
  pub place : KeepsPlace change
  pub no_bet : (s : Seat) → NoBet s → NoBet (change s)

pub update-NoBet :
    (index : ℕ) (change : Seat → Seat) (seats : List Seat)
    → KeepsSeat change
    → All NoBet seats
    → All NoBet (update_seat index change seats)
unfolding update_seat
update-NoBet index change [] keeps h = tt
update-NoBet index change (s ∷ seats) keeps h = elim (Bool-cases (s.index == index)) [
  | inl e ↦ rw e (keeps.no_bet s h.0, h.1)
  | inr e ↦ rw e (h.0, update-NoBet index change seats keeps h.1)
]

pub filter-NoBet :
    (test : Seat → Bool) (seats : List Seat) → All NoBet seats → All NoBet (filter_seats test seats)
unfolding filter_seats
filter-NoBet test [] h = tt
filter-NoBet test (s ∷ seats) h = elim (Bool-cases (test s)) [
  | inl e ↦ rw e (h.0, filter-NoBet test seats h.1)
  | inr e ↦ rw e (filter-NoBet test seats h.1)
]

pub map-NoBet :
    (change : Seat → Seat) (seats : List Seat)
    → KeepsSeat change
    → All NoBet seats
    → All NoBet (map change seats)
map-NoBet change [] keeps h = tt
map-NoBet change (s ∷ seats) keeps h = (keeps.no_bet s h.0, map-NoBet change seats keeps h.1)

pub map-cleared : (seats : List Seat) → All NoBet (map clear_bet_of seats)
map-cleared [] = tt
map-cleared (s ∷ seats) = (refl, map-cleared seats)

-- With no seat to bet there is no bet.
pub insert-nonempty : (s : Seat) (seats : List Seat) → insert_seat s seats ≢ []
unfolding insert_seat
insert-nonempty s [] e = cc
insert-nonempty s (x ∷ seats) e = ground arith

pub none_bet : (seats : List Seat) → betting_seats seats ≡ [] → All NoBet seats
unfolding betting_seats filter_seats sort_seats has_bet
none_bet [] e = tt
none_bet (s ∷ seats) e = elim (Option-cases s.bet) [
  | inl nothing ↦
      let test : has_bet s ≡ false = rw (nothing, has_bet) refl in
      (
        nothing,
        none_bet seats (
            subst
              (λ b.
                sort_seats
                  (if b then s ∷ filter_seats has_bet seats else filter_seats has_bet seats)
                ≡ [])
              test e),
      )
  | inr (b, bet) ↦
      let test : has_bet s ≡ true = rw (bet, has_bet) refl in
      absurd (
        insert-nonempty s (sort_seats (filter_seats has_bet seats)) (
          subst
            (λ b.
              sort_seats (if b then s ∷ filter_seats has_bet seats else filter_seats has_bet seats)
              ≡ [])
            test e))
]

pub sit_out-KeepsSeat : KeepsSeat sit_out
sit_out-KeepsSeat = record {
  place = record {
    index = λ s. elim (Option-cases s.bet) [ inl e ↦ rw e refl | inr (b, e) ↦ rw e refl ];
    user = λ s. elim (Option-cases s.bet) [ inl e ↦ rw e refl | inr (b, e) ↦ rw e refl ];
  };
  no_bet = λ s none_out. rw none_out refl;
}

pub resolve-KeepsPlace : (up : Card) → KeepsPlace (resolve_side_bets up)
unfolding resolve_side_bets
resolve-KeepsPlace up = record {
  index = λ s. elim (Option-cases s.bet) [ inl e ↦ rw e refl | inr (b, e) ↦ rw e refl ];
  user = λ s. elim (Option-cases s.bet) [ inl e ↦ rw e refl | inr (b, e) ↦ rw e refl ];
}

pub settle_seat-KeepsPlace : (dealer : List Card) → KeepsPlace (settle_seat dealer)
unfolding settle_seat
settle_seat-KeepsPlace dealer = record {
  index = λ s. elim (Option-cases s.bet) [ inl e ↦ rw e refl | inr (b, e) ↦ rw e refl ];
  user = λ s. elim (Option-cases s.bet) [ inl e ↦ rw e refl | inr (b, e) ↦ rw e refl ];
}
