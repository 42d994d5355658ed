-- ===== src/Blackjack/Hands/Log/Steps.antt =====
-- Single changes of the table of apps/api/src/games/blackjack/blackjack.engine.ts against the deal log.
use scadium.Prelude.{
  ℕ, ◌≡◌, ◌≢◌, inl, inr, refl, sym, subst, ◌∙◌, Bool, Option, none, some, List, [], ◌∷◌, map, All,
  Bool-cases, Option-cases,
}
use scadium.Fair.Hash.{Crypto}
use scadium.Blackjack.{Phase, Seat, TableState, has_bet, update_seat, filter_seats, betting_seats}
use scadium.Blackjack.Hands.{
  draw_card, deal_card, deal_cards, push_card, advance_turn, next_to_play,
}
use scadium.Blackjack.Hands.Log.{
  Distinct, IsLogged, draw_card-Extends, Reproduces-push, Reproduces-keep, Extends-IsStream,
}
use scadium.Blackjack.Hands.Log.Deals.{IsHand, update-Distinct, draw-IsLogged, update-All}

-- A change of seats that leaves indices, cards and the fact of a bet alone.
pub record KeepsHand (change : Seat → Seat) : Type 0 where
  pub index : (s : Seat) → (change s).index ≡ s.index
  pub cards : (s : Seat) → (change s).cards ≡ s.cards
  pub bet : (s : Seat) → has_bet (change s) ≡ has_bet s

pub dealer_card-IsLogged :
    (crypto : Crypto) (t : TableState)
    → IsLogged crypto t
    → IsLogged crypto (deal_card crypto none t)
unfolding deal_card draw_card
dealer_card-IsLogged crypto t h =
    let card = (draw_card crypto none t).0 in
    let drawn = (draw_card crypto none t).1 in
    let grew = draw_card-Extends crypto none t in
    let (next, stream) = Extends-IsStream crypto t drawn none card grew h.next h.stream in
    record {
      next = next;
      stream = stream;
      dealer = Reproduces-push crypto t drawn none card grew none t.dealer_cards refl h.dealer;
      hands = kept t.seats h.hands;
      distinct = h.distinct;
    }
  where
    kept :
        (seats : List Seat)
        → All (IsHand crypto t) seats
        → All (IsHand crypto (draw_card crypto none t).1) seats
    kept [] k = tt
    kept (s ∷ seats) k = (
      λ bet.
          Reproduces-keep crypto t (draw_card crypto none t).1 none (draw_card crypto none t).0
            (draw_card-Extends crypto none t) (some s.index) s.cards refl (k.0 bet),
      kept seats k.1,
    )

deal_card-IsLogged :
    (crypto : Crypto) (to : Option ℕ) (t : TableState)
    → IsLogged crypto t
    → IsLogged crypto (deal_card crypto to t)
unfolding deal_card has_bet
deal_card-IsLogged crypto (some index) t h =
    draw-IsLogged crypto index (push_card (draw_card crypto (some index) t).0) t (λ s. refl)
      (λ s. refl) (λ s. refl) h
deal_card-IsLogged crypto none t h = dealer_card-IsLogged crypto t h

pub deal_cards-IsLogged :
    (crypto : Crypto) (order : List (Option ℕ)) (t : TableState)
    → IsLogged crypto t
    → IsLogged crypto (deal_cards crypto order t)
unfolding deal_cards
deal_cards-IsLogged crypto [] t h = h
deal_cards-IsLogged crypto (to ∷ order) t h =
    deal_cards-IsLogged crypto order (deal_card crypto to t) (deal_card-IsLogged crypto to t h)

pub update-IsLogged :
    (crypto : Crypto) (index : ℕ) (change : Seat → Seat) (t : TableState)
    → KeepsHand change
    → IsLogged crypto t
    → IsLogged crypto (record t { seats = update_seat index change t.seats })
update-IsLogged crypto index change t keeps h = record {
  next = h.next;
  stream = h.stream;
  dealer = h.dealer;
  hands =
      update-All (IsHand crypto t) (IsHand crypto t) index change t.seats h.distinct
        (λ s at hand bet. rw (keeps.index s, keeps.cards s) (hand (sym (keeps.bet s) ∙ bet)))
        (λ s ne hand. hand) h.hands;
  distinct = update-Distinct index change t.seats keeps.index h.distinct;
}

map-All :
    (P : Seat → Type 0) (change : Seat → Seat) (seats : List Seat)
    → ((s : Seat) → P s → P (change s))
    → All P seats
    → All P (map change seats)
map-All P change [] keep h = tt
map-All P change (s ∷ seats) keep h = (keep s h.0, map-All P change seats keep h.1)

map-Distinct :
    (change : Seat → Seat) (seats : List Seat)
    → ((s : Seat) → (change s).index ≡ s.index)
    → Distinct seats
    → Distinct (map change seats)
map-Distinct change [] keep d = tt
map-Distinct change (s ∷ seats) keep d = (
  map-All (λ (x : Seat). x.index ≢ (change s).index) change seats (λ x ne e. ne (sym (keep x) ∙ e))
      (subst (λ i. All (λ (x : Seat). x.index ≢ i) seats) (sym (keep s)) d.0),
  map-Distinct change seats keep d.1,
)

pub map-IsLogged :
    (crypto : Crypto) (change : Seat → Seat) (t : TableState)
    → KeepsHand change
    → IsLogged crypto t
    → IsLogged crypto (record t { seats = map change t.seats })
map-IsLogged crypto change t keeps h = record {
  next = h.next;
  stream = h.stream;
  dealer = h.dealer;
  hands =
      map-All (IsHand crypto t) change t.seats
        (λ s hand bet. rw (keeps.index s, keeps.cards s) (hand (sym (keeps.bet s) ∙ bet))) h.hands;
  distinct = map-Distinct change t.seats keeps.index h.distinct;
}

filter-All :
    (P : Seat → Type 0) (test : Seat → Bool) (seats : List Seat)
    → All P seats
    → All P (filter_seats test seats)
unfolding filter_seats
filter-All P test [] h = tt
filter-All P test (s ∷ seats) h = elim (Bool-cases (test s)) [
  | inl e ↦ rw e (h.0, filter-All P test seats h.1)
  | inr e ↦ rw e (filter-All P test seats h.1)
]

filter-Distinct :
    (test : Seat → Bool) (seats : List Seat) → Distinct seats → Distinct (filter_seats test seats)
unfolding filter_seats
filter-Distinct test [] d = tt
filter-Distinct test (s ∷ seats) d = elim (Bool-cases (test s)) [
  | inl e ↦
      rw e (
        filter-All (λ (x : Seat). x.index ≢ s.index) test seats d.0,
        filter-Distinct test seats d.1,
      )
  | inr e ↦ rw e (filter-Distinct test seats d.1)
]

pub filter-IsLogged :
    (crypto : Crypto) (test : Seat → Bool) (t : TableState)
    → IsLogged crypto t
    → IsLogged crypto (record t { seats = filter_seats test t.seats })
filter-IsLogged crypto test t h = record {
  next = h.next;
  stream = h.stream;
  dealer = h.dealer;
  hands = filter-All (IsHand crypto t) test t.seats h.hands;
  distinct = filter-Distinct test t.seats h.distinct;
}

pub advance_turn-IsLogged :
    (crypto : Crypto) (from : ℕ) (t : TableState)
    → IsLogged crypto t
    → IsLogged crypto (advance_turn from t)
unfolding advance_turn
advance_turn-IsLogged crypto from t h =
    elim (Option-cases (next_to_play from (betting_seats t.seats))) [
      | inl e ↦ rw (e, advance_turn) (same h)
      | inr (s, e) ↦ rw (e, advance_turn) (same h)
    ]
  where
    same :
        {p : Phase} {a : Option ℕ}
        → IsLogged crypto t
        → IsLogged crypto (record t { phase = p; active_seat = a })
    same k = record {
      next = k.next;
      stream = k.stream;
      dealer = k.dealer;
      hands = k.hands;
      distinct = k.distinct;
    }
