-- ===== src/Blackjack/Hands/Log/Deals.antt =====
-- The steps of a hand in apps/api/src/games/blackjack/blackjack.engine.ts against the deal log.
use scadium.Prelude.{
  ℕ, ◌≡◌, ◌≢◌, inl, inr, refl, sym, subst, ◌∙◌, true, none, some, List, [], ◌∷◌, ◌++◌, All, ◌==◌,
  arith, Bool-cases,
}
use scadium.Fair.Hash.{Crypto}
use scadium.Blackjack.{Seat, TableState, has_bet, update_seat}
use scadium.Blackjack.Hands.{draw_card}
use scadium.Blackjack.Hands.Log.{
  Reproduces, Distinct, IsLogged, IsStream, draw_card-Extends, Reproduces-push, Reproduces-keep,
  Extends-IsStream,
}

-- A hand with a bet that can be reproduced.
abbrev pub IsHand : Crypto → TableState → Seat → Type 0
IsHand crypto t s = has_bet s ≡ true → Reproduces crypto t (some s.index) s.cards

pub update-All :
    (P Q : Seat → Type 0) (index : ℕ) (change : Seat → Seat) (seats : List Seat)
    → Distinct seats
    → ((s : Seat) → s.index ≡ index → P s → Q (change s))
    → ((s : Seat) → s.index ≢ index → P s → Q s)
    → All P seats
    → All Q (update_seat index change seats)
unfolding update_seat
update-All P Q index change [] d here there h = tt
update-All P Q index change (s ∷ seats) d here there h = elim (Bool-cases (s.index == index)) [
  | inl e ↦
      let at : s.index ≡ index = ground arith in
      rw e (
        here s at h.0,
        others seats (subst (λ i. All (λ (x : Seat). x.index ≢ i) seats) at d.0) h.1,
      )
  | inr e ↦ rw e (there s (ground arith) h.0, update-All P Q index change seats d.1 here there h.1)
]
  where
    others : (xs : List Seat) → All (λ (x : Seat). x.index ≢ index) xs → All P xs → All Q xs
    others [] ne k = tt
    others (x ∷ xs) ne k = (there x ne.0 k.0, others xs ne.1 k.1)

update-index_ne :
    (index i : ℕ) (change : Seat → Seat) (seats : List Seat)
    → ((s : Seat) → (change s).index ≡ s.index)
    → All (λ (x : Seat). x.index ≢ i) seats
    → All (λ (x : Seat). x.index ≢ i) (update_seat index change seats)
unfolding update_seat
update-index_ne index i change [] keeps h = tt
update-index_ne index i change (s ∷ seats) keeps h = elim (Bool-cases (s.index == index)) [
  | inl e ↦ rw e (λ k. h.0 (sym (keeps s) ∙ k), h.1)
  | inr e ↦ rw e (h.0, update-index_ne index i change seats keeps h.1)
]

pub update-Distinct :
    (index : ℕ) (change : Seat → Seat) (seats : List Seat)
    → ((s : Seat) → (change s).index ≡ s.index)
    → Distinct seats
    → Distinct (update_seat index change seats)
unfolding update_seat
update-Distinct index change [] keeps d = tt
update-Distinct index change (s ∷ seats) keeps d = elim (Bool-cases (s.index == index)) [
  | inl e ↦ rw e (subst (λ i. All (λ (x : Seat). x.index ≢ i) seats) (sym (keeps s)) d.0, d.1)
  | inr e ↦ rw e (
    update-index_ne index s.index change seats keeps d.0,
    update-Distinct index change seats keeps d.1,
  )
]

IsStream-seeds :
    (crypto : Crypto) (t t' : TableState) (i : ℕ)
    → (t'.deal_seed ≡ t.deal_seed) × (t'.client_seed ≡ t.client_seed) × (t'.nonce ≡ t.nonce)
    → IsStream crypto t i t'.deal_log
    → IsStream crypto t' i t'.deal_log
IsStream-seeds crypto t t' i (deal, client, nonce) h = rw (deal, client, nonce) h

-- A card to the seat at `index`, whatever else changes on the seat.
pub draw-IsLogged :
    (crypto : Crypto) (index : ℕ) (change : Seat → Seat) (t : TableState)
    → ((s : Seat) → (change s).index ≡ s.index)
    → ((s : Seat) → has_bet (change s) ≡ has_bet s)
    → ((s : Seat) → (change s).cards ≡ s.cards ++ (draw_card crypto (some index) t).0 ∷ [])
    → IsLogged crypto t
    → let drawn = (draw_card crypto (some index) t).1 in
      IsLogged crypto (record drawn { seats = update_seat index change drawn.seats })
unfolding draw_card
draw-IsLogged crypto index change t keeps bets cards h =
    let card = (draw_card crypto (some index) t).0 in
    let drawn = (draw_card crypto (some index) t).1 in
    let t' : TableState = record drawn { seats = update_seat index change drawn.seats } in
    let grew = draw_card-Extends crypto (some index) t in
    let (next, stream) = Extends-IsStream crypto t drawn (some index) card grew h.next h.stream in
    record {
      next = next;
      stream = stream;
      dealer =
          Reproduces-keep crypto t drawn (some index) card grew none t.dealer_cards refl h.dealer;
      hands =
          update-All (IsHand crypto t) (IsHand crypto t') index change t.seats h.distinct
            (λ s at hand bet.
              rw (keeps s, cards s)
                (Reproduces-push crypto t drawn (some index) card grew (some s.index) s.cards
                  (ground arith) (hand (sym (bets s) ∙ bet))))
            (λ s ne hand bet.
              Reproduces-keep crypto t drawn (some index) card grew (some s.index) s.cards
                (ground arith) (hand bet))
            h.hands;
      distinct = update-Distinct index change t.seats keeps h.distinct;
    }
