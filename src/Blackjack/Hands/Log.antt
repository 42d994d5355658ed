-- ===== src/Blackjack/Hands/Log.antt =====
-- The deal log of a round of apps/api/src/games/blackjack/blackjack.engine.ts against the hands.
pub mod Deals
pub mod Steps
pub mod Turns
pub mod Runs
use scadium.Prelude.{
  ℕ, suc, ◌+◌, ◌≡◌, ◌≢◌, inl, inr, refl, sym, ap, ap₂, ◌∙◌, Bool, true, false, Option, none, some,
  List, [], ◌∷◌, ◌++◌, map, All, length, length-append, ◌==◌, if◌then◌else◌, arith, Bool-cases,
  Option-cases,
}
use mathlib.Core.List.{append-nil}
use scadium.Fair.Hash.{Crypto}
use scadium.Fair.Cards.{Card, card_at, reproduce_hand, blackjack_deal, no_card}
use scadium.Fair.Cards.Deals.{reproduce_hand_lem, blackjack_deal-get}
use scadium.Blackjack.{Seat, DealLogEntry, TableState, has_bet, update_seat, seat_at}
use scadium.Blackjack.Hands.{draw_card, deal_card, push_card}

-- Whether an entry went to a seat, or to the dealer.
abbrev pub went_to : Option ℕ → DealLogEntry → Bool
went_to none e = elim e.dealt_to [ none ↦ true | some i ↦ false ]
went_to (some index) e = elim e.dealt_to [ none ↦ false | some i ↦ i == index ]

-- The deck positions that a seat's row `Bet` keeps: `dealLog.filter(…).map((e) => e.deckIndex)`.
unfoldable pub deck_indices : Option ℕ → List DealLogEntry → List ℕ
deck_indices to [] = []
deck_indices to (e ∷ log) =
    let rest = deck_indices to log in if went_to to e then e.deck_index ∷ rest else rest

-- The entries are consecutive positions of the stream from `i` on.
abbrev pub IsStream : Crypto → TableState → ℕ → List DealLogEntry → Type 0
IsStream crypto t i [] = Unit
IsStream crypto t i (e ∷ log) =
    (e.deck_index ≡ i)
    × (e.card ≡ card_at crypto t.deal_seed t.client_seed t.nonce i)
    × IsStream crypto t (i + 1) log

-- The hand of a seat, or the dealer's, is what `reproduceHand` makes of the positions in the log.
abbrev pub Reproduces : Crypto → TableState → Option ℕ → List Card → Type 0
Reproduces crypto t to cards =
    cards ≡ reproduce_hand crypto t.deal_seed t.client_seed t.nonce (deck_indices to t.deal_log)

-- No two seats at one index.
abbrev pub Distinct : List Seat → Type 0
Distinct [] = Unit
Distinct (s ∷ seats) = All (λ (x : Seat). x.index ≢ s.index) seats × Distinct seats

-- The table while a hand is played: the log is the stream so far, and every hand with a bet, and the dealer's,
-- can be reproduced from the log.
pub record IsLogged (crypto : Crypto) (t : TableState) : Type 0 where
  pub next : t.deck_index ≡ length t.deal_log
  pub stream : IsStream crypto t 0 t.deal_log
  pub dealer : Reproduces crypto t none t.dealer_cards
  pub hands :
      All (λ (s : Seat). has_bet s ≡ true → Reproduces crypto t (some s.index) s.cards) t.seats
  pub distinct : Distinct t.seats

deck_indices-append_one :
    (to : Option ℕ) (log : List DealLogEntry) (e : DealLogEntry)
    → deck_indices to (log ++ e ∷ [])
      ≡ deck_indices to log ++ (if went_to to e then e.deck_index ∷ [] else [])
unfolding deck_indices
deck_indices-append_one to [] e = ground arith
deck_indices-append_one to (x ∷ log) e = ground (arith, deck_indices-append_one to log e)

map-append_one : (f : ℕ → Card) (is : List ℕ) (i : ℕ) → map f (is ++ i ∷ []) ≡ map f is ++ f i ∷ []
map-append_one f [] i = refl
map-append_one f (x ∷ is) i = ap (λ cs. f x ∷ cs) (map-append_one f is i)

IsStream-append_one :
    (crypto : Crypto) (t : TableState) (i : ℕ) (log : List DealLogEntry) (e : DealLogEntry)
    → IsStream crypto t i log
    → e.deck_index ≡ i + length log
    → e.card ≡ card_at crypto t.deal_seed t.client_seed t.nonce e.deck_index
    → IsStream crypto t i (log ++ e ∷ [])
IsStream-append_one crypto t i [] e h at card =
    let here : e.deck_index ≡ i = omega (arith, at) in
    (here, card ∙ ap (card_at crypto t.deal_seed t.client_seed t.nonce) here, tt)
IsStream-append_one crypto t i (x ∷ log) e (at_i, same, rest) at card =
    (at_i, same, IsStream-append_one crypto t (i + 1) log e rest (omega (arith, at)) card)

-- A new entry of the log, on a table with the same seeds.
pub record Extends (crypto : Crypto) (t t' : TableState) (to : Option ℕ) (card : Card)
    : Type 0 where
  pub seeds : (t'.deal_seed ≡ t.deal_seed) × (t'.client_seed ≡ t.client_seed) × (t'.nonce ≡ t.nonce)
  pub drawn : card ≡ card_at crypto t.deal_seed t.client_seed t.nonce t.deck_index
  pub count : t'.deck_index ≡ t.deck_index + 1
  pub log :
      t'.deal_log
      ≡ t.deal_log ++ record { deck_index = t.deck_index; dealt_to = to; card = card } ∷ []

pub draw_card-Extends :
    (crypto : Crypto) (to : Option ℕ) (t : TableState)
    → Extends crypto t (draw_card crypto to t).1 to (draw_card crypto to t).0
unfolding draw_card
draw_card-Extends crypto to t = record {
  seeds = (refl, refl, refl);
  drawn =
      blackjack_deal-get crypto t.deal_seed t.client_seed t.nonce (t.deck_index + 1) t.deck_index
        (omega arith);
  count = refl;
  log = refl;
}

abbrev pub entry_of : TableState → Option ℕ → Card → DealLogEntry
entry_of t to card = record { deck_index = t.deck_index; dealt_to = to; card = card }

Reproduces-cards :
    (crypto : Crypto) (t : TableState) (to : Option ℕ) (cards : List Card)
    → Reproduces crypto t to cards
    → cards ≡ map (card_at crypto t.deal_seed t.client_seed t.nonce) (deck_indices to t.deal_log)
Reproduces-cards crypto t to cards h =
    h ∙ reproduce_hand_lem crypto t.deal_seed t.client_seed t.nonce (deck_indices to t.deal_log)

module _ (crypto : Crypto) (t t' : TableState) (to : Option ℕ) (card : Card)
    (grew : Extends crypto t t' to card) where
  -- The hand that takes the card.
  pub Reproduces-push :
      (own : Option ℕ) (cards : List Card)
      → went_to own (entry_of t to card) ≡ true
      → Reproduces crypto t own cards
      → Reproduces crypto t' own (cards ++ card ∷ [])
  Reproduces-push own cards mine h =
      let (deal, client, nonce) = grew.seeds in
      let indices = deck_indices-append_one own t.deal_log (entry_of t to card) in
      rw
        (
          deal,
          client,
          nonce,
          grew.log,
          indices,
          mine,
          reproduce_hand_lem crypto t.deal_seed t.client_seed t.nonce,
          map-append_one (card_at crypto t.deal_seed t.client_seed t.nonce),
        )
        (ap₂ ◌++◌ (Reproduces-cards crypto t own cards h) (ap (λ c. c ∷ []) grew.drawn))

  -- Any other hand.
  pub Reproduces-keep :
      (own : Option ℕ) (cards : List Card)
      → went_to own (entry_of t to card) ≡ false
      → Reproduces crypto t own cards
      → Reproduces crypto t' own cards
  Reproduces-keep own cards other h =
      let (deal, client, nonce) = grew.seeds in
      let indices = deck_indices-append_one own t.deal_log (entry_of t to card) in
      rw (deal, client, nonce, grew.log, indices, other, append-nil) h

  pub Extends-IsStream :
      t.deck_index ≡ length t.deal_log
      → IsStream crypto t 0 t.deal_log
      → (t'.deck_index ≡ length t'.deal_log) × IsStream crypto t 0 t'.deal_log
  Extends-IsStream next stream = (
    rw (grew.count, grew.log)
        (omega (arith, next, length-append t.deal_log (entry_of t to card ∷ []))),
    rw grew.log (
        IsStream-append_one crypto t 0 t.deal_log (entry_of t to card) stream (omega (arith, next))
          grew.drawn),
  )
