-- ===== src/Blackjack/Hands/Dealer.antt =====
-- The dealer's draw of apps/api/src/games/blackjack/blackjack.engine.ts.
use scadium.Prelude.{
  ℕ, zero, suc, ◌+◌, ◌≤◌, ◌<◌, ◌≡◌, inl, inr, refl, subst, true, false, none, List, [], ◌∷◌, ◌++◌,
  if◌then◌else◌, arith, Bool-cases,
}
use scadium.Fair.Hash.{Crypto}
use scadium.Fair.Cards.{Card, card_value, is_ace, hand_value, HandValue}
use scadium.Fair.Cards.Values.{hard_total, hand_value-best}
use scadium.Blackjack.{TableState}
use scadium.Blackjack.{betting_seats}
use scadium.Blackjack.Hands.{
  any_live, dealer_turn, draw_card, deal_card, must_draw, dealer_draws, dealer_fuel,
}

-- The rule of the house: a hand stands on 17 or more, but not on a soft 17.
abbrev pub Stands : HandValue → Type 0
Stands v = (17 ≤ v.total) × ((v.total ≡ 17) → v.soft ≡ false)

hard_value-pos : (c : Card) → 1 ≤ (if is_ace c then 1 else card_value c)
unfolding is_ace card_value
hard_value-pos c = ground arith

hard_value-le : (c : Card) → (if is_ace c then 1 else card_value c) ≤ 10
unfolding is_ace card_value
hard_value-le c = ground arith

hard_total-append_one :
    (cards : List Card) (c : Card)
    → hard_total (cards ++ c ∷ []) ≡ hard_total cards + (if is_ace c then 1 else card_value c)
hard_total-append_one [] c = omega arith
hard_total-append_one (x ∷ cards) c = omega (arith, hard_total-append_one cards c)

deal_card-dealer :
    (crypto : Crypto) (t : TableState)
    → (c : Card) × ((deal_card crypto none t).dealer_cards ≡ t.dealer_cards ++ c ∷ [])
unfolding deal_card draw_card
deal_card-dealer crypto t = (_, refl)

-- A hand that must draw is below a hard 17.
must_draw-hard : (cards : List Card) → must_draw (hand_value cards) ≡ true → hard_total cards < 17
unfolding must_draw
must_draw-hard cards h = ground (arith, hand_value-best cards)

must_draw-Stands : (v : HandValue) → must_draw v ≡ false → Stands v
unfolding must_draw
must_draw-Stands v h = ground arith

dealer_draws-ends :
    (crypto : Crypto) (fuel : ℕ) (t : TableState)
    → 17 ≤ hard_total t.dealer_cards + fuel
    → must_draw (hand_value (dealer_draws crypto fuel t).dealer_cards) ≡ false
unfolding dealer_draws
dealer_draws-ends crypto zero t h = elim (Bool-cases (must_draw (hand_value t.dealer_cards))) [
  | inl more ↦ absurd (omega (arith, must_draw-hard t.dealer_cards more))
  | inr done ↦ done
]
dealer_draws-ends crypto (suc fuel) t h =
    elim (Bool-cases (must_draw (hand_value t.dealer_cards))) [
      | inr done ↦ rw done done
      | inl more ↦
          let (c, drawn) = deal_card-dealer crypto t in
          rw more (
            dealer_draws-ends crypto fuel (deal_card crypto none t)
              (rw drawn (omega (arith, hard_total-append_one t.dealer_cards c, hard_value-pos c))))
    ]

-- The dealer's hand grows card by card, each drawn from a hand that must draw, to one that need not.
pub data Drew : List Card → List Card → Type 0 where
  stood : (cards : List Card) → must_draw (hand_value cards) ≡ false → Drew cards cards
  took :
      (cards final : List Card) (c : Card)
      → must_draw (hand_value cards) ≡ true
      → Drew (cards ++ c ∷ []) final
      → Drew cards final

dealer_draws-Drew :
    (crypto : Crypto) (fuel : ℕ) (t : TableState)
    → 17 ≤ hard_total t.dealer_cards + fuel
    → Drew t.dealer_cards (dealer_draws crypto fuel t).dealer_cards
unfolding dealer_draws
dealer_draws-Drew crypto zero t h = stood _ (dealer_draws-ends crypto zero t h)
dealer_draws-Drew crypto (suc fuel) t h =
    elim (Bool-cases (must_draw (hand_value t.dealer_cards))) [
      | inr done ↦ rw done (stood _ done)
      | inl more ↦
          let (c, drawn) = deal_card-dealer crypto t in
          let rest =
            dealer_draws-Drew crypto fuel (deal_card crypto none t) (
              rw drawn (omega (arith, hard_total-append_one t.dealer_cards c, hard_value-pos c))) in
          rw more (
            took t.dealer_cards (dealer_draws crypto fuel (deal_card crypto none t)).dealer_cards c
              more
              (subst
                (λ (h : List Card).
                  Drew h (dealer_draws crypto fuel (deal_card crypto none t)).dealer_cards)
                drawn rest))
    ]

-- The last card is drawn on less than 17 hard, and counts at most 10 hard.
Drew-bound :
    {cards final : List Card} → Drew cards final → hard_total cards ≤ 26 → hard_total final ≤ 26
Drew-bound (stood cards done) h = h
Drew-bound (took cards final c more rest) h =
    Drew-bound rest
      (omega (arith, hard_total-append_one cards c, hard_value-le c, must_draw-hard cards more))

-- The dealer's turn ends. When a hand can still win, and the dealer's cards count at most 26 with aces as 1: the
-- dealer draws card by card, each from a hand that must draw, and stops on a hand that stands, 17 or more
-- and no soft 17; its total with aces as 1 stays within 26.
pub dealer_turn_lem :
    (crypto : Crypto) (t : TableState)
    → hard_total t.dealer_cards ≤ 26
    → any_live (betting_seats t.seats) ≡ true
    → Drew t.dealer_cards (dealer_turn crypto t).dealer_cards
      × Stands (hand_value (dealer_turn crypto t).dealer_cards)
      × (hard_total (dealer_turn crypto t).dealer_cards ≤ 26)
unfolding dealer_turn
dealer_turn_lem crypto t small live =
    let shown : TableState = record t { dealer_hidden = false } in
    let drew = dealer_draws-Drew crypto dealer_fuel shown (omega arith) in
    rw live (
      drew,
      must_draw-Stands _ (dealer_draws-ends crypto dealer_fuel shown (omega arith)),
      Drew-bound drew small,
    )
