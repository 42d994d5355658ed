-- ===== src/Fair/Cards/Values.antt =====
-- `handValue` of packages/fair/src/blackjack.ts against the rule of the game.
use scadium.Prelude.{
  ℕ, zero, suc, ◌+◌, ◌-◌, ◌*◌, ◌≤◌, ◌≡◌, ◌∙◌, true, false, ◌&&◌, List, [], ◌∷◌, arith, ltb, leb,
  if◌then◌else◌, Bool-cases, inl, inr,
}
use scadium.Fair.Cards.{Card, card_value, is_ace, sum_hand, HandValue, downgrade, hand_value}

-- The hand with every ace as 1, and its aces.
abbrev pub hard_total : List Card → ℕ
hard_total [] = 0
hard_total (c ∷ cards) = (if is_ace c then 1 else card_value c) + hard_total cards

abbrev pub count_aces : List Card → ℕ
count_aces [] = 0
count_aces (c ∷ cards) = (if is_ace c then 1 else 0) + count_aces cards

-- The rule: one ace counts as 11 if there is one and the hand stays within 21.
abbrev pub best : ℕ → ℕ → HandValue
best hard aces =
    if ltb 0 aces && leb (hard + 10) 21
    then record { total = hard + 10; soft = true }
    else record { total = hard; soft = false }

ace_value : (c : Card) → is_ace c ≡ true → card_value c ≡ 11
unfolding is_ace card_value
ace_value c h = ground arith

sum_hand_lem :
    (total aces : ℕ) (cards : List Card)
    → sum_hand total aces cards
      ≡ (total + hard_total cards + 10 * count_aces cards, aces + count_aces cards)
unfolding sum_hand
sum_hand_lem total aces [] = ground arith
sum_hand_lem total aces (c ∷ cards) = elim (Bool-cases (is_ace c)) [
  | inl e ↦
      rw (e, sum_hand_lem (total + card_value c) (aces + 1) cards, ace_value c e) (ground arith)
  | inr e ↦ rw (e, sum_hand_lem (total + card_value c) aces cards) (ground arith)
]

sum_hand_start :
    (cards : List Card)
    → sum_hand 0 0 cards ≡ (hard_total cards + 10 * count_aces cards, count_aces cards)
sum_hand_start cards = sum_hand_lem 0 0 cards ∙ ground arith

count_aces-le-hard_total : (cards : List Card) → count_aces cards ≤ hard_total cards
count_aces-le-hard_total [] = omega arith
count_aces-le-hard_total (c ∷ cards) = ground (arith, count_aces-le-hard_total cards)

downgrade_lem : (hard n : ℕ) → n ≤ hard → downgrade (hard + 10 * n) n ≡ best hard n
unfolding downgrade
downgrade_lem hard zero h = ground arith
downgrade_lem hard (suc zero) h = ground arith
downgrade_lem hard (suc (suc n)) h =
    let less : hard + 10 * suc (suc n) - 10 ≡ hard + 10 * suc n = omega arith in
    let ih = downgrade_lem hard (suc n) (omega arith) in ground (arith, less, ih)

-- `handValue` gives the best total: an ace counts as 11 exactly when one can without busting.
pub hand_value-best :
    (cards : List Card) → hand_value cards ≡ best (hard_total cards) (count_aces cards)
unfolding hand_value
hand_value-best cards =
    rw sum_hand_start
      (downgrade_lem (hard_total cards) (count_aces cards) (count_aces-le-hard_total cards))
