-- ===== src/Fair/Lottery/Matching.antt =====
-- The digits of a draw and the brackets of tickets (packages/fair/src/lottery.ts).
use scadium.Prelude.{
  ℕ, zero, suc, ◌+◌, ◌≤◌, ◌<◌, ◌≡◌, refl, List, [], ◌∷◌, length, some, All, arith, ap, ◌↔◌, take,
}
use scadium.Fair.Hash.{Crypto}
use scadium.Fair.Lottery.{
  draw_digits, digits_value, encode_lottery_number, lottery_draw, match_from, lottery_leading_match,
  lottery_bracket,
}

abbrev pub IsDigit : ℕ → Type 0
IsDigit d = d < 10

draw_digits-IsDigit :
    (crypto : Crypto) (e : List ℕ) (i left : ℕ)
    → (length (draw_digits crypto e i left) ≡ left) × All IsDigit (draw_digits crypto e i left)
unfolding draw_digits
draw_digits-IsDigit crypto e i zero = (refl, tt)
draw_digits-IsDigit crypto e i (suc left) =
    let (size, rest) = draw_digits-IsDigit crypto e (i + 1) left in
    (ap suc size, (omega arith, rest))

-- The value of six digits read left to right.
abbrev pub six_digits : ℕ → ℕ → ℕ → ℕ → ℕ → ℕ → List ℕ
six_digits a b c d e f = a ∷ b ∷ c ∷ d ∷ e ∷ f ∷ []

-- A draw has six digits below ten, and its number lies between 1000000 and 1999999.
pub lottery_draw_lem :
    (crypto : Crypto) (e : List ℕ)
    → let (digits, encoded) = lottery_draw crypto e in
      (length digits ≡ 6)
      × All IsDigit digits
      × ((n : ℕ) × (encoded ≡ some n) × (1000000 ≤ n) × (n < 2000000))
unfolding lottery_draw encode_lottery_number
lottery_draw_lem crypto e =
    let (size, ds) = draw_digits-IsDigit crypto e 0 6 in
    (size, ds, (_, refl, omega arith, omega arith))

-- Tickets of six digits that encode alike are the same ticket.
pub encode_lottery_number-injective :
    (a b c d e f a' b' c' d' e' f' : ℕ)
    → All IsDigit (six_digits a b c d e f)
    → All IsDigit (six_digits a' b' c' d' e' f')
    → encode_lottery_number (six_digits a b c d e f)
      ≡ encode_lottery_number (six_digits a' b' c' d' e' f')
    → six_digits a b c d e f ≡ six_digits a' b' c' d' e' f'
unfolding encode_lottery_number
encode_lottery_number-injective a b c d e f a' b' c' d' e' f' h h' same =
    let value : digits_value 0 (six_digits a b c d e f)
        ≡ digits_value 0 (six_digits a' b' c' d' e' f') =
      ground arith in
    let ea : a ≡ a' = omega arith in
    let eb : b ≡ b' = omega arith in
    let ec : c ≡ c' = omega arith in
    let ed : d ≡ d' = omega arith in
    let ee : e ≡ e' = omega arith in let ef : f ≡ f' = omega arith in cc

match_from-le :
    (ticket draw : List ℕ) (matched i left : ℕ)
    → match_from ticket draw matched i left ≤ matched + left
unfolding match_from
match_from-le ticket draw matched i zero = omega arith
match_from-le ticket draw matched i (suc left) =
    ground (arith, match_from-le ticket draw (matched + 1) (i + 1) left)

leading_match-le : (ticket draw : List ℕ) → lottery_leading_match ticket draw ≤ 6
unfolding lottery_leading_match
leading_match-le ticket draw = match_from-le ticket draw 0 0 6

module _ (a b c d e f a' b' c' d' e' f' : ℕ) where
  -- A ticket matches at least `k` leading digits exactly when its first `k` digits are those of the
  -- draw, for every `k` up to six.
  pub lottery_leading_match_lem :
      (k : ℕ)
      → k ≤ 6
      → (k ≤ lottery_leading_match (six_digits a b c d e f) (six_digits a' b' c' d' e' f'))
        ↔ (take k (six_digits a b c d e f) ≡ take k (six_digits a' b' c' d' e' f'))
  unfolding lottery_leading_match
  lottery_leading_match_lem zero h = (λ m. ground arith, λ m. ground arith)
  lottery_leading_match_lem (suc zero) h = (λ m. ground arith, λ m. ground arith)
  lottery_leading_match_lem (suc (suc zero)) h = (λ m. ground arith, λ m. ground arith)
  lottery_leading_match_lem (suc (suc (suc zero))) h = (λ m. ground arith, λ m. ground arith)
  lottery_leading_match_lem (suc (suc (suc (suc zero)))) h = (λ m. ground arith, λ m. ground arith)
  lottery_leading_match_lem (suc (suc (suc (suc (suc zero))))) h =
      (λ m. ground arith, λ m. ground arith)
  lottery_leading_match_lem (suc (suc (suc (suc (suc (suc zero)))))) h =
      (λ m. ground arith, λ m. ground arith)
  lottery_leading_match_lem (suc (suc (suc (suc (suc (suc (suc k))))))) h = absurd (omega arith)

-- A ticket wins a bracket exactly when it matches a digit, and then one of the six: the one below its
-- number of matches.
pub lottery_bracket_lem :
    (ticket draw : List ℕ) (b : ℕ)
    → (lottery_bracket (lottery_leading_match ticket draw) ≡ some b)
      ↔ (lottery_leading_match ticket draw ≡ b + 1)
unfolding lottery_bracket
lottery_bracket_lem ticket draw b = (
  λ h. ground (arith, leading_match-le ticket draw),
  λ h. ground (arith, leading_match-le ticket draw),
)
