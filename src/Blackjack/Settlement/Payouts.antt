-- ===== src/Blackjack/Settlement/Payouts.antt =====
-- What a seat of apps/api/src/games/blackjack/blackjack.engine.ts is paid, against the rules of the game.
use scadium.Prelude.{
  ℕ, ◌+◌, ◌*◌, ◌/◌, ◌≤◌, ◌≡◌, ◌≢◌, inl, inr, refl, Bool, true, false, some, List, ltb, ◌==◌,
  if◌then◌else◌, arith, Option-cases,
}
use scadium.Fair.Cards.{
  Card, TwentyOnePlusThree, suited_trips, straight_flush, three_of_a_kind, straight, flush,
  no_poker, PerfectPairs, perfect, colored, mixed, no_pair, hand_value, is_blackjack, is_bust,
}
use scadium.Blackjack.{HandStatus, SeatBet, Seat, bet_total}
use scadium.Blackjack.Exposure.{max_payout_x}
use scadium.Blackjack.Settlement.{
  main_result, side_payout, settle_seat, poker_multiplier, pairs_multiplier,
}

-- The worth of a hand at the showdown: a natural beats every other 21, and a hand over 21 is worth nothing.
abbrev pub score : Bool → List Card → ℕ
score natural cards = if natural then 22 else if is_bust cards then 0 else (hand_value cards).total

abbrev pub is_natural : HandStatus → Bool
is_natural HandStatus.blackjack = true
is_natural s = false

-- The rule: the higher score takes the stake twice, a natural two and a half times; equal scores give it back.
abbrev pub showdown : Bool → ℕ → ℕ → ℕ → ℕ
showdown natural own dealer main =
    if ltb dealer own
    then (if natural then main * 5 / 2 else main * 2)
    else if own == dealer
    then main
    else 0

-- The status of a finished hand says what its cards are.
pub record IsFinished (s : HandStatus) (cards : List Card) : Type 0 where
  pub busted : s ≡ HandStatus.busted → is_bust cards ≡ true
  pub standing : s ≢ HandStatus.busted → (is_bust cards ≡ false) × (1 ≤ (hand_value cards).total)

natural_total : (cards : List Card) → is_blackjack cards ≡ true → (hand_value cards).total ≡ 21
unfolding is_blackjack
natural_total cards h = ground arith

-- The main payout of a finished hand is that of the showdown by scores; a hand over 21 loses even when the
-- dealer's does too.
pub main_result-showdown :
    (dealer : List Card) (s : HandStatus) (cards : List Card) (main : ℕ)
    → IsFinished s cards
    → (main_result dealer s cards main).1 ≡ (
        if is_bust cards
        then 0
        else showdown
            (is_natural s)
            (score (is_natural s) cards)
            (score (is_blackjack dealer) dealer)
            main)
unfolding main_result is_bust
main_result-showdown dealer HandStatus.blackjack cards main h =
    let (low, pos_total) = h.standing (λ e. cc) in ground (arith, natural_total dealer)
main_result-showdown dealer HandStatus.busted cards main h =
    let bust = h.busted refl in ground arith
main_result-showdown dealer HandStatus.standing cards main h =
    let (low, pos_total) = h.standing (λ e. cc) in ground (arith, natural_total dealer)
main_result-showdown dealer HandStatus.playing cards main h =
    let (low, pos_total) = h.standing (λ e. cc) in ground (arith, natural_total dealer)

main_result-le :
    (dealer : List Card) (s : HandStatus) (cards : List Card) (main : ℕ)
    → (main_result dealer s cards main).1 ≤ max_payout_x * main
unfolding main_result
main_result-le dealer HandStatus.blackjack cards main = ground arith
main_result-le dealer HandStatus.busted cards main = ground arith
main_result-le dealer HandStatus.standing cards main = ground arith
main_result-le dealer HandStatus.playing cards main = ground arith

poker-le : (o : TwentyOnePlusThree) (x : ℕ) → x * poker_multiplier o ≤ max_payout_x * x
poker-le suited_trips x = omega arith
poker-le straight_flush x = omega arith
poker-le three_of_a_kind x = omega arith
poker-le straight x = omega arith
poker-le flush x = omega arith
poker-le no_poker x = omega arith

pairs-le : (o : PerfectPairs) (x : ℕ) → x * pairs_multiplier o ≤ max_payout_x * x
pairs-le perfect x = omega arith
pairs-le colored x = omega arith
pairs-le mixed x = omega arith
pairs-le no_pair x = omega arith

side_payout-le :
    (s : Seat) (bet : SeatBet)
    → side_payout s bet ≤ max_payout_x * (bet.side_21p3_lamports + bet.side_perfect_pairs_lamports)
unfolding side_payout
side_payout-le s bet = elim (Option-cases s.side_21p3_outcome) [
  | inl e ↦ elim (Option-cases s.side_perfect_pairs_outcome) [
    | inl f ↦ rw (e, f) (omega arith)
    | inr (p, f) ↦ rw (e, f) (omega (arith, pairs-le p bet.side_perfect_pairs_lamports))
  ]
  | inr (o, e) ↦ elim (Option-cases s.side_perfect_pairs_outcome) [
    | inl f ↦ rw (e, f) (omega (arith, poker-le o bet.side_21p3_lamports))
    | inr (p, f) ↦
        rw (e, f)
          (omega
            (arith, poker-le o bet.side_21p3_lamports, pairs-le p bet.side_perfect_pairs_lamports))
  ]
]

-- Whatever the cards and the side bets' outcomes, a seat is paid at most MAX_PAYOUT_X times what it has at
-- stake: the multiple that the exposure guard reserves.
pub settle_seat-le :
    (dealer : List Card) (s : Seat) (bet : SeatBet)
    → s.bet ≡ some bet
    → (settle_seat dealer s).payout_lamports ≤ max_payout_x * bet_total bet
unfolding settle_seat bet_total
settle_seat-le dealer s bet h =
    rw (h, settle_seat)
      (omega
        (arith, main_result-le dealer s.status s.cards bet.main_lamports, side_payout-le s bet))
