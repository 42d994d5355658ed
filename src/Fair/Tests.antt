-- ===== src/Fair/Tests.antt =====
-- Runs of packages/fair/src over a toy digest, and the theorems about it at concrete inputs.
use scadium.Prelude.{
  ℕ, ◌*◌, ◌%◌, ◌≡◌, refl, ◌↔◌, List, [], ◌∷◌, replicate, get_or, some, arith, true,
}
use scadium.Fair.Hash.{Text, Crypto, HasDigests, decimal}
use scadium.Fair.Cards.{
  ace, king, nine, hearts, spades, hand_value, card_at, blackjack_deal, no_card, is_ace, card_value,
}
use scadium.Fair.Cards.Values.{hand_value-best, best}
use scadium.Fair.Cards.Deals.{blackjack_deal-get}
use scadium.Fair.Lottery.{lottery_leading_match, lottery_bracket}
use scadium.Fair.Lottery.Matching.{lottery_bracket_lem, six_digits}
use scadium.Fair.Tickets.{jackpot_winner_index, sum}

-- A digest of 32 equal bytes, read off the message.
abbrev toy_digest : Text → List ℕ
toy_digest message = replicate 32 (sum message * 57 % 256)

abbrev toy : Crypto
toy = record { hmac = λ key message. toy_digest message; hash = toy_digest }

toy-HasDigests : HasDigests toy
toy-HasDigests = record {
  hmac-length = λ key message. refl;
  hmac-bytes = λ key message. omega arith;
  hash-length = λ input. refl;
  hash-bytes = λ input. omega arith;
}

abbrev server : Text
server = b's' ∷ []

abbrev client : Text
client = b'c' ∷ []

decimal_runs : decimal 105 ≡ b'1' ∷ b'0' ∷ b'5' ∷ []
unfolding decimal
decimal_runs = refl

soft_hand :
    hand_value (
      record { rank = ace; suit = hearts }
      ∷ record { rank = ace; suit = spades }
      ∷ record { rank = nine; suit = spades }
      ∷ [])
    ≡ record { total = 21; soft = true }
unfolding hand_value
soft_hand = refl

second_wins : jackpot_winner_index (5 ∷ 3 ∷ 2 ∷ []) 7 ≡ some 1
unfolding jackpot_winner_index
second_wins = refl

hand_value-best_example :
    hand_value (record { rank = ace; suit = hearts } ∷ record { rank = king; suit = spades } ∷ [])
    ≡ best 11 1
unfolding is_ace card_value
hand_value-best_example =
    hand_value-best
      (record { rank = ace; suit = hearts } ∷ record { rank = king; suit = spades } ∷ [])

deal_at : get_or (blackjack_deal toy server client 0 9) 4 no_card ≡ card_at toy server client 0 4
deal_at = blackjack_deal-get toy server client 0 9 4 (omega arith)

brackets :
    (lottery_bracket (lottery_leading_match (six_digits 4 2 7 0 0 1) (six_digits 4 2 7 9 0 1))
      ≡ some 2)
    ↔ (lottery_leading_match (six_digits 4 2 7 0 0 1) (six_digits 4 2 7 9 0 1) ≡ 3)
brackets = lottery_bracket_lem (six_digits 4 2 7 0 0 1) (six_digits 4 2 7 9 0 1) 2
