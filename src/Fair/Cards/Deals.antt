-- ===== src/Fair/Cards/Deals.antt =====
-- The deal of packages/fair/src/blackjack.ts as one stream of cards.
use scadium.Prelude.{
  ℕ, zero, suc, ◌+◌, ◌<◌, ◌≡◌, refl, ◌∙◌, List, [], ◌∷◌, arith, get_or, map, ap, ap₂,
}
use scadium.Fair.Hash.{Text, Crypto}
use scadium.Fair.Cards.{no_card, card_at, deal_from, blackjack_deal, reproduce_hand, max_of}

module _ (crypto : Crypto) (server_seed client_seed : Text) (nonce : ℕ) where
  deal_from-get :
      (i left k : ℕ)
      → k < left
      → get_or (deal_from crypto server_seed client_seed nonce i left) k no_card
        ≡ card_at crypto server_seed client_seed nonce (i + k)
  unfolding deal_from
  deal_from-get i zero k h = absurd (omega arith)
  deal_from-get i (suc left) zero h =
      ap (card_at crypto server_seed client_seed nonce) (omega arith)
  deal_from-get i (suc left) (suc k) h =
      deal_from-get (i + 1) left k (omega arith)
      ∙ ap (card_at crypto server_seed client_seed nonce) (omega arith)

  -- The card at an index is the same in every deal that is long enough.
  pub blackjack_deal-get :
      (count k : ℕ)
      → k < count
      → get_or (blackjack_deal crypto server_seed client_seed nonce count) k no_card
        ≡ card_at crypto server_seed client_seed nonce k
  unfolding blackjack_deal
  blackjack_deal-get count k h =
      deal_from-get 0 count k h ∙ ap (card_at crypto server_seed client_seed nonce) (omega arith)

  reproduce_lem :
      (count : ℕ) (is : List ℕ)
      → max_of is < count
      → map (λ j. get_or (blackjack_deal crypto server_seed client_seed nonce count) j no_card) is
        ≡ map (card_at crypto server_seed client_seed nonce) is
  reproduce_lem count [] h = refl
  reproduce_lem count (i ∷ is) h =
      ap₂ ◌∷◌ (blackjack_deal-get count i (omega arith)) (reproduce_lem count is (omega arith))

  -- `reproduceHand` gives the cards at the recorded deck indices, in their order.
  pub reproduce_hand_lem :
      (is : List ℕ)
      → reproduce_hand crypto server_seed client_seed nonce is
        ≡ map (card_at crypto server_seed client_seed nonce) is
  unfolding reproduce_hand
  reproduce_hand_lem [] = refl
  reproduce_hand_lem (i ∷ is) = reproduce_lem (max_of (i ∷ is) + 1) (i ∷ is) (omega arith)
