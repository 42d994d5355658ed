-- ===== src/Fair/Cards.antt =====
-- packages/fair/src/blackjack.ts: the deal, the values of hands, and the side bets.
pub mod Values
pub mod Deals
use scadium.Prelude.{
  ℕ, zero, suc, ◌+◌, ◌-◌, ◌*◌, ◌/◌, ◌%◌, ◌≡◌, Bool, true, false, ◌&&◌, ◌||◌, not, List, [], ◌∷◌,
  ◌++◌, map, take, length, get_or, max, ltb, leb, ◌==◌, if◌then◌else◌, Option, none, some,
}
use scadium.Prelude.Counting.{sort}
use scadium.Fair.Hash.{Text, Crypto, hmac_sha256, build_message, append_index, parse_hex}

pub data Rank : Type 0 where
  ace two three four five six seven eight nine ten jack queen king : Rank

pub data Suit : Type 0 where
  hearts diamonds clubs spades : Suit

pub record Card : Type 0 where
  pub rank : Rank
  pub suit : Suit

-- `RANKS`, and `STRAIGHT_ORDER`, which is the same list.
abbrev pub ranks : List Rank
ranks =
    ace ∷ two ∷ three ∷ four ∷ five ∷ six ∷ seven ∷ eight ∷ nine ∷ ten ∷ jack ∷ queen ∷ king ∷ []

-- `SUITS`
abbrev pub suits : List Suit
suits = hearts ∷ diamonds ∷ clubs ∷ spades ∷ []

-- `STRAIGHT_ORDER.indexOf(rank)`
unfoldable pub rank_index : Rank → ℕ
rank_index ace = 0
rank_index two = 1
rank_index three = 2
rank_index four = 3
rank_index five = 4
rank_index six = 5
rank_index seven = 6
rank_index eight = 7
rank_index nine = 8
rank_index ten = 9
rank_index jack = 10
rank_index queen = 11
rank_index king = 12

unfoldable pub suit_index : Suit → ℕ
suit_index hearts = 0
suit_index diamonds = 1
suit_index clubs = 2
suit_index spades = 3

-- `===` on ranks and on suits.
unfoldable pub same_rank : Card → Card → Bool
unfolding rank_index
same_rank a b = rank_index a.rank == rank_index b.rank

unfoldable pub same_suit : Card → Card → Bool
unfolding suit_index
same_suit a b = suit_index a.suit == suit_index b.suit

-- The card at position `i`: four hex characters of the digest, modulo 52.
unfoldable pub card_at : Crypto → Text → Text → ℕ → ℕ → Card
card_at crypto server_seed client_seed nonce i =
    let hash = hmac_sha256 crypto server_seed (append_index (build_message client_seed nonce) i) in
    let n = parse_hex 0 (take 4 hash) % 52 in
    record { rank = get_or ranks (n % 13) ace; suit = get_or suits (n / 13) hearts }

-- The loop of `blackjackDeal` from `i` on, `left` more cards.
unfoldable pub deal_from : Crypto → Text → Text → ℕ → ℕ → ℕ → List Card
deal_from crypto server_seed client_seed nonce i zero = []
deal_from crypto server_seed client_seed nonce i (suc left) =
    card_at crypto server_seed client_seed nonce i
    ∷ deal_from crypto server_seed client_seed nonce (i + 1) left

unfoldable pub blackjack_deal : Crypto → Text → Text → ℕ → ℕ → List Card
unfolding deal_from
blackjack_deal crypto server_seed client_seed nonce count =
    deal_from crypto server_seed client_seed nonce 0 count

-- The card that stands for `stream[i]!` out of range; no caller reads there.
abbrev pub no_card : Card
no_card = record { rank = ace; suit = hearts }

-- `Math.max(...indices)`
abbrev pub max_of : List ℕ → ℕ
max_of [] = 0
max_of (i ∷ is) = max i (max_of is)

-- `reproduceHand`
unfoldable pub reproduce_hand : Crypto → Text → Text → ℕ → List ℕ → List Card
reproduce_hand crypto server_seed client_seed nonce [] = []
reproduce_hand crypto server_seed client_seed nonce (i ∷ is) =
    let stream = blackjack_deal crypto server_seed client_seed nonce (max_of (i ∷ is) + 1) in
    map (λ j. get_or stream j no_card) (i ∷ is)

-- `cardValue`
unfoldable pub card_value : Card → ℕ
card_value c = elim c.rank [
  | ace ↦ 11
  | two ↦ 2
  | three ↦ 3
  | four ↦ 4
  | five ↦ 5
  | six ↦ 6
  | seven ↦ 7
  | eight ↦ 8
  | nine ↦ 9
  | _ ↦ 10
]

unfoldable pub is_ace : Card → Bool
is_ace c = elim c.rank [ ace ↦ true | _ ↦ false ]

-- The first loop of `handValue`: the total with each ace as 11, and the number of aces.
unfoldable pub sum_hand : ℕ → ℕ → List Card → ℕ × ℕ
unfolding card_value is_ace
sum_hand total aces [] = (total, aces)
sum_hand total aces (c ∷ cards) =
    sum_hand (total + card_value c) (if is_ace c then aces + 1 else aces) cards

pub record HandValue : Type 0 where
  pub total : ℕ
  pub soft : Bool

-- The second loop: an ace is downgraded from 11 to 1 while the hand busts.
unfoldable pub downgrade : ℕ → ℕ → HandValue
downgrade total zero = record { total = total; soft = false }
downgrade total (suc aces) =
    let rest = downgrade (total - 10) aces in
    if ltb 21 total then rest else record { total = total; soft = true }

unfoldable pub hand_value : List Card → HandValue
unfolding sum_hand downgrade
hand_value cards = let (total, aces) = sum_hand 0 0 cards in downgrade total aces

unfoldable pub is_blackjack : List Card → Bool
is_blackjack cards = length cards == 2 && (hand_value cards).total == 21

unfoldable pub is_bust : List Card → Bool
is_bust cards = ltb 21 (hand_value cards).total

pub data TwentyOnePlusThree : Type 0 where
  suited_trips straight_flush three_of_a_kind straight flush no_poker : TwentyOnePlusThree

pub data PerfectPairs : Type 0 where
  perfect colored mixed no_pair : PerfectPairs

-- `isStraightTriple`, on the sorted indices; three distinct ones are a set of size three.
unfoldable pub is_straight_sorted : List ℕ → Bool
is_straight_sorted (a ∷ b ∷ c ∷ []) =
    if a == b || b == c
    then false
    else (c - a == 2 && b - a == 1) || (a == 0 && (b == 11 && c == 12))
is_straight_sorted _ = false

unfoldable pub is_straight_triple : Card → Card → Card → Bool
unfolding is_straight_sorted rank_index
is_straight_triple p1 p2 dealer_up =
    is_straight_sorted
      (sort (rank_index p1.rank ∷ rank_index p2.rank ∷ rank_index dealer_up.rank ∷ []))

-- `evaluate21Plus3`
unfoldable pub evaluate_21_plus_3 : Card → Card → Card → TwentyOnePlusThree
unfolding is_straight_triple same_suit same_rank
evaluate_21_plus_3 p1 p2 dealer_up =
    let suited = same_suit p2 p1 && same_suit dealer_up p1 in
    let ranked = same_rank p2 p1 && same_rank dealer_up p1 in
    let straight_run = is_straight_triple p1 p2 dealer_up in
    if ranked && suited
    then suited_trips
    else if straight_run && suited
    then straight_flush
    else if ranked
    then three_of_a_kind
    else if straight_run
    then straight
    else if suited
    then flush
    else no_poker

-- `RED_SUITS.includes(suit)`
unfoldable pub is_red : Suit → Bool
is_red hearts = true
is_red diamonds = true
is_red _ = false

-- `evaluatePerfectPairs`
unfoldable pub evaluate_perfect_pairs : Card → Card → PerfectPairs
unfolding same_rank same_suit is_red
evaluate_perfect_pairs p1 p2 =
    if not (same_rank p1 p2)
    then no_pair
    else if same_suit p1 p2
    then perfect
    else if is_red p1.suit && is_red p2.suit || not (is_red p1.suit) && not (is_red p2.suit)
    then colored
    else mixed
