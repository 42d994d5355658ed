-- ===== src/Blackjack/Hands.antt =====
-- The play of a round in apps/api/src/games/blackjack/blackjack.engine.ts: the deal, the turns of the seats
-- and the dealer's draw.
pub mod Log
pub mod Dealer
use scadium.Prelude.{
  ℕ, zero, suc, ◌+◌, ◌*◌, Bool, true, false, not, ◌&&◌, ◌||◌, Option, none, some, List, [], ◌∷◌,
  ◌++◌, map, get_or, length, ltb, leb, ◌==◌, if◌then◌else◌, Result, ok, err, ◌>>=◌, ◌>>◌, raise_if,
  or_raise, bad_request, unavailable, Check,
}
use scadium.Fair.Hash.{Crypto}
use scadium.Fair.Cards.{
  Card, no_card, blackjack_deal, hand_value, HandValue, is_blackjack, is_bust, evaluate_21_plus_3,
  evaluate_perfect_pairs,
}
use scadium.Blackjack.{
  Phase, HandStatus, SeatBet, Seat, DealLogEntry, TableState, RoundRow, same_phase, is_playing,
  has_bet, seat_at, update_seat, filter_seats, betting_seats, persist_snapshot, has_round, Answer,
}

-- `BLACKJACK.IDLE_ROUNDS_TO_UNSEAT`
abbrev pub idle_rounds_to_unseat : ℕ
idle_rounds_to_unseat = 3

abbrev pub push_card : Card → Seat → Seat
push_card card s = record s { cards = s.cards ++ card ∷ [] }

-- `drawCard`
unfoldable pub draw_card : Crypto → Option ℕ → TableState → Card × TableState
draw_card crypto dealt_to t =
    let i = t.deck_index in
    let card = get_or (blackjack_deal crypto t.deal_seed t.client_seed t.nonce (i + 1)) i no_card in
    (
      card,
      record t {
        deck_index = i + 1;
        deal_log = t.deal_log ++ record { deck_index = i; dealt_to = dealt_to; card = card } ∷ [];
      },
    )

-- A card to a seat, or to the dealer.
unfoldable pub deal_card : Crypto → Option ℕ → TableState → TableState
deal_card crypto none t =
    let (card, drawn) = draw_card crypto none t in
    record drawn { dealer_cards = drawn.dealer_cards ++ card ∷ [] }
deal_card crypto (some index) t =
    let (card, drawn) = draw_card crypto (some index) t in
    record drawn { seats = update_seat index (push_card card) drawn.seats }

-- The steps of `dealSequence` in order.
unfoldable pub deal_cards : Crypto → List (Option ℕ) → TableState → TableState
deal_cards crypto [] t = t
deal_cards crypto (to ∷ rest) t = deal_cards crypto rest (deal_card crypto to t)

abbrev pub deal_sequence : List Seat → List (Option ℕ)
deal_sequence players =
    let pass : List (Option ℕ) = map (λ (s : Seat). some s.index) players in
    pass ++ (none ∷ []) ++ pass ++ none ∷ []

-- A sit-out is counted; `stays` drops a seat that idled too long.
abbrev pub sit_out : Seat → Seat
sit_out s = elim s.bet [ none ↦ record s { idle_rounds = s.idle_rounds + 1 } | some b ↦ s ]

abbrev pub stays : Seat → Bool
stays s = has_bet s || ltb s.idle_rounds idle_rounds_to_unseat

-- The side bets, off the first two cards and the dealer's first; and a natural.
unfoldable pub resolve_side_bets : Card → Seat → Seat
resolve_side_bets dealer_up s = elim s.bet [
  | none ↦ s
  | some bet ↦
      let first = get_or s.cards 0 no_card in
      let second = get_or s.cards 1 no_card in
      record s {
        side_21p3_outcome =
            if ltb 0 bet.side_21p3_lamports
            then some (evaluate_21_plus_3 first second dealer_up)
            else s.side_21p3_outcome;
        side_perfect_pairs_outcome =
            if ltb 0 bet.side_perfect_pairs_lamports
            then some (evaluate_perfect_pairs first second)
            else s.side_perfect_pairs_outcome;
        status = if is_blackjack s.cards then HandStatus.blackjack else s.status;
      }
]

-- The first seat from `from` on, in the order of the seats, that still plays.
unfoldable pub next_to_play : ℕ → List Seat → Option Seat
next_to_play from [] = none
next_to_play from (s ∷ players) =
    if leb from s.index && is_playing s.status then some s else next_to_play from players

-- `advanceTurn`, for the seats from `from` on. With none left it enters `dealerTurn`, whose first statements
-- run at once.
unfoldable pub advance_turn : ℕ → TableState → TableState
advance_turn from t = elim (next_to_play from (betting_seats t.seats)) [
  | none ↦ record t { phase = Phase.dealer_turn; active_seat = none }
  | some s ↦ record t { active_seat = some s.index }
]

-- `deal`, which fires when the betting window closes.
unfoldable pub deal : Crypto → TableState → List RoundRow → TableState × List RoundRow
deal crypto t rounds =
    let players = betting_seats t.seats in
    let kept : TableState = record t { seats = filter_seats stays (map sit_out t.seats) } in
    elim players [
      | [] ↦ (record kept { phase = Phase.idle }, rounds)
      | p ∷ ps ↦
          let started : TableState = record kept { phase = Phase.dealing } in
          let dealt = deal_cards crypto (deal_sequence (p ∷ ps)) started in
          let dealer_up = get_or dealt.dealer_cards 0 no_card in
          (
            advance_turn 0 (record dealt {
              seats = map (resolve_side_bets dealer_up) dealt.seats;
              phase = Phase.player_turns;
            }),
            persist_snapshot started rounds,
          )
    ]

pub data Action : Type 0 where
  hit stand double : Action

abbrev pub is_double : Action → Bool
is_double double = true
is_double a = false

abbrev pub double_main : SeatBet → SeatBet
double_main b = record b { main_lamports = b.main_lamports * 2 }

-- The hand after the card of a hit or a double.
unfoldable pub after_card : Bool → Card → Seat → Seat
after_card doubling card s =
    let cards : List Card = s.cards ++ card ∷ [] in
    let bet : Option SeatBet =
      if doubling then elim s.bet [ none ↦ none | some b ↦ some (double_main b) ] else s.bet in
    record s {
      cards = cards;
      bet = bet;
      doubled = s.doubled || doubling;
      status =
          if is_bust cards
          then HandStatus.busted
          else if doubling
          then HandStatus.standing
          else if (hand_value cards).total == 21
          then HandStatus.standing
          else s.status;
    }

unfoldable pub play_action : Crypto → Action → Seat → TableState → TableState
play_action crypto stand seat t = record t {
  seats = update_seat seat.index (λ s. record s { status = HandStatus.standing }) t.seats;
}
play_action crypto a seat t =
    let (card, drawn) = draw_card crypto (some seat.index) t in
    record drawn { seats = update_seat seat.index (after_card (is_double a) card) drawn.seats }

-- Who may act: the seat on the clock, for its own user.
unfoldable pub seat_to_act : TableState → ℕ → Result Seat
seat_to_act t user_id =
    if same_phase t.phase Phase.player_turns
    then elim t.active_seat [
      | none ↦ err (bad_request Check.not_your_turn)
      | some index ↦ elim (seat_at index t.seats) [
        | none ↦ err (bad_request Check.not_your_turn)
        | some seat ↦
            if not (seat.user_id == user_id)
            then err (bad_request Check.not_your_turn)
            else if not (is_playing seat.status)
            then err (bad_request Check.hand_finished)
            else ok seat
      ]
    ]
    else err (bad_request Check.not_your_turn)

-- The turn after an action: the same seat keeps it while its hand plays.
unfoldable pub turn_from : ℕ → TableState → ℕ
turn_from index t = elim (seat_at index t.seats) [
  | none ↦ index + 1
  | some s ↦ if is_playing s.status then index else index + 1
]

-- `action` with its update of the row.
unfoldable pub play_turn :
    Crypto → TableState → List RoundRow → ℕ → Action → Result (TableState × List RoundRow)
play_turn crypto t rounds user_id a = do
  seat ← seat_to_act t user_id
  raise_if (is_double a && not (length seat.cards == 2)) (bad_request Check.late_double)
  let played = play_action crypto a seat t
  let rows = if is_double a then persist_snapshot played rounds else rounds
  ok (advance_turn (turn_from seat.index played) played, rows)

-- The table of an action whose update of the row fails: the hand has changed and the turn has not moved on.
unfoldable pub halted : Crypto → TableState → ℕ → Action → TableState
halted crypto t user_id a = elim (seat_to_act t user_id) [
  | err e ↦ t
  | ok seat ↦ play_action crypto a seat t
]

-- `action`: a double writes the row.
unfoldable pub act : Crypto → Bool → TableState → List RoundRow → ℕ → Action → Answer (Unit {0})
act crypto saved t rounds user_id a = elim (play_turn crypto t rounds user_id a) [
  | err e ↦ (t, rounds, err e)
  | ok (moved, rows) ↦
      if saved || not (has_round t && is_double a)
      then (moved, rows, ok tt)
      else (halted crypto t user_id a, rounds, err unavailable)
]

-- The timer of a turn: whoever is still on the clock stands.
unfoldable pub time_out : ℕ → TableState → TableState
time_out expected t =
    if same_phase t.phase Phase.player_turns
    then elim t.active_seat [
      | none ↦ t
      | some index ↦
          if index == expected
          then elim (seat_at expected t.seats) [
            | none ↦ t
            | some seat ↦
                if is_playing seat.status
                then advance_turn (expected + 1) (record t {
                  seats =
                      update_seat expected (λ s. record s { status = HandStatus.standing }) t.seats;
                })
                else t
          ]
          else t
    ]
    else t

-- The test of the dealer's loop; `DEALER_HITS_SOFT_17` is set.
unfoldable pub must_draw : HandValue → Bool
must_draw v = ltb v.total 17 || (v.total == 17 && v.soft)

-- The dealer's loop on fuel, which stands for the draws left.
unfoldable pub dealer_draws : Crypto → ℕ → TableState → TableState
dealer_draws crypto zero t = t
dealer_draws crypto (suc fuel) t =
    let rest = dealer_draws crypto fuel (deal_card crypto none t) in
    if must_draw (hand_value t.dealer_cards) then rest else t

-- Every draw adds at least 1 to the total, so 17 draws are enough.
abbrev pub dealer_fuel : ℕ
dealer_fuel = 17

abbrev pub can_win : HandStatus → Bool
can_win HandStatus.standing = true
can_win HandStatus.blackjack = true
can_win s = false

unfoldable pub any_live : List Seat → Bool
any_live [] = false
any_live (s ∷ players) = can_win s.status || any_live players

-- `dealerTurn` up to the settlement.
unfoldable pub dealer_turn : Crypto → TableState → TableState
dealer_turn crypto t =
    let shown : TableState = record t { dealer_hidden = false } in
    if any_live (betting_seats shown.seats) then dealer_draws crypto dealer_fuel shown else shown
