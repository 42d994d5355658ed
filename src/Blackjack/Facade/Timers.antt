-- ===== src/Blackjack/Facade/Timers.antt =====
-- What the timers of apps/api/src/games/blackjack/blackjack.engine.ts, and a player who sits down, leave of the
-- stakes, until the hands are settled.
use scadium.Prelude.{
  ℕ, zero, suc, ◌≡◌, inl, inr, refl, sym, ap, ◌∙◌, true, false, Option, none, some, List, [], ◌∷◌,
  ◌++◌, map, arith, get_or, Bool-cases, Option-cases, ok, ◌+◌, if◌then◌else◌,
}
use scadium.Fair.Hash.{Crypto}
use scadium.Fair.Cards.{no_card, hand_value}
use scadium.Blackjack.{
  Phase, HandStatus, Seat, TableState, RoundRow, same_phase, betting_seats, filter_seats,
  sort_seats, insert_seat, has_bet, seat_at,
}
use scadium.Blackjack.Seats.{take_seat, new_seat}
use scadium.Blackjack.Hands.{
  deal, deal_card, deal_cards, deal_sequence, draw_card, push_card, sit_out, stays,
  resolve_side_bets, time_out, dealer_turn, dealer_draws, dealer_fuel, must_draw, any_live,
}
use scadium.Blackjack.Hands.Log.Turns.{stood_up, time_out-cases}
use scadium.Blackjack.Facade.Stakes.{stakes, is_live, live, stakes-map}
use scadium.Blackjack.Facade.Moves.{same_phase_eq}
use scadium.Blackjack.Facade.Turns.{advance_turn-live}
use scadium.Blackjack.Recovery.{filter-stakes, update-stakes_same}
use scadium.Blackjack.Recovery.Steps.{sat_out-stakes, resolve-share}
use scadium.Blackjack.Recovery.Runs.{append-stakes}

pub take_seat-live :
    (t : TableState) (index user_id : ℕ) {t' : TableState}
    → take_seat t index user_id ≡ ok t'
    → (j : ℕ) → live t' j ≡ live t j
unfolding take_seat
take_seat-live t index user_id {t'} e j = elim (Option-cases (seat_at index t.seats)) [
  | inr (s, taken) ↦ absurd (ground arith)
  | inl free ↦
      let same : record t { seats = t.seats ++ new_seat index user_id ∷ [] } ≡ t' = ground arith in
      ap (λ x. live x j) (sym same)
      ∙ ap (λ n. if is_live t.phase then n else 0) (append-stakes j t.seats index user_id)
]

pub time_out-live : (index : ℕ) (t : TableState) (j : ℕ) → live (time_out index t) j ≡ live t j
unfolding time_out
time_out-live index t j = elim (Bool-cases (same_phase t.phase Phase.player_turns)) [
  | inr other ↦ rw (other, time_out) refl
  | inl turns ↦ elim (time_out-cases index t) [
    | inl e ↦ ap (λ x. live x j) e
    | inr e ↦
        let phase = same_phase_eq t.phase Phase.player_turns turns in
        let alive : is_live t.phase ≡ true = ap is_live phase in
        ap (λ x. live x j) e
        ∙ advance_turn-live (index + 1) (stood_up index t) j phase
        ∙ update-stakes_same j index (λ s. record s { status = HandStatus.standing }) t.seats
            (λ s. refl)
        ∙ rw alive refl
  ]
]

insert_none : (s : Seat) (seats : List Seat) → insert_seat s seats ≡ [] → s ∷ seats ≡ []
unfolding insert_seat
insert_none s [] e = e
insert_none s (x ∷ seats) e = ground arith

sort_none : (seats : List Seat) → sort_seats seats ≡ [] → seats ≡ []
unfolding sort_seats
sort_none [] e = refl
sort_none (s ∷ seats) e = absurd (let more = insert_none s (sort_seats seats) e in cc)

no_players-stakes : (seats : List Seat) (j : ℕ) → betting_seats seats ≡ [] → stakes j seats ≡ 0
unfolding betting_seats stakes
no_players-stakes seats j e =
    sym (filter-stakes j seats) ∙ ap (stakes j) (sort_none (filter_seats has_bet seats) e)

deal_cards-stakes :
    (crypto : Crypto) (to : List (Option ℕ)) (t : TableState) (j : ℕ)
    → stakes j (deal_cards crypto to t).seats ≡ stakes j t.seats
unfolding deal_cards deal_card draw_card
deal_cards-stakes crypto [] t j = refl
deal_cards-stakes crypto (none ∷ to) t j = deal_cards-stakes crypto to (deal_card crypto none t) j
deal_cards-stakes crypto (some index ∷ to) t j =
    deal_cards-stakes crypto to (deal_card crypto (some index) t) j
    ∙ update-stakes_same j index (push_card (draw_card crypto (some index) t).0) t.seats (λ s. refl)

-- The end of a betting window.
pub deal-live :
    (crypto : Crypto) (t : TableState) (rounds : List RoundRow)
    → t.phase ≡ Phase.betting
    → (j : ℕ) → live (deal crypto t rounds).0 j ≡ live t j
unfolding deal
deal-live crypto t rounds betting j = split (betting_seats t.seats) refl
  where
    alive : is_live t.phase ≡ true
    alive = ap is_live betting

    split :
        (players : List Seat)
        → betting_seats t.seats ≡ players
        → live (deal crypto t rounds).0 j ≡ live t j
    split [] e = rw (e, deal) (rw alive (sym (no_players-stakes t.seats j e)))
    split (p ∷ ps) e =
        let started : TableState = record t {
          seats = filter_seats stays (map sit_out t.seats);
          phase = Phase.dealing;
        } in
        let dealt = deal_cards crypto (deal_sequence (p ∷ ps)) started in
        let up = get_or dealt.dealer_cards 0 no_card in
        rw (e, deal)
          (advance_turn-live 0 _ j refl
            ∙ stakes-map j (resolve_side_bets up) dealt.seats (resolve-share j up)
            ∙ deal_cards-stakes crypto (deal_sequence (p ∷ ps)) started j
            ∙ sat_out-stakes j t.seats
            ∙ rw alive refl)

dealer_draws-live :
    (crypto : Crypto) (fuel : ℕ) (t : TableState) (j : ℕ)
    → live (dealer_draws crypto fuel t) j ≡ live t j
unfolding dealer_draws deal_card draw_card
dealer_draws-live crypto zero t j = refl
dealer_draws-live crypto (suc fuel) t j =
    elim (Bool-cases (must_draw (hand_value t.dealer_cards))) [
      | inl more ↦
          rw (more, dealer_draws) (dealer_draws-live crypto fuel (deal_card crypto none t) j)
      | inr done ↦ rw (done, dealer_draws) refl
    ]

pub dealer_turn-live :
    (crypto : Crypto) (t : TableState) (j : ℕ) → live (dealer_turn crypto t) j ≡ live t j
unfolding dealer_turn
dealer_turn-live crypto t j =
    let shown : TableState = record t { dealer_hidden = false } in
    elim (Bool-cases (any_live (betting_seats t.seats))) [
      | inl plays ↦ rw (plays, dealer_turn) (dealer_draws-live crypto dealer_fuel shown j)
      | inr over ↦ rw (over, dealer_turn) refl
    ]
