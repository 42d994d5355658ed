-- ===== src/Blackjack/Hands/Log/Turns.antt =====
-- The deal log over the deal, the turns and the dealer of apps/api/src/games/blackjack/blackjack.engine.ts.
use scadium.Prelude.{
  ℕ, zero, suc, ◌+◌, ◌≡◌, ◌⊎◌, inl, inr, refl, sym, subst, ◌∙◌, Bool, true, false, not, ◌&&◌, none,
  some, List, [], ◌∷◌, map, All, length, ◌==◌, arith, Bool-cases, Result-cases, Option-cases,
  get_or, ok, >>=-eq-ok, raise_if, bad_request, Check,
}
use scadium.Fair.Hash.{Crypto}
use scadium.Fair.Cards.{Card, no_card, hand_value, reproduce_hand}
use scadium.Blackjack.{
  Phase, HandStatus, Seat, TableState, RoundRow, has_bet, seat_at, update_seat, filter_seats,
  betting_seats, same_phase, is_playing,
}
use scadium.Blackjack.Hands.{
  draw_card, deal_card, deal_cards, deal_sequence, after_card, advance_turn, turn_from,
  resolve_side_bets, sit_out, stays, dealer_draws, dealer_turn, must_draw, any_live, dealer_fuel,
  play_action, Action, is_double, hit, stand, double, deal, play_turn, halted, time_out,
  seat_to_act,
}
use scadium.Blackjack.Hands.Log.{Distinct, IsLogged, deck_indices}
use scadium.Blackjack.Hands.Log.Deals.{IsHand, draw-IsLogged}
use scadium.Blackjack.Hands.Log.Steps.{
  KeepsHand, dealer_card-IsLogged, deal_cards-IsLogged, update-IsLogged, map-IsLogged,
  filter-IsLogged, advance_turn-IsLogged,
}

-- A table whose window has just closed: nothing is dealt.
pub record IsUndealt (t : TableState) : Type 0 where
  pub empty_log : t.deal_log ≡ []
  pub at_start : t.deck_index ≡ 0
  pub no_dealer : t.dealer_cards ≡ []
  pub no_cards : All (λ (s : Seat). s.cards ≡ []) t.seats
  pub distinct : Distinct t.seats

pub no_cards-hands :
    (crypto : Crypto) (t : TableState) (seats : List Seat)
    → t.deal_log ≡ []
    → All (λ (s : Seat). s.cards ≡ []) seats
    → All (IsHand crypto t) seats
unfolding deck_indices reproduce_hand
no_cards-hands crypto t [] e h = tt
no_cards-hands crypto t (s ∷ seats) e h = (λ bet. rw e h.0, no_cards-hands crypto t seats e h.1)

pub IsUndealt-IsLogged : (crypto : Crypto) (t : TableState) → IsUndealt t → IsLogged crypto t
unfolding deck_indices reproduce_hand
IsUndealt-IsLogged crypto t u = record {
  next = u.at_start ∙ rw u.empty_log refl;
  stream = rw u.empty_log tt;
  dealer = rw u.empty_log u.no_dealer;
  hands = no_cards-hands crypto t t.seats u.empty_log u.no_cards;
  distinct = u.distinct;
}

pub sit_out-KeepsHand : KeepsHand sit_out
unfolding has_bet
sit_out-KeepsHand = record {
  index = λ s. ground arith;
  cards = λ s. ground arith;
  bet = λ s. ground arith;
}

pub resolve-KeepsHand : (up : Card) → KeepsHand (resolve_side_bets up)
unfolding resolve_side_bets has_bet
resolve-KeepsHand up = record {
  index = λ s. ground arith;
  cards = λ s. ground arith;
  bet = λ s. ground arith;
}

pub stand-KeepsHand : KeepsHand (λ s. record s { status = HandStatus.standing })
unfolding has_bet
stand-KeepsHand = record { index = λ s. refl; cards = λ s. refl; bet = λ s. refl }

-- The phase and the clock do not touch the hands.
pub rephased :
    (crypto : Crypto) (p : Phase) (hidden : Bool) (t : TableState)
    → IsLogged crypto t
    → IsLogged crypto (record t { phase = p; dealer_hidden = hidden })
rephased crypto p hidden t k = record {
  next = k.next;
  stream = k.stream;
  dealer = k.dealer;
  hands = k.hands;
  distinct = k.distinct;
}

pub deal-IsLogged :
    (crypto : Crypto) (t : TableState) (rounds : List RoundRow)
    → IsUndealt t
    → IsLogged crypto (deal crypto t rounds).0
unfolding deal
deal-IsLogged crypto t rounds u = split (betting_seats t.seats) refl
  where
    kept : TableState
    kept = record t { seats = filter_seats stays (map sit_out t.seats) }

    kept-IsLogged : IsLogged crypto kept
    kept-IsLogged =
        filter-IsLogged crypto stays (record t { seats = map sit_out t.seats })
          (map-IsLogged crypto sit_out t sit_out-KeepsHand (IsUndealt-IsLogged crypto t u))

    split :
        (players : List Seat)
        → betting_seats t.seats ≡ players
        → IsLogged crypto (deal crypto t rounds).0
    split [] e = rw (e, deal) (rephased crypto Phase.idle kept.dealer_hidden kept kept-IsLogged)
    split (p ∷ ps) e =
        let started : TableState = record kept { phase = Phase.dealing } in
        let dealt = deal_cards crypto (deal_sequence (p ∷ ps)) started in
        let logged =
          deal_cards-IsLogged crypto (deal_sequence (p ∷ ps)) started
            (rephased crypto Phase.dealing kept.dealer_hidden kept kept-IsLogged) in
        let up = get_or dealt.dealer_cards 0 no_card in
        let resolved : TableState = record dealt {
          seats = map (resolve_side_bets up) dealt.seats;
        } in
        let ready : TableState = record resolved { phase = Phase.player_turns } in
        rw (e, deal)
          (advance_turn-IsLogged crypto 0 ready (
            rephased crypto Phase.player_turns resolved.dealer_hidden resolved
              (map-IsLogged crypto (resolve_side_bets up) dealt (resolve-KeepsHand up) logged)))

pub after_card-bet : (d : Bool) (c : Card) (s : Seat) → has_bet (after_card d c s) ≡ has_bet s
unfolding after_card has_bet
after_card-bet d c s = ground arith

pub play_action-IsLogged :
    (crypto : Crypto) (a : Action) (seat : Seat) (t : TableState)
    → IsLogged crypto t
    → IsLogged crypto (play_action crypto a seat t)
unfolding play_action after_card
play_action-IsLogged crypto stand seat t h =
    update-IsLogged crypto seat.index (λ s. record s { status = HandStatus.standing }) t
      stand-KeepsHand h
play_action-IsLogged crypto hit seat t h =
    draw-IsLogged crypto seat.index (after_card false (draw_card crypto (some seat.index) t).0) t
      (λ s. refl) (after_card-bet false (draw_card crypto (some seat.index) t).0) (λ s. refl) h
play_action-IsLogged crypto double seat t h =
    draw-IsLogged crypto seat.index (after_card true (draw_card crypto (some seat.index) t).0) t
      (λ s. refl) (after_card-bet true (draw_card crypto (some seat.index) t).0) (λ s. refl) h

pub play_turn-IsLogged :
    (crypto : Crypto) (t : TableState) (rounds rows : List RoundRow) (user_id : ℕ) (a : Action)
    {t' : TableState}
    → IsLogged crypto t
    → play_turn crypto t rounds user_id a ≡ ok (t', rows)
    → IsLogged crypto t'
unfolding play_turn
play_turn-IsLogged crypto t rounds rows user_id a {t'} h e =
    let (seat, found, e₁) = >>=-eq-ok (seat_to_act t user_id) _ e in
    let (u, early, e₂) =
      >>=-eq-ok
        (raise_if (is_double a && not (length seat.cards == 2)) (bad_request Check.late_double)) _
        e₁ in
    let played = play_action crypto a seat t in
    let same : advance_turn (turn_from seat.index played) played ≡ t' = ground arith in
    subst (IsLogged crypto) same (
      advance_turn-IsLogged crypto (turn_from seat.index played) played
        (play_action-IsLogged crypto a seat t h))

pub halted-IsLogged :
    (crypto : Crypto) (t : TableState) (user_id : ℕ) (a : Action)
    → IsLogged crypto t
    → IsLogged crypto (halted crypto t user_id a)
unfolding halted
halted-IsLogged crypto t user_id a h = elim (Result-cases (seat_to_act t user_id)) [
  | inr (e, refused) ↦ rw (refused, halted) h
  | inl (s, acts) ↦ rw (acts, halted) (play_action-IsLogged crypto a s t h)
]

abbrev pub stood_up : ℕ → TableState → TableState
stood_up index t = record t {
  seats = update_seat index (λ s. record s { status = HandStatus.standing }) t.seats;
}

pub time_out-cases :
    (index : ℕ) (t : TableState)
    → (time_out index t ≡ t) ⊎ (time_out index t ≡ advance_turn (index + 1) (stood_up index t))
unfolding time_out
time_out-cases index t = elim (Bool-cases (same_phase t.phase Phase.player_turns)) [
  | inr no_turn ↦ inl (ground arith)
  | inl turn ↦ elim (Option-cases t.active_seat) [
    | inl e ↦ inl (ground arith)
    | inr (i, e) ↦ elim (Bool-cases (i == index)) [
      | inr other ↦ inl (ground arith)
      | inl own ↦ elim (Option-cases (seat_at index t.seats)) [
        | inl gone ↦ inl (ground arith)
        | inr (s, found) ↦ elim (Bool-cases (is_playing s.status)) [
          | inl plays ↦ inr (ground arith)
          | inr stopped ↦ inl (ground arith)
        ]
      ]
    ]
  ]
]

pub time_out-IsLogged :
    (crypto : Crypto) (index : ℕ) (t : TableState)
    → IsLogged crypto t
    → IsLogged crypto (time_out index t)
time_out-IsLogged crypto index t h = elim (time_out-cases index t) [
  | inl e ↦ subst (IsLogged crypto) (sym e) h
  | inr e ↦ subst (IsLogged crypto) (sym e) (
      advance_turn-IsLogged crypto (index + 1) (stood_up index t) (
        update-IsLogged crypto index (λ s. record s { status = HandStatus.standing }) t
          stand-KeepsHand h))
]

pub dealer_draws-IsLogged :
    (crypto : Crypto) (fuel : ℕ) (t : TableState)
    → IsLogged crypto t
    → IsLogged crypto (dealer_draws crypto fuel t)
unfolding dealer_draws
dealer_draws-IsLogged crypto zero t h = h
dealer_draws-IsLogged crypto (suc fuel) t h =
    elim (Bool-cases (must_draw (hand_value t.dealer_cards))) [
      | inr done ↦ rw (done, dealer_draws) h
      | inl more ↦
          rw (more, dealer_draws)
            (dealer_draws-IsLogged crypto fuel (deal_card crypto none t)
              (dealer_card-IsLogged crypto t h))
    ]

pub dealer_turn-IsLogged :
    (crypto : Crypto) (t : TableState) → IsLogged crypto t → IsLogged crypto (dealer_turn crypto t)
unfolding dealer_turn
dealer_turn-IsLogged crypto t h =
    let shown : TableState = record t { dealer_hidden = false } in
    let open_hand = rephased crypto t.phase false t h in
    elim (Bool-cases (any_live (betting_seats t.seats))) [
      | inl live ↦ rw (live, dealer_turn) (dealer_draws-IsLogged crypto dealer_fuel shown open_hand)
      | inr dead ↦ rw (dead, dealer_turn) open_hand
    ]
