-- ===== src/Blackjack/Tables/Hands.antt =====
-- What the play of a hand, in apps/api/src/games/blackjack/blackjack.engine.ts, does to the seats.
use scadium.Prelude.{
  ℕ, zero, suc, ◌+◌, ◌≡◌, ◌≢◌, inl, inr, refl, sym, subst, ◌∙◌, true, false, not, ◌&&◌, Option,
  none, some, List, [], ◌∷◌, map, length, ◌==◌, arith, Bool-cases, Result-cases, Option-cases, ok,
  raise_if, bad_request, Check, >>=-eq-ok,
}
use scadium.Fair.Hash.{Crypto}
use scadium.Fair.Cards.{hand_value}
use scadium.Blackjack.{Phase, HandStatus, Seat, TableState, RoundRow, filter_seats, betting_seats}
use scadium.Blackjack.Betting.{clear_bet_of}
use scadium.Blackjack.Hands.{
  Action, play_turn, halted, deal, deal_card, deal_cards, deal_sequence, draw_card, dealer_draws,
  dealer_fuel, dealer_turn, any_live, must_draw, push_card, sit_out, stays, resolve_side_bets,
  advance_turn, next_to_play, play_action, after_card, is_double, seat_to_act, turn_from, time_out,
}
use scadium.Blackjack.Tables.{
  Apart, IsSound, Shrinks-Apart, map-Shrinks, update-Shrinks, filter-Shrinks,
}
use scadium.Blackjack.Tables.Steps.{in_round}
use scadium.Fair.Cards.{no_card}
use scadium.Prelude.{get_or}
use scadium.Blackjack.Settlement.{settle_seat, settle_hands, end_pause}
use scadium.Blackjack.Facade.Turns.{seat_to_act-at, play_action-phase}
use scadium.Blackjack.Hands.Log.Turns.{time_out-cases, stood_up}
use scadium.Blackjack.Tables.Changes.{
  KeepsSeat, update-NoBet, filter-NoBet, map-NoBet, map-cleared, none_bet, sit_out-KeepsSeat,
  resolve-KeepsPlace, settle_seat-KeepsPlace,
}

deal_card-Apart :
    (crypto : Crypto) (to : Option ℕ) (t : TableState)
    → Apart t.seats
    → Apart (deal_card crypto to t).seats
unfolding deal_card draw_card
deal_card-Apart crypto none t h = h
deal_card-Apart crypto (some index) t h =
    Shrinks-Apart
      (update-Shrinks index (push_card (draw_card crypto (some index) t).0) t.seats
        (record { index = λ s. refl; user = λ s. refl }))
      h

deal_cards-Apart :
    (crypto : Crypto) (to : List (Option ℕ)) (t : TableState)
    → Apart t.seats
    → Apart (deal_cards crypto to t).seats
unfolding deal_cards
deal_cards-Apart crypto [] t h = h
deal_cards-Apart crypto (x ∷ to) t h =
    deal_cards-Apart crypto to (deal_card crypto x t) (deal_card-Apart crypto x t h)

advance_turn-IsSound : (from : ℕ) (t : TableState) → IsSound t → IsSound (advance_turn from t)
unfolding advance_turn
advance_turn-IsSound from t h = elim (Option-cases (next_to_play from (betting_seats t.seats))) [
  | inl over ↦ rw (over, advance_turn) (in_round _ (λ idle. cc) h.apart)
  | inr (s, next) ↦ rw (next, advance_turn) (record { apart = h.apart; clear = h.clear })
]

pub deal-IsSound :
    (crypto : Crypto) (t : TableState) (rounds : List RoundRow)
    → IsSound t
    → IsSound (deal crypto t rounds).0
unfolding deal
deal-IsSound crypto t rounds h = split (betting_seats t.seats) refl
  where
    sat_out : List Seat
    sat_out = map sit_out t.seats

    kept : TableState
    kept = record t { seats = filter_seats stays sat_out }

    kept-Apart : Apart kept.seats
    kept-Apart =
        Shrinks-Apart (filter-Shrinks stays sat_out)
          (Shrinks-Apart (map-Shrinks sit_out t.seats sit_out-KeepsSeat.place) h.apart)

    split :
        (players : List Seat) → betting_seats t.seats ≡ players → IsSound (deal crypto t rounds).0
    split [] e =
        rw (e, deal)
          (record {
            apart = kept-Apart;
            clear = λ idle.
                filter-NoBet stays sat_out
                  (map-NoBet sit_out t.seats sit_out-KeepsSeat (none_bet t.seats e));
          })
    split (p ∷ ps) e =
        let started : TableState = record kept { phase = Phase.dealing } in
        let dealt = deal_cards crypto (deal_sequence (p ∷ ps)) started in
        let up = get_or dealt.dealer_cards 0 no_card in
        rw (e, deal)
          (advance_turn-IsSound 0
            (record dealt {
              seats = map (resolve_side_bets up) dealt.seats;
              phase = Phase.player_turns;
            })
            (in_round _ (λ idle. cc)
              (Shrinks-Apart
                (map-Shrinks (resolve_side_bets up) dealt.seats (resolve-KeepsPlace up))
                (deal_cards-Apart crypto (deal_sequence (p ∷ ps)) started kept-Apart))))

turns_idle : Phase.player_turns ≢ Phase.idle
turns_idle e = cc

play_action-Apart :
    (crypto : Crypto) (a : Action) (s : Seat) (t : TableState)
    → Apart t.seats
    → Apart (play_action crypto a s t).seats
unfolding play_action draw_card after_card
play_action-Apart crypto Action.stand s t h =
    Shrinks-Apart
      (update-Shrinks s.index (λ x. record x { status = HandStatus.standing }) t.seats
        (record { index = λ x. refl; user = λ x. refl }))
      h
play_action-Apart crypto Action.hit s t h =
    Shrinks-Apart
      (update-Shrinks s.index (after_card false (draw_card crypto (some s.index) t).0) t.seats
        (record { index = λ x. refl; user = λ x. refl }))
      h
play_action-Apart crypto Action.double s t h =
    Shrinks-Apart
      (update-Shrinks s.index (after_card true (draw_card crypto (some s.index) t).0) t.seats
        (record { index = λ x. refl; user = λ x. refl }))
      h

pub play_turn-IsSound :
    (crypto : Crypto) (t : TableState) (rounds : List RoundRow) (user_id : ℕ) (a : Action)
    {t' : TableState} {rows : List RoundRow}
    → play_turn crypto t rounds user_id a ≡ ok (t', rows)
    → IsSound t
    → IsSound t'
unfolding play_turn
play_turn-IsSound crypto t rounds user_id a {t'} e h =
    let (s, acts, e₁) = >>=-eq-ok (seat_to_act t user_id) _ e in
    let (u, early, e₂) =
      >>=-eq-ok
        (raise_if (is_double a && not (length s.cards == 2)) (bad_request Check.late_double)) _
        e₁ in
    let (turns, at, own) = seat_to_act-at t user_id s acts in
    let played = play_action crypto a s t in
    let same : advance_turn (turn_from s.index played) played ≡ t' = ground arith in
    subst IsSound same (
      advance_turn-IsSound (turn_from s.index played) played (
        in_round played
          (λ idle. turns_idle (sym turns ∙ sym (play_action-phase crypto a s t) ∙ idle))
          (play_action-Apart crypto a s t h.apart)))

pub halted-IsSound :
    (crypto : Crypto) (t : TableState) (user_id : ℕ) (a : Action)
    → IsSound t
    → IsSound (halted crypto t user_id a)
unfolding halted
halted-IsSound crypto t user_id a h = elim (Result-cases (seat_to_act t user_id)) [
  | inr (e, refused) ↦ rw (refused, halted) h
  | inl (s, acts) ↦
      let (turns, at, own) = seat_to_act-at t user_id s acts in
      rw (acts, halted)
        (in_round (play_action crypto a s t)
          (λ idle. turns_idle (sym turns ∙ sym (play_action-phase crypto a s t) ∙ idle))
          (play_action-Apart crypto a s t h.apart))
]

pub time_out-IsSound : (index : ℕ) (t : TableState) → IsSound t → IsSound (time_out index t)
time_out-IsSound index t h = elim (time_out-cases index t) [
  | inl e ↦ subst IsSound (sym e) h
  | inr e ↦
      let stand : Seat → Seat = λ s. record s { status = HandStatus.standing } in
      let keeps : KeepsSeat stand = record {
        place = record { index = λ s. refl; user = λ s. refl };
        no_bet = λ s n. n;
      } in
      subst IsSound (sym e) (
        advance_turn-IsSound (index + 1) (stood_up index t) (record {
          apart = Shrinks-Apart (update-Shrinks index stand t.seats keeps.place) h.apart;
          clear = λ idle. update-NoBet index stand t.seats keeps (h.clear idle);
        }))
]

dealer_draws-IsSound :
    (crypto : Crypto) (fuel : ℕ) (t : TableState) → IsSound t → IsSound (dealer_draws crypto fuel t)
unfolding dealer_draws deal_card draw_card
dealer_draws-IsSound crypto zero t h = h
dealer_draws-IsSound crypto (suc fuel) t h =
    elim (Bool-cases (must_draw (hand_value t.dealer_cards))) [
      | inl more ↦
          rw (more, dealer_draws)
            (dealer_draws-IsSound crypto fuel (deal_card crypto none t)
              (record { apart = h.apart; clear = h.clear }))
      | inr done ↦ rw (done, dealer_draws) h
    ]

pub dealer_turn-IsSound :
    (crypto : Crypto) (t : TableState) → IsSound t → IsSound (dealer_turn crypto t)
unfolding dealer_turn
dealer_turn-IsSound crypto t h =
    let shown : TableState = record t { dealer_hidden = false } in
    let start : IsSound shown = record { apart = h.apart; clear = h.clear } in
    elim (Bool-cases (any_live (betting_seats t.seats))) [
      | inl live ↦ rw (live, dealer_turn) (dealer_draws-IsSound crypto dealer_fuel shown start)
      | inr dead ↦ rw (dead, dealer_turn) start
    ]

pub settle_hands-IsSound : (t : TableState) → IsSound t → IsSound (settle_hands t)
unfolding settle_hands
settle_hands-IsSound t h =
    in_round _ (λ idle. cc)
      (Shrinks-Apart
        (map-Shrinks (settle_seat t.dealer_cards) t.seats (settle_seat-KeepsPlace t.dealer_cards))
        h.apart)

pub end_pause-IsSound : (t : TableState) → IsSound t → IsSound (end_pause t)
unfolding end_pause
end_pause-IsSound t h = split t.phase refl
  where
    split : (p : Phase) → t.phase ≡ p → IsSound (end_pause t)
    split Phase.settled e =
        rw (e, end_pause)
          (record {
            apart =
                Shrinks-Apart
                  (map-Shrinks clear_bet_of t.seats
                    (record { index = λ s. refl; user = λ s. refl }))
                  h.apart;
            clear = λ idle. map-cleared t.seats;
          })
    split Phase.idle e = rw (e, end_pause) (record { apart = h.apart; clear = λ idle. h.clear e })
    split Phase.betting e = rw (e, end_pause) (in_round _ (λ idle. cc) h.apart)
    split Phase.dealing e = rw (e, end_pause) (in_round _ (λ idle. cc) h.apart)
    split Phase.player_turns e = rw (e, end_pause) (in_round _ (λ idle. cc) h.apart)
    split Phase.dealer_turn e = rw (e, end_pause) (in_round _ (λ idle. cc) h.apart)
