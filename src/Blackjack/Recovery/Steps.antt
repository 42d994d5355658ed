-- ===== src/Blackjack/Recovery/Steps.antt =====
-- What each call of apps/api/src/games/blackjack/blackjack.engine.ts writes of the stakes.
use scadium.Prelude.{
  ℕ, zero, suc, ◌+◌, ◌≡◌, inl, inr, refl, sym, subst, ◌∙◌, true, false, not, ◌&&◌, ◌||◌, Option,
  none, some, List, [], ◌∷◌, map, get_or, ◌==◌, length, if◌then◌else◌, arith, Bool-cases,
  Option-cases, ok, raise_if, bad_request, Check, >>=-eq-ok,
}
use scadium.Fair.Hash.{Crypto}
use scadium.Fair.Cards.{Card, hand_value, no_card}
use scadium.Blackjack.{
  Phase, HandStatus, Seat, SeatBet, TableState, RoundRow, bet_total, has_bet, seat_at, seat_of,
  delete_seat, filter_seats, betting_seats, same_phase, persist_betting_stakes, persist_snapshot,
}
use scadium.Blackjack.Seats.{give_up_seat}
use scadium.Blackjack.Betting.{
  Opening, put_bet, start_betting, open_betting, swap_exposure, clear_stake,
}
use scadium.Blackjack.Hands.{
  Action, play_turn, deal, deal_card, deal_cards, deal_sequence, draw_card, dealer_draws,
  dealer_fuel, dealer_turn, any_live, must_draw, push_card, sit_out, stays, resolve_side_bets,
  advance_turn, next_to_play, play_action, is_double, seat_to_act, turn_from, time_out,
}
use scadium.Blackjack.Facade.Stakes.{share, stakes, is_live, stakes-delete, stakes-map, seat_of-at}
use scadium.Blackjack.Facade.Moves.{not_live}
use scadium.Blackjack.Facade.Turns.{extra_of, seat_to_act-at, play_action-stakes}
use scadium.Blackjack.Hands.Log.{Distinct}
use scadium.Blackjack.Hands.Log.Turns.{time_out-cases, stood_up}
use scadium.Blackjack.Recovery.{
  round_seats, IsRecorded, persist_betting-IsRecorded, persist_snapshot-IsRecorded, IsRecorded-kept,
  update-stakes_same,
}

pub put_bet_first-IsRecorded :
    (env : Opening) (t : TableState) (rounds : List RoundRow) (index : ℕ) (bet : SeatBet) (prev : ℕ)
    {answer : ℕ}
    → (put_bet env true t rounds index bet prev).2 ≡ ok answer
    → IsRecorded
        (put_bet env true t rounds index bet prev).0
        (put_bet env true t rounds index bet prev).1
unfolding put_bet start_betting open_betting round_seats
put_bet_first-IsRecorded env t rounds index bet prev h =
    elim (Bool-cases (swap_exposure env.chain_enabled t prev (bet_total bet)).0) [
      | inr full ↦ absurd (ground arith)
      | inl fits ↦ elim (Bool-cases env.stored) [
        | inr failed ↦ absurd (ground arith)
        | inl stored ↦
            let own : (env.round_id == env.round_id) ≡ true = ground arith in
            elim (Bool-cases env.saved) [
              | inl saved ↦
                  rw (fits, put_bet)
                    (rw (stored, saved, start_betting)
                      (persist_betting-IsRecorded _ _ env.round_id [] refl (rw own refl)))
              | inr lost ↦ absurd (ground arith)
            ]
      ]
    ]

pub put_bet_more-IsRecorded :
    (env : Opening) (t : TableState) (rounds : List RoundRow) (index : ℕ) (bet : SeatBet) (prev : ℕ)
    → env.saved ≡ true
    → IsRecorded t rounds
    → IsRecorded
        (put_bet env false t rounds index bet prev).0
        (put_bet env false t rounds index bet prev).1
unfolding put_bet
put_bet_more-IsRecorded env t rounds index bet prev through h =
    elim (Bool-cases (swap_exposure env.chain_enabled t prev (bet_total bet)).0) [
      | inl fits ↦
          rw (fits, through, put_bet)
            (persist_betting-IsRecorded _ rounds h.id h.saved h.known h.stored)
      | inr full ↦ rw (full, put_bet) (IsRecorded-kept t _ rounds refl (λ j. refl) h)
    ]

pub clear_stake-IsRecorded :
    (t : TableState) (rounds : List RoundRow) (user_id : ℕ) {n : ℕ} {t' : TableState}
    {rows : List RoundRow}
    → clear_stake t rounds user_id ≡ ok (n, t', rows)
    → IsRecorded t rounds
    → IsRecorded t' rows
unfolding clear_stake
clear_stake-IsRecorded t rounds user_id {n} {t'} {rows} h r =
    elim (Bool-cases (same_phase t.phase Phase.betting)) [
      | inr closed ↦ absurd (ground arith)
      | inl betting ↦ elim (Option-cases (seat_of user_id t.seats)) [
        | inl gone ↦ absurd (ground arith)
        | inr (s, found) ↦ elim (Option-cases s.bet) [
          | inl no_stake ↦ absurd (ground arith)
          | inr (b, bet) ↦
              let id : t'.round_db_id ≡ t.round_db_id = ground arith in
              let wrote : rows ≡ persist_betting_stakes t' rounds = ground arith in
              rw wrote (persist_betting-IsRecorded t' rounds r.id r.saved (id ∙ r.known) r.stored)
        ]
      ]
    ]

pub give_up_seat-IsRecorded :
    (t : TableState) (rounds : List RoundRow) (user_id : ℕ) {n : ℕ} {t' : TableState}
    {rows : List RoundRow}
    → is_live t.phase ≡ true
    → Distinct t.seats
    → give_up_seat t rounds user_id ≡ ok (n, t', rows)
    → IsRecorded t rounds
    → IsRecorded t' rows
unfolding give_up_seat
give_up_seat-IsRecorded t rounds user_id {n} {t'} {rows} alive distinct h r =
    elim (Option-cases (seat_of user_id t.seats)) [
      | inl gone ↦ absurd (ground arith)
      | inr (s, found) ↦
          let (at, own) = seat_of-at user_id t.seats s distinct found in
          let id : t'.round_db_id ≡ t.round_db_id = ground arith in
          let seats : t'.seats ≡ delete_seat s.index t.seats = ground arith in
          elim (Option-cases s.bet) [
            | inl no_stake ↦
                let same : rows ≡ rounds = ground arith in
                rw same (
                  IsRecorded-kept t t' rounds id
                    (λ j.
                      let nothing : share j s ≡ 0 = rw no_stake (grind arith) in
                      rw seats (omega (arith, stakes-delete j s.index t.seats s at, nothing)))
                    r)
            | inr (b, bet) ↦ elim (Bool-cases (same_phase t.phase Phase.betting)) [
              | inl betting ↦
                  let wrote : rows ≡ persist_betting_stakes t' rounds = ground arith in
                  rw wrote
                    (persist_betting-IsRecorded t' rounds r.id r.saved (id ∙ r.known) r.stored)
              | inr closed ↦
                  let over : (same_phase t.phase Phase.idle || same_phase t.phase Phase.settled)
                      ≡ true =
                    ground arith in
                  let dead : is_live t.phase ≡ false = not_live t.phase over in
                  absurd (ground arith)
            ]
          ]
    ]

advance_turn-keeps :
    (from : ℕ) (t : TableState) (rows : List RoundRow)
    → IsRecorded t rows
    → IsRecorded (advance_turn from t) rows
unfolding advance_turn
advance_turn-keeps from t rows h = elim (Option-cases (next_to_play from (betting_seats t.seats))) [
  | inl over ↦ rw (over, advance_turn) (IsRecorded-kept t _ rows refl (λ j. refl) h)
  | inr (s, next) ↦ rw (next, advance_turn) (IsRecorded-kept t _ rows refl (λ j. refl) h)
]

deal_cards-keeps :
    (crypto : Crypto) (to : List (Option ℕ)) (t : TableState) (rows : List RoundRow)
    → IsRecorded t rows
    → IsRecorded (deal_cards crypto to t) rows
unfolding deal_cards deal_card draw_card
deal_cards-keeps crypto [] t rows h = h
deal_cards-keeps crypto (none ∷ to) t rows h =
    deal_cards-keeps crypto to (deal_card crypto none t) rows
      (IsRecorded-kept t _ rows refl (λ j. refl) h)
deal_cards-keeps crypto (some index ∷ to) t rows h =
    deal_cards-keeps crypto to (deal_card crypto (some index) t) rows (
      IsRecorded-kept t _ rows refl
        (λ j.
          update-stakes_same j index (push_card (draw_card crypto (some index) t).0) t.seats
            (λ s. refl))
        h)

pub resolve-share : (j : ℕ) (up : Card) (s : Seat) → share j (resolve_side_bets up s) ≡ share j s
unfolding resolve_side_bets
resolve-share j up s = elim (Option-cases s.bet) [ inl e ↦ rw e refl | inr (b, e) ↦ rw e refl ]

-- Seats that sat out and go hold no stake.
pub sat_out-stakes :
    (j : ℕ) (seats : List Seat) → stakes j (filter_seats stays (map sit_out seats)) ≡ stakes j seats
unfolding filter_seats has_bet stakes
sat_out-stakes j [] = refl
sat_out-stakes j (s ∷ seats) = elim (Option-cases s.bet) [
  | inl e ↦ elim (Bool-cases (stays (sit_out s))) [
    | inl keeps ↦ rw keeps (grind (arith, sat_out-stakes j seats, e))
    | inr goes ↦ rw goes (grind (arith, sat_out-stakes j seats, e))
  ]
  | inr (b, e) ↦ rw e (grind (arith, sat_out-stakes j seats))
]

pub deal-IsRecorded :
    (crypto : Crypto) (t : TableState) (rounds : List RoundRow)
    → IsRecorded t rounds
    → IsRecorded (deal crypto t rounds).0 (deal crypto t rounds).1
unfolding deal
deal-IsRecorded crypto t rounds h = split (betting_seats t.seats) refl
  where
    kept : TableState
    kept = record t { seats = filter_seats stays (map sit_out t.seats) }

    split :
        (players : List Seat)
        → betting_seats t.seats ≡ players
        → IsRecorded (deal crypto t rounds).0 (deal crypto t rounds).1
    split [] e = rw (e, deal) (IsRecorded-kept t _ rounds refl (λ j. sat_out-stakes j t.seats) h)
    split (p ∷ ps) e =
        let started : TableState = record kept { phase = Phase.dealing } in
        let rows = persist_snapshot started rounds in
        let dealt = deal_cards crypto (deal_sequence (p ∷ ps)) started in
        let up = get_or dealt.dealer_cards 0 no_card in
        rw (e, deal)
          (advance_turn-keeps 0 _ rows (
            IsRecorded-kept dealt _ rows refl
              (λ j. stakes-map j (resolve_side_bets up) dealt.seats (resolve-share j up))
              (deal_cards-keeps crypto (deal_sequence (p ∷ ps)) started rows
                (persist_snapshot-IsRecorded started rounds h.id h.saved h.known h.stored))))

play_action-id :
    (crypto : Crypto) (a : Action) (s : Seat) (t : TableState)
    → (play_action crypto a s t).round_db_id ≡ t.round_db_id
unfolding play_action draw_card
play_action-id crypto Action.hit s t = refl
play_action-id crypto Action.stand s t = refl
play_action-id crypto Action.double s t = refl

extra_free : (a : Action) (b : Option SeatBet) → is_double a ≡ false → extra_of a b ≡ 0
extra_free Action.hit b free = refl
extra_free Action.stand b free = refl
extra_free Action.double b free = cc

-- The rows after an action hold its stakes: a double is saved at once, and nothing else moves one.
played-IsRecorded :
    (crypto : Crypto) (a : Action) (s : Seat) (t : TableState) (rounds : List RoundRow)
    → seat_at s.index t.seats ≡ some s
    → IsRecorded t rounds
    → IsRecorded
        (play_action crypto a s t)
        (if is_double a then persist_snapshot (play_action crypto a s t) rounds else rounds)
played-IsRecorded crypto a s t rounds at h =
    let played = play_action crypto a s t in
    elim (Bool-cases (is_double a)) [
      | inl doubles ↦ rw doubles (
          persist_snapshot-IsRecorded played rounds h.id h.saved
            (play_action-id crypto a s t ∙ h.known) h.stored)
      | inr free ↦ rw free (
          IsRecorded-kept t played rounds (play_action-id crypto a s t)
            (λ j.
              let nothing : extra_of a s.bet ≡ 0 = extra_free a s.bet free in
              grind (arith, play_action-stakes crypto a s t j at, nothing))
            h)
    ]

pub play_turn-IsRecorded :
    (crypto : Crypto) (t : TableState) (rounds : List RoundRow) (user_id : ℕ) (a : Action)
    {t' : TableState} {rows : List RoundRow}
    → play_turn crypto t rounds user_id a ≡ ok (t', rows)
    → IsRecorded t rounds
    → IsRecorded t' rows
unfolding play_turn
play_turn-IsRecorded crypto t rounds user_id a {t'} {rows} e h =
    let (s, acts, e₁) = >>=-eq-ok (seat_to_act t user_id) _ e in
    let (u, early, e₂) =
      >>=-eq-ok
        (raise_if (is_double a && not (length s.cards == 2)) (bad_request Check.late_double)) _
        e₁ in
    let (turns, at, own) = seat_to_act-at t user_id s acts in
    let played = play_action crypto a s t in
    let table : advance_turn (turn_from s.index played) played ≡ t' = ground arith in
    let wrote : (if is_double a then persist_snapshot played rounds else rounds) ≡ rows =
      ground arith in
    subst (λ x. IsRecorded t' x) wrote
      (subst (λ x. IsRecorded x (if is_double a then persist_snapshot played rounds else rounds))
        table
        (advance_turn-keeps (turn_from s.index played) played _
          (played-IsRecorded crypto a s t rounds at h)))

pub time_out-IsRecorded :
    (index : ℕ) (t : TableState) (rows : List RoundRow)
    → IsRecorded t rows
    → IsRecorded (time_out index t) rows
time_out-IsRecorded index t rows h = elim (time_out-cases index t) [
  | inl e ↦ subst (λ x. IsRecorded x rows) (sym e) h
  | inr e ↦
      subst (λ x. IsRecorded x rows) (sym e)
        (advance_turn-keeps (index + 1) (stood_up index t) rows (
          IsRecorded-kept t (stood_up index t) rows refl
            (λ j.
              update-stakes_same j index (λ s. record s { status = HandStatus.standing }) t.seats
                (λ s. refl))
            h))
]

dealer_draws-keeps :
    (crypto : Crypto) (fuel : ℕ) (t : TableState) (rows : List RoundRow)
    → IsRecorded t rows
    → IsRecorded (dealer_draws crypto fuel t) rows
unfolding dealer_draws deal_card draw_card
dealer_draws-keeps crypto zero t rows h = h
dealer_draws-keeps crypto (suc fuel) t rows h =
    elim (Bool-cases (must_draw (hand_value t.dealer_cards))) [
      | inl more ↦
          rw (more, dealer_draws)
            (dealer_draws-keeps crypto fuel (deal_card crypto none t) rows
              (IsRecorded-kept t _ rows refl (λ j. refl) h))
      | inr done ↦ rw (done, dealer_draws) h
    ]

pub dealer_turn-IsRecorded :
    (crypto : Crypto) (t : TableState) (rows : List RoundRow)
    → IsRecorded t rows
    → IsRecorded (dealer_turn crypto t) rows
unfolding dealer_turn
dealer_turn-IsRecorded crypto t rows h =
    let shown : TableState = record t { dealer_hidden = false } in
    let start = IsRecorded-kept t shown rows refl (λ j. refl) h in
    elim (Bool-cases (any_live (betting_seats t.seats))) [
      | inl live ↦ rw (live, dealer_turn) (dealer_draws-keeps crypto dealer_fuel shown rows start)
      | inr dead ↦ rw (dead, dealer_turn) start
    ]
