-- ===== src/Blackjack/Facade/Turns.antt =====
-- What `action` of apps/api/src/games/blackjack/blackjack.engine.ts does to the stakes.
use scadium.Ledger.Worth.{to_user}
use scadium.Prelude.{
  ℕ, ◌+◌, ◌≡◌, inl, inr, refl, sym, subst, ap, ◌∙◌, true, false, not, ◌&&◌, Option, none, some,
  List, [], ◌∷◌, ◌==◌, length, arith, Bool-cases, Option-cases, ok, >>=-eq-ok,
}
use scadium.Fair.Hash.{Crypto}
use scadium.Fair.Cards.{Card}
use scadium.Blackjack.{
  Phase, HandStatus, Seat, SeatBet, TableState, RoundRow, bet_total, seat_at, seat_of, same_phase,
  betting_seats,
}
use scadium.Blackjack.Hands.{
  Action, is_double, play_turn, play_action, after_card, draw_card, advance_turn, next_to_play,
  turn_from, seat_to_act,
}
use scadium.Blackjack.Facade.Stakes.{share, stakes, is_live, live, stakes-update}
use scadium.Blackjack.Facade.Bets.{IsTable}
use scadium.Blackjack.Facade.Moves.{same_phase_eq}

-- What an action asks of its user on top: a double the main stake again.
abbrev pub extra_of : Action → Option SeatBet → ℕ
extra_of Action.double (some b) = b.main_lamports
extra_of Action.double none = 0
extra_of a b = 0

index_of :
    (index : ℕ) (seats : List Seat) (s : Seat) → seat_at index seats ≡ some s → s.index ≡ index
unfolding seat_at
index_of index [] s h = cc
index_of index (x ∷ seats) s h = elim (Bool-cases (x.index == index)) [
  | inl e ↦ let same : x ≡ s = ground arith in rw (← same) (ground arith)
  | inr e ↦ index_of index seats s (ground arith)
]

-- The seat that may act stands at its index, in the turns of the players.
pub seat_to_act-at :
    (t : TableState) (user_id : ℕ) (s : Seat)
    → seat_to_act t user_id ≡ ok s
    → (t.phase ≡ Phase.player_turns) × (seat_at s.index t.seats ≡ some s) × (s.user_id ≡ user_id)
unfolding seat_to_act
seat_to_act-at t user_id s h = elim (Bool-cases (same_phase t.phase Phase.player_turns)) [
  | inr closed ↦ absurd (ground arith)
  | inl turns ↦ elim (Option-cases t.active_seat) [
    | inl nobody ↦ absurd (ground arith)
    | inr (index, active) ↦ elim (Option-cases (seat_at index t.seats)) [
      | inl empty ↦ absurd (ground arith)
      | inr (seat, found) ↦
          let same : seat ≡ s = ground arith in
          let at : seat_at index t.seats ≡ some s = rw (found, same) refl in
          let own : s.user_id ≡ user_id = ground arith in
          (
            same_phase_eq t.phase Phase.player_turns turns,
            subst (λ i. seat_at i t.seats ≡ some s) (sym (index_of index t.seats s at)) at,
            own,
          )
    ]
  ]
]

share-after_card :
    (j : ℕ) (a : Action) (card : Card) (s : Seat)
    → share j (after_card (is_double a) card s) ≡ share j s + to_user s.user_id (extra_of a s.bet) j
unfolding after_card bet_total
share-after_card j Action.hit card s = grind arith
share-after_card j Action.stand card s = grind arith
share-after_card j Action.double card s = elim (Option-cases s.bet) [
  | inl no_bet ↦ rw no_bet (grind arith)
  | inr (b, bet) ↦ rw bet (grind arith)
]

pub play_action-stakes :
    (crypto : Crypto) (a : Action) (s : Seat) (t : TableState) (j : ℕ)
    → seat_at s.index t.seats ≡ some s
    → stakes j (play_action crypto a s t).seats
      ≡ stakes j t.seats + to_user s.user_id (extra_of a s.bet) j
unfolding play_action draw_card
play_action-stakes crypto Action.stand s t j at =
    grind
      (arith, stakes-update j s.index (λ x. record x { status = HandStatus.standing }) t.seats s at)
play_action-stakes crypto Action.hit s t j at =
    let (card, drawn) = draw_card crypto (some s.index) t in
    grind (
      arith,
      stakes-update j s.index (after_card false card) t.seats s at,
      share-after_card j Action.hit card s,
    )
play_action-stakes crypto Action.double s t j at =
    let (card, drawn) = draw_card crypto (some s.index) t in
    grind (
      arith,
      stakes-update j s.index (after_card true card) t.seats s at,
      share-after_card j Action.double card s,
    )

pub play_action-phase :
    (crypto : Crypto) (a : Action) (s : Seat) (t : TableState)
    → (play_action crypto a s t).phase ≡ t.phase
unfolding play_action draw_card
play_action-phase crypto Action.hit s t = refl
play_action-phase crypto Action.stand s t = refl
play_action-phase crypto Action.double s t = refl

pub advance_turn-live :
    (from : ℕ) (t : TableState) (j : ℕ)
    → t.phase ≡ Phase.player_turns
    → live (advance_turn from t) j ≡ stakes j t.seats
unfolding advance_turn
advance_turn-live from t j turns = elim (Option-cases (next_to_play from (betting_seats t.seats))) [
  | inl over ↦ rw (over, advance_turn) refl
  | inr (s, next) ↦ rw (next, advance_turn) (rw (ap is_live turns) refl)
]

pub play_turn-live :
    (crypto : Crypto) (t : TableState) (rounds : List RoundRow) (user_id : ℕ) (a : Action)
    {t' : TableState} {rows : List RoundRow}
    → IsTable t
    → play_turn crypto t rounds user_id a ≡ ok (t', rows)
    → (s : Seat) × (seat_of user_id t.seats ≡ some s)
      × ((j : ℕ) → live t' j ≡ live t j + to_user user_id (extra_of a s.bet) j)
unfolding play_turn
play_turn-live crypto t rounds user_id a {t'} table h =
    let (s, acts, rest) = >>=-eq-ok (seat_to_act t user_id) _ h in
    let (turns, at, own) = seat_to_act-at t user_id s acts in
    let played = play_action crypto a s t in
    let next : t' ≡ advance_turn (turn_from s.index played) played =
      elim (Bool-cases (is_double a && not (length s.cards == 2))) [
        | inl late ↦ absurd (ground arith)
        | inr in_time ↦ ground arith
      ] in
    (
      s,
      rw (← own) (table.single s.index s at),
      λ j.
          ap (λ x. live x j) next
          ∙ advance_turn-live (turn_from s.index played) played j
              (play_action-phase crypto a s t ∙ turns)
          ∙ play_action-stakes crypto a s t j at
          ∙ rw (own, ap is_live turns) refl,
    )
