-- ===== src/Blackjack/Facade/Bets.antt =====
-- What a bet that the table takes, or refuses, does to the stakes: `placeBet` of
-- apps/api/src/games/blackjack/blackjack.engine.ts.
use scadium.Ledger.Worth.{to_user}
use scadium.Prelude.{
  ℕ, ◌+◌, ◌≡◌, inl, inr, refl, subst, ap, ◌∙◌, true, false, ◌||◌, some, List, [], ◌∷◌, map, ◌==◌,
  arith, Bool-cases, Option-cases, Result, ok, err,
}
use scadium.Blackjack.{
  Phase, Seat, SeatBet, TableState, RoundRow, bet_total, stake_of, seat_at, seat_of, update_seat,
  same_phase,
}
use scadium.Blackjack.Betting.{
  Opening, place_bet, put_bet, start_betting, accept_bet, open_betting, swap_exposure, clear_bet_of,
  reset_seat,
}
use scadium.Blackjack.Hands.Log.{Distinct}
use scadium.Blackjack.Facade.Stakes.{
  stakes, is_live, live, stakes-update, stakes-map, stakes-cleared, seat_of-at,
}

seat_at-cleared :
    (index : ℕ) (seats : List Seat) (s : Seat)
    → seat_at index seats ≡ some s
    → seat_at index (map clear_bet_of seats) ≡ some (clear_bet_of s)
unfolding seat_at
seat_at-cleared index [] s h = cc
seat_at-cleared index (x ∷ seats) s h = elim (Bool-cases (x.index == index)) [
  | inl e ↦ let same : x ≡ s = ground arith in rw (e, same) refl
  | inr e ↦ rw e (seat_at-cleared index seats s (ground arith))
]

-- A bet put on a seat: what the table holds more, and what it held before on that seat.
put_bet-stakes :
    (j index : ℕ) (bet : SeatBet) (seats : List Seat) (s : Seat)
    → seat_at index seats ≡ some s
    → stakes j (
          map reset_seat
            (update_seat index (λ x. record x { bet = some bet; idle_rounds = 0 }) seats))
        + to_user s.user_id (stake_of s.bet) j
      ≡ stakes j seats + to_user s.user_id (bet_total bet) j
put_bet-stakes j index bet seats s h =
    let change : Seat → Seat = λ x. record x { bet = some bet; idle_rounds = 0 } in
    omega (
      arith,
      stakes-update j index change seats s h,
      stakes-map j reset_seat (update_seat index change seats) (λ x. refl),
    )

put_bet-stakes_open :
    (j index : ℕ) (bet : SeatBet) (seats : List Seat) (s : Seat)
    → seat_at index seats ≡ some s
    → stakes j (update_seat index (λ x. record x { bet = some bet; idle_rounds = 0 }) seats)
        + to_user s.user_id (stake_of s.bet) j
      ≡ stakes j seats + to_user s.user_id (bet_total bet) j
put_bet-stakes_open j index bet seats s h =
    stakes-update j index (λ x. record x { bet = some bet; idle_rounds = 0 }) seats s h

-- What a table that takes a bet, or refuses it, holds afterwards.
abbrev pub Taken : TableState → ℕ → ℕ → TableState → Result ℕ → Type 0
Taken t user_id total t' (ok previous) =
    (j : ℕ) → live t' j + to_user user_id previous j ≡ live t j + to_user user_id total j
Taken t user_id total t' (err e) = (j : ℕ) → live t' j ≡ live t j

abbrev pub TakenAs : TableState → ℕ → ℕ → TableState × List RoundRow × Result ℕ → Type 0
TakenAs t user_id total r = Taken t user_id total r.0 r.2

module _ (env : Opening) (t : TableState) (rounds : List RoundRow) (bet : SeatBet) (seat : Seat)
    (at : seat_at seat.index t.seats ≡ some seat) where
  -- The bet that opens a window, on a table that holds nothing.
  put_bet-first :
      env.stored ≡ true
      → env.saved ≡ true
      → is_live t.phase ≡ false
      → ((j : ℕ) → stakes j t.seats ≡ 0)
      → TakenAs t seat.user_id
          (bet_total bet)
          (put_bet env true t rounds seat.index bet (stake_of seat.bet))
  unfolding put_bet start_betting open_betting
  put_bet-first stored saved dead none_out =
      elim (Bool-cases (swap_exposure env.chain_enabled t (stake_of seat.bet) (bet_total bet)).0) [
        | inl fits ↦
            rw (fits, put_bet)
              (rw (stored, saved, start_betting)
                λ j.
                  rw dead
                    (omega (arith, put_bet-stakes j seat.index bet t.seats seat at, none_out j)))
        | inr full ↦ rw (full, put_bet) (λ j. refl)
      ]

  -- A further bet of an open window.
  put_bet-more :
      env.saved ≡ true
      → is_live t.phase ≡ true
      → TakenAs t seat.user_id
          (bet_total bet)
          (put_bet env false t rounds seat.index bet (stake_of seat.bet))
  unfolding put_bet
  put_bet-more saved alive =
      elim (Bool-cases (swap_exposure env.chain_enabled t (stake_of seat.bet) (bet_total bet)).0) [
        | inl fits ↦
            rw (fits, saved, put_bet)
              (λ j. rw alive (put_bet-stakes_open j seat.index bet t.seats seat at))
        | inr full ↦ rw (full, put_bet) (λ j. refl)
      ]

-- A table between two requests: one seat to an index and to a user, and no bets while it is idle.
pub record IsTable (t : TableState) : Type 0 where
  pub distinct : Distinct t.seats
  pub single :
      (index : ℕ) (s : Seat) → seat_at index t.seats ≡ some s → seat_of s.user_id t.seats ≡ some s
  pub idle_clear : t.phase ≡ Phase.idle → (j : ℕ) → stakes j t.seats ≡ 0

Taken-same :
    (c t : TableState) (user_id total : ℕ) (t' : TableState) (answer : Result ℕ)
    → ((j : ℕ) → live c j ≡ live t j)
    → Taken c user_id total t' answer
    → Taken t user_id total t' answer
Taken-same c t user_id total t' (ok previous) same h =
    λ j. h j ∙ ap (λ n. n + to_user user_id total j) (same j)
Taken-same c t user_id total t' (err e) same h = λ j. h j ∙ same j

accept_bet-Taken :
    (env : Opening) (t : TableState) (rounds : List RoundRow) (bet : SeatBet) (seat : Seat)
    → env.stored ≡ true
    → env.saved ≡ true
    → IsTable t
    → seat_at seat.index t.seats ≡ some seat
    → (p : Phase) → t.phase ≡ p
    → (same_phase p Phase.idle || same_phase p Phase.betting || same_phase p Phase.settled) ≡ true
    → TakenAs t seat.user_id (bet_total bet) (accept_bet env t rounds seat bet)
unfolding accept_bet same_phase
accept_bet-Taken env t rounds bet seat stored saved table at Phase.idle e open_now =
    rw (ap (λ q. same_phase q Phase.settled) e, ap (λ q. same_phase q Phase.idle) e, accept_bet)
      (put_bet-first env t rounds bet seat at stored saved (ap is_live e) (table.idle_clear e))
accept_bet-Taken env t rounds bet seat stored saved table at Phase.betting e open_now =
    rw (ap (λ q. same_phase q Phase.settled) e, ap (λ q. same_phase q Phase.idle) e, accept_bet)
      (put_bet-more env t rounds bet seat at saved (ap is_live e))
accept_bet-Taken env t rounds bet seat stored saved table at Phase.settled e open_now =
    let cleared : TableState = record t { seats = map clear_bet_of t.seats } in
    let dead : is_live t.phase ≡ false = ap is_live e in
    let r = put_bet env true cleared rounds seat.index bet 0 in
    rw (ap (λ q. same_phase q Phase.settled) e, accept_bet)
      (Taken-same cleared t seat.user_id (bet_total bet) r.0 r.2 (λ j. rw dead refl)
        (put_bet-first env cleared rounds bet (clear_bet_of seat)
          (seat_at-cleared seat.index t.seats seat at) stored saved dead
          (λ j. stakes-cleared j t.seats)))
accept_bet-Taken env t rounds bet seat stored saved table at Phase.dealing e open_now = cc
accept_bet-Taken env t rounds bet seat stored saved table at Phase.player_turns e open_now = cc
accept_bet-Taken env t rounds bet seat stored saved table at Phase.dealer_turn e open_now = cc

pub place_bet-Taken :
    (env : Opening) (t : TableState) (rounds : List RoundRow) (user_id : ℕ) (bet : SeatBet)
    → env.stored ≡ true
    → env.saved ≡ true
    → IsTable t
    → TakenAs t user_id (bet_total bet) (place_bet env t rounds user_id bet)
unfolding place_bet
place_bet-Taken env t rounds user_id bet stored saved table =
    elim (Bool-cases (
      same_phase t.phase Phase.idle
      || same_phase t.phase Phase.betting
      || same_phase t.phase Phase.settled)) [
        | inr closed ↦ rw (closed, place_bet) (λ j. refl)
        | inl open_now ↦ elim (Option-cases (seat_of user_id t.seats)) [
          | inl none_seated ↦ rw (open_now, none_seated, place_bet) (λ j. refl)
          | inr (seat, found) ↦
              let (at, own) = seat_of-at user_id t.seats seat table.distinct found in
              rw (open_now, found, place_bet)
                (subst (λ u. TakenAs t u (bet_total bet) (accept_bet env t rounds seat bet)) own
                  (accept_bet-Taken env t rounds bet seat stored saved table at t.phase refl
                    open_now))
        ]
      ]
