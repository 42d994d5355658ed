-- ===== src/Blackjack/Facade/Moves.antt =====
-- What `clearBet`, `leaveSeat` and `action` of apps/api/src/games/blackjack/blackjack.engine.ts do to the stakes.
use scadium.Ledger.Worth.{to_user}
use scadium.Prelude.{
  ℕ, ◌+◌, ◌≡◌, inl, inr, refl, ap, true, false, ◌||◌, some, List, arith, Bool-cases, Option-cases,
  ok,
}
use scadium.Blackjack.{
  Phase, Seat, TableState, RoundRow, bet_total, seat_of, update_seat, delete_seat, same_phase,
}
use scadium.Blackjack.Seats.{give_up_seat}
use scadium.Blackjack.Betting.{clear_stake, clear_bet_of}
use scadium.Blackjack.Facade.Stakes.{share, is_live, live, stakes-update, stakes-delete, seat_of-at}
use scadium.Blackjack.Facade.Bets.{IsTable}

pub same_phase_eq : (p q : Phase) → same_phase p q ≡ true → p ≡ q
unfolding same_phase
same_phase_eq p q h = ground arith

pub clear_stake-live :
    (t : TableState) (rounds : List RoundRow) (user_id : ℕ) {n : ℕ} {t' : TableState}
    {rows : List RoundRow}
    → IsTable t
    → clear_stake t rounds user_id ≡ ok (n, t', rows)
    → ((j : ℕ) → live t' j + to_user user_id n j ≡ live t j)
      × ((s : Seat) × (seat_of user_id t.seats ≡ some s))
unfolding clear_stake
clear_stake-live t rounds user_id {n} {t'} table h =
    elim (Bool-cases (same_phase t.phase Phase.betting)) [
      | inr closed ↦ absurd (ground arith)
      | inl betting ↦ elim (Option-cases (seat_of user_id t.seats)) [
        | inl gone ↦ absurd (ground arith)
        | inr (s, found) ↦ elim (Option-cases s.bet) [
          | inl no_bet ↦ absurd (ground arith)
          | inr (b, bet) ↦
              let (at, own) = seat_of-at user_id t.seats s table.distinct found in
              let refund : n ≡ bet_total b = ground arith in
              let seats : t'.seats ≡ update_seat s.index clear_bet_of t.seats = ground arith in
              let phase : t'.phase ≡ t.phase = ground arith in
              let alive : is_live t.phase ≡ true =
                ap is_live (same_phase_eq t.phase Phase.betting betting) in
              (
                λ j.
                    let part : share j s ≡ to_user user_id n j = ground arith in
                    let none_left : share j (clear_bet_of s) ≡ 0 = ground arith in
                    rw (phase, alive, seats)
                      (omega (
                        arith,
                        stakes-update j s.index clear_bet_of t.seats s at,
                        part,
                        none_left,
                      )),
                (s, found),
              )
        ]
      ]
    ]

pub not_live :
    (p : Phase) → (same_phase p Phase.idle || same_phase p Phase.settled) ≡ true → is_live p ≡ false
unfolding same_phase
not_live Phase.idle over = refl
not_live Phase.settled over = refl
not_live Phase.betting over = cc
not_live Phase.dealing over = cc
not_live Phase.player_turns over = cc
not_live Phase.dealer_turn over = cc

pub give_up_seat-live :
    (t : TableState) (rounds : List RoundRow) (user_id : ℕ) {n : ℕ} {t' : TableState}
    {rows : List RoundRow}
    → IsTable t
    → give_up_seat t rounds user_id ≡ ok (n, t', rows)
    → ((j : ℕ) → live t' j + to_user user_id n j ≡ live t j)
      × ((s : Seat) × (seat_of user_id t.seats ≡ some s))
unfolding give_up_seat
give_up_seat-live t rounds user_id {n} {t'} table h =
    elim (Option-cases (seat_of user_id t.seats)) [
      | inl gone ↦ absurd (ground arith)
      | inr (s, found) ↦
          let (at, own) = seat_of-at user_id t.seats s table.distinct found in
          let seats : t'.seats ≡ delete_seat s.index t.seats = ground arith in
          let phase : t'.phase ≡ t.phase = ground arith in
          (
            λ j.
                let deleted = stakes-delete j s.index t.seats s at in
                elim (Option-cases s.bet) [
                  | inl no_bet ↦
                      let nothing : to_user user_id n j ≡ 0 = ground arith in
                      let part : share j s ≡ 0 = ground arith in
                      rw (phase, seats)
                        (elim (Bool-cases (is_live t.phase)) [
                          | inl alive ↦ rw alive (omega (arith, deleted, nothing, part))
                          | inr dead ↦ rw dead (omega (arith, nothing))
                        ])
                  | inr (b, bet) ↦ elim (Bool-cases (same_phase t.phase Phase.betting)) [
                    | inl betting ↦
                        let alive : is_live t.phase ≡ true =
                          ap is_live (same_phase_eq t.phase Phase.betting betting) in
                        let part : share j s ≡ to_user user_id n j = ground arith in
                        rw (phase, alive, seats) (omega (arith, deleted, part))
                    | inr closed ↦
                        let nothing : to_user user_id n j ≡ 0 = ground arith in
                        let over : (same_phase t.phase Phase.idle
                              || same_phase t.phase Phase.settled)
                            ≡ true =
                          ground arith in
                        let dead : is_live t.phase ≡ false = not_live t.phase over in
                        rw (phase, dead) (omega (arith, nothing))
                  ]
                ],
            (s, found),
          )
    ]
