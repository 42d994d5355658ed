-- ===== src/Blackjack/Tables/Steps.antt =====
-- What each call of apps/api/src/games/blackjack/blackjack.engine.ts does to the seats.
use scadium.Prelude.{
  not, ℕ, ◌≡◌, ◌≢◌, inl, inr, refl, sym, ◌∙◌, Bool, true, false, ◌||◌, some, List, [], ◌∷◌, ◌++◌,
  map, All, ◌==◌, arith, Bool-cases, Option-cases, ok,
}
use scadium.Blackjack.{
  Phase, Seat, SeatBet, TableState, RoundRow, bet_total, stake_of, seat_at, seat_of, update_seat,
  delete_seat, same_phase, has_round,
}
use scadium.Blackjack.Seats.{take_seat, give_up_seat, new_seat}
use scadium.Blackjack.Betting.{
  Opening, place_bet, put_bet, start_betting, accept_bet, open_betting, swap_exposure, clear_stake,
  clear_bet_of, reset_seat,
}
use scadium.Blackjack.Facade.Moves.{same_phase_eq}
use scadium.Blackjack.Tables.{
  Apart, NoBet, IsSound, Shrinks-Apart, KeepsPlace, map-Shrinks, update-Shrinks, delete-Shrinks,
  Apart-append_one,
}

-- A table in a round.
pub in_round : (t : TableState) → t.phase ≢ Phase.idle → Apart t.seats → IsSound t
in_round t busy apart = record { apart = apart; clear = λ idle. absurd (busy idle) }

pub settled_idle : Phase.settled ≢ Phase.idle
settled_idle e = cc

pub betting_idle : Phase.betting ≢ Phase.idle
betting_idle e = cc

delete-NoBet :
    (index : ℕ) (seats : List Seat) → All NoBet seats → All NoBet (delete_seat index seats)
unfolding delete_seat
delete-NoBet index [] h = tt
delete-NoBet index (s ∷ seats) h = elim (Bool-cases (s.index == index)) [
  | inl e ↦ rw e h.1
  | inr e ↦ rw e (h.0, delete-NoBet index seats h.1)
]

append-NoBet :
    (seats : List Seat) (s : Seat) → All NoBet seats → NoBet s → All NoBet (seats ++ s ∷ [])
append-NoBet [] s h n = (n, tt)
append-NoBet (x ∷ seats) s h n = (h.0, append-NoBet seats s h.1 n)

pub take_seat-IsSound :
    (t : TableState) (index user_id : ℕ) {t' : TableState}
    → take_seat t index user_id ≡ ok t'
    → IsSound t
    → IsSound t'
unfolding take_seat
take_seat-IsSound t index user_id {t'} h sound = elim (Option-cases (seat_at index t.seats)) [
  | inr (s, taken) ↦ absurd (ground arith)
  | inl free ↦ elim (Option-cases (seat_of user_id t.seats)) [
    | inr (s, seated) ↦ absurd (ground arith)
    | inl new ↦
        let seat = new_seat index user_id in
        let seats : t'.seats ≡ t.seats ++ seat ∷ [] = ground arith in
        let phase : t'.phase ≡ t.phase = ground arith in
        record {
          apart = rw seats (Apart-append_one t.seats seat sound.apart free new);
          clear =
              λ idle. rw seats (append-NoBet t.seats seat (sound.clear (sym phase ∙ idle)) refl);
        }
  ]
]

pub give_up_seat-IsSound :
    (t : TableState) (rounds : List RoundRow) (user_id : ℕ) {n : ℕ} {t' : TableState}
    {rows : List RoundRow}
    → give_up_seat t rounds user_id ≡ ok (n, t', rows)
    → IsSound t
    → IsSound t'
unfolding give_up_seat
give_up_seat-IsSound t rounds user_id {n} {t'} h sound =
    elim (Option-cases (seat_of user_id t.seats)) [
      | inl gone ↦ absurd (ground arith)
      | inr (s, found) ↦
          let seats : t'.seats ≡ delete_seat s.index t.seats = ground arith in
          let phase : t'.phase ≡ t.phase = ground arith in
          record {
            apart = rw seats (Shrinks-Apart (delete-Shrinks s.index t.seats) sound.apart);
            clear =
                λ idle. rw seats (delete-NoBet s.index t.seats (sound.clear (sym phase ∙ idle)));
          }
    ]

clear-KeepsPlace : KeepsPlace clear_bet_of
clear-KeepsPlace = record { index = λ s. refl; user = λ s. refl }

reset-KeepsPlace : KeepsPlace reset_seat
reset-KeepsPlace = record { index = λ s. refl; user = λ s. refl }

put_bet-IsSound :
    (env : Opening) (first : Bool) (t : TableState) (rounds : List RoundRow) (index : ℕ)
    (bet : SeatBet) (prev : ℕ)
    → (first ≡ false → t.phase ≡ Phase.betting)
    → IsSound t
    → IsSound (put_bet env first t rounds index bet prev).0
unfolding put_bet start_betting open_betting
put_bet-IsSound env first t rounds index bet prev open_now sound =
    let change : Seat → Seat = λ s. record s { bet = some bet; idle_rounds = 0 } in
    let placed : Apart (update_seat index change t.seats) =
      Shrinks-Apart
        (update-Shrinks index change t.seats (record { index = λ s. refl; user = λ s. refl }))
        sound.apart in
    elim (Bool-cases (swap_exposure env.chain_enabled t prev (bet_total bet)).0) [
      | inr full ↦ rw (full, put_bet) (record { apart = sound.apart; clear = sound.clear })
      | inl fits ↦ elim (Bool-cases first) [
        | inr more ↦
            let stays =
              λ (idle : t.phase ≡ Phase.idle). betting_idle (sym (open_now more) ∙ idle) in
            elim (Bool-cases (env.saved || not (has_round t))) [
              | inl through ↦ rw (fits, more, through, put_bet) (in_round _ stays placed)
              | inr failed ↦ rw (fits, more, failed, put_bet) (in_round _ stays placed)
            ]
        | inl opens ↦ elim (Bool-cases env.stored) [
          | inl stored ↦
              let reset =
                Shrinks-Apart
                  (map-Shrinks reset_seat (update_seat index change t.seats) reset-KeepsPlace)
                  placed in
              elim (Bool-cases env.saved) [
                | inl saved ↦
                    rw (fits, opens, put_bet)
                      (rw (stored, saved, start_betting) (in_round _ (λ idle. cc) reset))
                | inr lost ↦
                    rw (fits, opens, put_bet)
                      (rw (stored, lost, start_betting) (in_round _ (λ idle. cc) reset))
              ]
          | inr failed ↦
              rw (fits, opens, put_bet)
                (rw (failed, start_betting) (in_round _ (λ idle. cc) placed))
        ]
      ]
    ]

pub place_bet-IsSound :
    (env : Opening) (t : TableState) (rounds : List RoundRow) (user_id : ℕ) (bet : SeatBet)
    → IsSound t
    → IsSound (place_bet env t rounds user_id bet).0
unfolding place_bet accept_bet
place_bet-IsSound env t rounds user_id bet sound =
    elim (Bool-cases (
      same_phase t.phase Phase.idle
      || same_phase t.phase Phase.betting
      || same_phase t.phase Phase.settled)) [
        | inr closed ↦ rw (closed, place_bet) sound
        | inl open_now ↦ elim (Option-cases (seat_of user_id t.seats)) [
          | inl none_seated ↦ rw (open_now, none_seated, place_bet) sound
          | inr (s, found) ↦ elim (Bool-cases (same_phase t.phase Phase.settled)) [
            | inl settled ↦
                rw (open_now, found, place_bet)
                  (rw (settled, accept_bet)
                    (put_bet-IsSound env true (record t { seats = map clear_bet_of t.seats }) rounds
                      s.index bet 0 (λ e. cc) (cleared t settled sound)))
            | inr other ↦
                rw (open_now, found, place_bet)
                  (rw (other, accept_bet)
                    (put_bet-IsSound env (same_phase t.phase Phase.idle) t rounds s.index bet
                      (stake_of s.bet) (λ more. same_phase_eq t.phase Phase.betting (ground arith))
                      sound))
          ]
        ]
      ]
  where
    cleared :
        (t : TableState)
        → same_phase t.phase Phase.settled ≡ true
        → IsSound t
        → IsSound (record t { seats = map clear_bet_of t.seats })
    cleared t settled sound =
        in_round _ (λ idle. settled_idle (sym (same_phase_eq t.phase Phase.settled settled) ∙ idle))
          (Shrinks-Apart (map-Shrinks clear_bet_of t.seats clear-KeepsPlace) sound.apart)

pub clear_stake-IsSound :
    (t : TableState) (rounds : List RoundRow) (user_id : ℕ) {n : ℕ} {t' : TableState}
    {rows : List RoundRow}
    → clear_stake t rounds user_id ≡ ok (n, t', rows)
    → IsSound t
    → IsSound t'
unfolding clear_stake
clear_stake-IsSound t rounds user_id {n} {t'} h sound =
    elim (Bool-cases (same_phase t.phase Phase.betting)) [
      | inr closed ↦ absurd (ground arith)
      | inl betting ↦ elim (Option-cases (seat_of user_id t.seats)) [
        | inl gone ↦ absurd (ground arith)
        | inr (s, found) ↦ elim (Option-cases s.bet) [
          | inl no_bet ↦ absurd (ground arith)
          | inr (b, bet) ↦
              let seats : t'.seats ≡ update_seat s.index clear_bet_of t.seats = ground arith in
              let phase : t'.phase ≡ t.phase = ground arith in
              in_round t'
                (λ idle.
                  betting_idle (sym (phase ∙ same_phase_eq t.phase Phase.betting betting) ∙ idle))
                (rw seats (
                  Shrinks-Apart (update-Shrinks s.index clear_bet_of t.seats clear-KeepsPlace)
                    sound.apart))
        ]
      ]
    ]
