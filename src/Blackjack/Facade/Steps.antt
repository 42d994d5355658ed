-- ===== src/Blackjack/Facade/Steps.antt =====
-- Each step of a request of apps/api/src/games/blackjack/blackjack.service.ts, and the funds of the players.
use scadium.Ledger.Worth.{to_user}
use scadium.Prelude.{
  ℕ, ◌≡◌, inl, inr, refl, ap, Bool, true, false, Option, some, ltb, arith, Bool-cases, Option-cases,
  Result-cases, ok, err, ◌>>◌,
}
use scadium.Fair.Hash.{Crypto}
use scadium.Ledger.{User}
use scadium.Blackjack.{SeatBet, Seat, seat_of, after_save, bet_total}
use scadium.Blackjack.Seats.{leave_seat, give_up_seat}
use scadium.Blackjack.Betting.{Opening, clear_bet, clear_stake}
use scadium.Blackjack.Hands.{Action, is_double, act, play_turn}
use scadium.Blackjack.Facade.{
  Gates, Floor, Task, Request, serve, resume, request_bet, request_clear, request_leave,
  request_double, request_action, place_checks, load_user, after_clear, after_leave, after_act,
  table_act,
}
use scadium.Blackjack.Facade.Bets.{IsTable}
use scadium.Blackjack.Facade.Moves.{clear_stake-live, give_up_seat-live}
use scadium.Blackjack.Facade.Turns.{extra_of, play_turn-live}
use scadium.Blackjack.Facade.Conserved.{
  owed, Keeps, credit_then-Keeps, replace-Keeps, debit_then-Keeps, table-Keeps, seat_bet-Keeps,
}

-- What a request holds before it arrives.
unfoldable pub idle : Task
idle = Task.answered (ok tt)

request_clear-Keeps :
    (f : Floor) (user_id : ℕ) → IsTable f.table → Keeps f idle (request_clear true f user_id)
unfolding request_clear clear_bet after_save after_clear idle
request_clear-Keeps f user_id table = elim (Result-cases (clear_stake f.table f.rounds user_id)) [
  | inr (e, refused) ↦ rw (refused, request_clear) (λ others j. refl)
  | inl ((n, t, rows), gone) ↦
      let back = clear_stake-live f.table f.rounds user_id table gone in
      rw (gone, request_clear)
        (table-Keeps f t rows idle (Task.to_credit user_id n (ok tt))
          (λ j. omega (arith, back.0 j)))
]

request_leave-Keeps :
    (f : Floor) (user_id : ℕ) → IsTable f.table → Keeps f idle (request_leave true f user_id)
unfolding request_leave leave_seat after_save after_leave idle
request_leave-Keeps f user_id table = elim (Result-cases (give_up_seat f.table f.rounds user_id)) [
  | inr (e, refused) ↦ rw (refused, request_leave) (λ others j. refl)
  | inl ((n, t, rows), gone) ↦
      let back = give_up_seat-live f.table f.rounds user_id table gone in
      elim (Bool-cases (ltb 0 n)) [
        | inl some_back ↦
            rw (gone, some_back, request_leave)
              (table-Keeps f t rows idle (Task.to_credit user_id n (ok tt))
                (λ j. omega (arith, back.0 j)))
        | inr none_back ↦
            rw (gone, none_back, request_leave)
              (table-Keeps f t rows idle idle (λ j.
                let nothing : to_user user_id n j ≡ 0 = ground arith in
                omega (arith, back.0 j, nothing)))
      ]
]

-- The table's part of an action, whose extra stake is what its bet asks for.
table_act-Keeps :
    (crypto : Crypto) (saved : Bool) (f : Floor) (user_id : ℕ) (a : Action) (extra : ℕ)
    (task : Task)
    → saved ≡ true
    → IsTable f.table
    → ((s : Seat) → seat_of user_id f.table.seats ≡ some s → extra_of a s.bet ≡ extra)
    → ((j : ℕ) → owed task j ≡ to_user user_id extra j)
    → Keeps f task (table_act crypto saved f user_id a extra)
unfolding table_act act after_act idle
table_act-Keeps crypto saved f user_id a extra task through table asks held =
    elim (Result-cases (play_turn crypto f.table f.rounds user_id a)) [
      | inl ((t, rows), played) ↦
          let (s, at, added) = play_turn-live crypto f.table f.rounds user_id a table played in
          rw (played, through, act, table_act)
            (table-Keeps f t rows task idle (λ j.
              let same : to_user user_id (extra_of a s.bet) j ≡ to_user user_id extra j =
                ap (λ n. to_user user_id n j) (asks s at) in
              omega (arith, added j, same, held j)))
      | inr (e, refused) ↦ elim (Bool-cases (ltb 0 extra)) [
        | inl some_extra ↦
            rw (refused, some_extra, act, table_act)
              (table-Keeps f f.table f.rounds task (Task.to_credit user_id extra (err e))
                (λ j. omega (arith, held j)))
        | inr no_extra ↦
            rw (refused, no_extra, act, table_act)
              (table-Keeps f f.table f.rounds task (Task.answered (err e)) (λ j.
                let nothing : to_user user_id extra j ≡ 0 = ground arith in
                omega (arith, held j, nothing)))
      ]
    ]

request_bet-Keeps :
    (gates : Gates) (f : Floor) (user_id : ℕ) (stake : SeatBet)
    → Keeps f idle (request_bet gates f user_id stake)
unfolding request_bet idle
request_bet-Keeps gates f user_id stake =
    elim (Result-cases (place_checks gates f.accounts user_id stake)) [
      | inl (u, passed) ↦ rw (passed, request_bet) (λ others j. refl)
      | inr (e, refused) ↦ rw (refused, request_bet) (λ others j. refl)
    ]

request_double-Keeps :
    (gates : Gates) (f : Floor) (user_id : ℕ) → Keeps f idle (request_double gates f user_id)
unfolding request_double idle
request_double-Keeps gates f user_id = elim (Option-cases (seat_of user_id f.table.seats)) [
  | inl none_seated ↦ rw (none_seated, request_double) (λ others j. refl)
  | inr (s, seated) ↦ elim (Option-cases s.bet) [
    | inl no_stake ↦ rw (seated, no_stake, request_double) (λ others j. refl)
    | inr (b, has) ↦
        elim (Result-cases
          (load_user f.accounts user_id >> gates.can_wager f.accounts user_id b.main_lamports)) [
            | inl (u, passed) ↦ rw (seated, has, passed, request_double) (λ others j. refl)
            | inr (e, refused) ↦ rw (seated, has, refused, request_double) (λ others j. refl)
          ]
  ]
]

no_extra : (a : Action) (b : Option SeatBet) → is_double a ≡ false → extra_of a b ≡ 0
no_extra Action.hit b free = refl
no_extra Action.stand b free = refl
no_extra Action.double b free = cc

-- What arrives holds nothing until its first movement.
pub serve-Keeps :
    (gates : Gates) (crypto : Crypto) (f : Floor) (user_id : ℕ) (r : Request)
    → IsTable f.table
    → Keeps f idle (serve gates crypto true f user_id r)
unfolding serve request_action idle
serve-Keeps gates crypto f user_id (Request.to_bet stake) table =
    request_bet-Keeps gates f user_id stake
serve-Keeps gates crypto f user_id Request.to_clear table = request_clear-Keeps f user_id table
serve-Keeps gates crypto f user_id Request.to_leave table = request_leave-Keeps f user_id table
serve-Keeps gates crypto f user_id (Request.to_act a) table = elim (Bool-cases (is_double a)) [
  | inl doubles ↦ rw (doubles, request_action) (request_double-Keeps gates f user_id)
  | inr free ↦
      rw (free, request_action)
        (table_act-Keeps crypto true f user_id a 0 idle refl table
          (λ s seated. no_extra a s.bet free) (λ j. ground arith))
]

-- What a step needs: a credit finds its account, and a double the main stake that it read off the table.
abbrev pub Ready : Floor → Task → Type 0
Ready f (Task.to_double user_id extra) =
    (s : Seat) → seat_of user_id f.table.seats ≡ some s → extra_of Action.double s.bet ≡ extra
Ready f (Task.to_replace user_id total previous) = (u : User) × (f.accounts.users user_id ≡ some u)
Ready f (Task.to_credit user_id amount answer) = (u : User) × (f.accounts.users user_id ≡ some u)
Ready f (Task.to_stake user_id stake) = Unit {0}
Ready f (Task.to_seat user_id stake) = Unit {0}
Ready f (Task.to_raise user_id extra) = Unit {0}
Ready f (Task.answered answer) = Unit {0}

pub resume-Keeps :
    (crypto : Crypto) (env : Opening) (f : Floor) (task : Task)
    → env.stored ≡ true
    → env.saved ≡ true
    → IsTable f.table
    → Ready f task
    → Keeps f task (resume crypto env f task)
unfolding resume
resume-Keeps crypto env f (Task.to_stake user_id stake) stored saved table ready =
    debit_then-Keeps f user_id (bet_total stake) (Task.to_stake user_id stake)
      (Task.to_seat user_id stake) (λ j. refl) (λ j. refl)
resume-Keeps crypto env f (Task.to_seat user_id stake) stored saved table ready =
    seat_bet-Keeps env f user_id stake stored saved table
resume-Keeps crypto env f (Task.to_raise user_id extra) stored saved table ready =
    debit_then-Keeps f user_id extra (Task.to_raise user_id extra) (Task.to_double user_id extra)
      (λ j. refl) (λ j. refl)
resume-Keeps crypto env f (Task.to_double user_id extra) stored saved table ready =
    table_act-Keeps crypto env.saved f user_id Action.double extra (Task.to_double user_id extra)
      saved table ready (λ j. refl)
resume-Keeps crypto env f (Task.to_replace user_id total previous) stored saved table (u, found) =
    replace-Keeps f user_id total previous u found
resume-Keeps crypto env f (Task.to_credit user_id amount answer) stored saved table (u, found) =
    credit_then-Keeps f user_id amount answer u found
resume-Keeps crypto env f (Task.answered answer) stored saved table ready = λ others j. refl
