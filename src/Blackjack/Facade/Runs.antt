-- ===== src/Blackjack/Facade/Runs.antt =====
-- The requests of apps/api/src/games/blackjack/blackjack.service.ts in flight together, step by step.
use scadium.Ledger.Worth.{worth_of}
use scadium.Prelude.Int.{pos, ◌-ℤ◌}
use scadium.Prelude.{
  ℕ, ◌+◌, ◌≡◌, inl, inr, refl, sym, subst, ap, ◌∙◌, Bool, true, Option, none, some, List, [], ◌∷◌,
  ◌++◌, arith, Bool-cases, Option-cases, Result, Result-cases, ok, ◌>>◌,
}
use scadium.Fair.Hash.{Crypto}
use scadium.Ledger.{apply_balance_delta}
use scadium.Blackjack.{Phase, Seat, TableState, seat_of, bet_total}
use scadium.Blackjack.Seats.{take_seat}
use scadium.Blackjack.Betting.{Opening}
use scadium.Blackjack.Hands.{deal, time_out, dealer_turn, Action, is_double}
use scadium.Blackjack.Facade.{
  Gates, Floor, table_meta, Task, Request, serve, resume, request_bet, request_clear, request_leave,
  request_double, request_action, place_checks, load_user, table_act, seat_bet, credit_then,
  debit_then, refund_previous,
}
use scadium.Blackjack.Facade.Stakes.{live}
use scadium.Blackjack.Facade.Conserved.{owed, funds}
use scadium.Blackjack.Facade.Timers.{take_seat-live, deal-live, time_out-live, dealer_turn-live}
use scadium.Blackjack.Tables.Runs.{
  sat_down, dealt, timed_out, dealer_played, Table, Table-IsTable, bet, cleared, left, acted,
}
use scadium.Blackjack.Facade.Steps.{idle, Ready, serve-Keeps, resume-Keeps}

debit_then-table :
    (f : Floor) (user_id n : ℕ) (next : Task) → (debit_then f user_id n next).0.table ≡ f.table
unfolding debit_then
debit_then-table f user_id n next =
    elim (Result-cases (
      apply_balance_delta f.accounts user_id (pos 0 -ℤ pos n)
        (table_meta "blackjack_bet" f.table.id))) [
          | inl (r, paid) ↦ rw (paid, debit_then) refl
          | inr (e, refused) ↦ rw (refused, debit_then) refl
        ]

credit_then-table :
    (f : Floor) (user_id n : ℕ) (answer : Result (Unit {0}))
    → (credit_then f user_id n answer).0.table ≡ f.table
unfolding credit_then
credit_then-table f user_id n answer =
    elim (Result-cases
      (apply_balance_delta f.accounts user_id (pos n) (table_meta "refund" f.table.id))) [
        | inl (r, paid) ↦ rw (paid, credit_then) refl
        | inr (e, refused) ↦ rw (refused, credit_then) refl
      ]

refund_previous-table :
    (f : Floor) (user_id total n : ℕ) → (refund_previous f user_id total n).0.table ≡ f.table
unfolding refund_previous
refund_previous-table f user_id total n =
    elim (Result-cases
      (apply_balance_delta f.accounts user_id (pos n) (table_meta "refund" f.table.id))) [
        | inl (r, paid) ↦ rw (paid, refund_previous) refl
        | inr (e, refused) ↦ rw (refused, refund_previous) refl
      ]

-- What all the requests in flight hold.
unfoldable pub waiting : List Task → ℕ → ℕ
waiting [] j = 0
waiting (task ∷ tasks) j = owed task j + waiting tasks j

waiting-middle :
    (before after : List Task) (task : Task) (j : ℕ)
    → waiting (before ++ task ∷ after) j ≡ owed task j + waiting (before ++ after) j
unfolding waiting
waiting-middle [] after task j = refl
waiting-middle (first ∷ before) after task j = omega (arith, waiting-middle before after task j)

-- The steps of requests, of players who sit down and of the engine's own timers in any order, until the hands are
-- settled: `arrives` is a new request and `resumes` a step of one that is in flight.
pub data Serving (gates : Gates) (crypto : Crypto) (start : Floor)
    : Floor → List Task → Type 0 where
  starts : Table crypto start.table → Serving gates crypto start start []
  arrives :
      {f : Floor} {tasks : List Task} (user_id : ℕ) (r : Request)
      → Serving gates crypto start f tasks
      → Serving gates crypto start
          (serve gates crypto true f user_id r).0
          ((serve gates crypto true f user_id r).1 ∷ tasks)
  resumes :
      {f : Floor} (env : Opening) (before after : List Task) (task : Task)
      → Serving gates crypto start f (before ++ task ∷ after)
      → env.stored ≡ true
      → env.saved ≡ true
      → Ready f task
      → Serving gates crypto start
          (resume crypto env f task).0
          (before ++ (resume crypto env f task).1 ∷ after)
  sits :
      {f : Floor} {tasks : List Task} (t : TableState) (index user_id : ℕ)
      → Serving gates crypto start f tasks
      → take_seat f.table index user_id ≡ ok t
      → Serving gates crypto start (record f { table = t }) tasks
  deals :
      {f : Floor} {tasks : List Task}
      → Serving gates crypto start f tasks
      → f.table.phase ≡ Phase.betting
      → Serving gates crypto start
          (record f {
            table = (deal crypto f.table f.rounds).0;
            rounds = (deal crypto f.table f.rounds).1;
          })
          tasks
  runs_out :
      {f : Floor} {tasks : List Task} (index : ℕ)
      → Serving gates crypto start f tasks
      → Serving gates crypto start (record f { table = time_out index f.table }) tasks
  dealer_plays :
      {f : Floor} {tasks : List Task}
      → Serving gates crypto start f tasks
      → Serving gates crypto start (record f { table = dealer_turn crypto f.table }) tasks

serve-Table :
    (gates : Gates) (crypto : Crypto) (saved : Bool) (f : Floor) (user_id : ℕ) (r : Request)
    → Table crypto f.table
    → Table crypto (serve gates crypto saved f user_id r).0.table
unfolding serve request_bet request_clear request_leave request_action request_double table_act
serve-Table gates crypto saved f user_id (Request.to_bet stake) run =
    elim (Result-cases (place_checks gates f.accounts user_id stake)) [
      | inl (u, passed) ↦ rw (passed, request_bet) run
      | inr (e, refused) ↦ rw (refused, request_bet) run
    ]
serve-Table gates crypto saved f user_id Request.to_clear run =
    cleared saved f.rounds _ user_id _ run refl
serve-Table gates crypto saved f user_id Request.to_leave run =
    left saved f.rounds _ user_id _ run refl
serve-Table gates crypto saved f user_id (Request.to_act a) run = elim (Bool-cases (is_double a)) [
  | inr free ↦ rw (free, request_action) (acted saved f.rounds _ user_id a _ run refl)
  | inl doubles ↦ rw (doubles, request_action) (asked (seat_of user_id f.table.seats) refl)
]
  where
    asked :
        (seat : Option Seat)
        → seat_of user_id f.table.seats ≡ seat
        → Table crypto (request_double gates f user_id).0.table
    asked none e = rw (e, request_double) run
    asked (some s) e = elim (Option-cases s.bet) [
      | inl no_stake ↦ rw (e, no_stake, request_double) run
      | inr (b, has) ↦
          elim (Result-cases
            (load_user f.accounts user_id >> gates.can_wager f.accounts user_id b.main_lamports)) [
              | inl (u, passed) ↦ rw (e, has, passed, request_double) run
              | inr (x, refused) ↦ rw (e, has, refused, request_double) run
            ]
    ]

resume-Table :
    (crypto : Crypto) (env : Opening) (f : Floor) (task : Task)
    → Table crypto f.table
    → Table crypto (resume crypto env f task).0.table
unfolding resume seat_bet table_act
resume-Table crypto env f (Task.to_stake user_id stake) run =
    subst (Table crypto)
      (sym (debit_then-table f user_id (bet_total stake) (Task.to_seat user_id stake))) run
resume-Table crypto env f (Task.to_seat user_id stake) run = bet env f.rounds user_id stake run
resume-Table crypto env f (Task.to_raise user_id extra) run =
    subst (Table crypto) (sym (debit_then-table f user_id extra (Task.to_double user_id extra))) run
resume-Table crypto env f (Task.to_double user_id extra) run =
    acted env.saved f.rounds _ user_id Action.double _ run refl
resume-Table crypto env f (Task.to_replace user_id total previous) run =
    subst (Table crypto) (sym (refund_previous-table f user_id total previous)) run
resume-Table crypto env f (Task.to_credit user_id amount answer) run =
    subst (Table crypto) (sym (credit_then-table f user_id amount answer)) run
resume-Table crypto env f (Task.answered answer) run = run

Serving-Table :
    {gates : Gates} {crypto : Crypto} {start f : Floor} {tasks : List Task}
    → Serving gates crypto start f tasks
    → Table crypto f.table
Serving-Table (starts run) = run
Serving-Table {gates} {crypto} (arrives {f} user_id r before) =
    serve-Table gates crypto true f user_id r (Serving-Table before)
Serving-Table {gates} {crypto} (resumes {f} env first after task before stored saved ready) =
    resume-Table crypto env f task (Serving-Table before)
Serving-Table (sits {f} t index user_id before e) = sat_down index user_id (Serving-Table before) e
Serving-Table (deals {f} before open_now) = dealt f.rounds (Serving-Table before)
Serving-Table (runs_out index before) = timed_out index (Serving-Table before)
Serving-Table (dealer_plays before) = dealer_played (Serving-Table before)

-- However many requests are in flight, and in whatever order their steps, players who sit down and the engine's
-- timers interleave, until the hands are settled and as long as every write of the engine's rows goes
-- through, a double finds the main stake that it read, and a credit its account: for each user, the play
-- balance, the live stakes and what the requests in flight hold add up to the play balance and the live
-- stakes at the start.
pub Serving-conserves :
    {gates : Gates} {crypto : Crypto} {start f : Floor} {tasks : List Task}
    → Serving gates crypto start f tasks
    → (j : ℕ) → funds f (waiting tasks) j ≡ funds start (λ i. 0) j
unfolding waiting idle
Serving-conserves (starts run) j = refl
Serving-conserves {gates} {crypto} (arrives {f} {tasks} user_id r before) j =
    serve-Keeps gates crypto f user_id r (Table-IsTable (Serving-Table before)) (waiting tasks) j
    ∙ (let nothing : 0 + waiting tasks j ≡ waiting tasks j = omega arith in
        ap (λ n. worth_of (live f.table j + n) (f.accounts.users j)) nothing)
    ∙ Serving-conserves before j
Serving-conserves {gates} {crypto} (resumes {f} env first after task before stored saved ready) j =
    let next = resume crypto env f task in
    ap (λ n. worth_of (live next.0.table j + n) (next.0.accounts.users j))
      (waiting-middle first after next.1 j)
    ∙ resume-Keeps crypto env f task stored saved (Table-IsTable (Serving-Table before)) ready
        (waiting (first ++ after)) j
    ∙ ap (λ n. worth_of (live f.table j + n) (f.accounts.users j))
        (sym (waiting-middle first after task j))
    ∙ Serving-conserves before j
Serving-conserves (sits {f} {tasks} t index user_id before e) j =
    ap (λ n. worth_of (n + waiting tasks j) (f.accounts.users j))
      (take_seat-live f.table index user_id e j)
    ∙ Serving-conserves before j
Serving-conserves {gates} {crypto} (deals {f} {tasks} before open_now) j =
    ap (λ n. worth_of (n + waiting tasks j) (f.accounts.users j))
      (deal-live crypto f.table f.rounds open_now j)
    ∙ Serving-conserves before j
Serving-conserves (runs_out {f} {tasks} index before) j =
    ap (λ n. worth_of (n + waiting tasks j) (f.accounts.users j)) (time_out-live index f.table j)
    ∙ Serving-conserves before j
Serving-conserves {gates} {crypto} (dealer_plays {f} {tasks} before) j =
    ap (λ n. worth_of (n + waiting tasks j) (f.accounts.users j))
      (dealer_turn-live crypto f.table j)
    ∙ Serving-conserves before j
