-- ===== src/Blackjack/Facade/Conserved.antt =====
-- The funds of the players over the steps of the requests of apps/api/src/games/blackjack/blackjack.service.ts.
use scadium.Ledger.Worth.{to_user, worth_of, worth_of-moved, credit_goes_through}
use scadium.Prelude.{
  ℕ, ◌+◌, ◌≡◌, ◌≢◌, inl, inr, refl, ap, true, Option, some, List, ltb, arith, Bool-cases, Result,
  Result-cases, ok, err,
}
use scadium.Prelude.Int.{ℤ, pos, ◌-ℤ◌, int_laws}
use scadium.Ledger.{User, apply_balance_delta}
use scadium.Blackjack.{SeatBet, TableState, RoundRow, bet_total}
use scadium.Blackjack.Betting.{Opening, place_bet}
use scadium.Blackjack.Facade.{
  Floor, Reply, Task, table_meta, credit_then, debit_then, refund_previous, after_placing, seat_bet,
}
use scadium.Blackjack.Facade.Stakes.{live}
use scadium.Blackjack.Facade.Bets.{IsTable, Taken, place_bet-Taken}

-- What a request has taken from the play balance of user `j` and not put on the table, or from the table and not
-- given back.
abbrev pub owed : Task → ℕ → ℕ
owed (Task.to_stake user_id bet) j = 0
owed (Task.to_seat user_id bet) j = to_user user_id (bet_total bet) j
owed (Task.to_raise user_id extra) j = 0
owed (Task.to_double user_id extra) j = to_user user_id extra j
owed (Task.to_replace user_id total previous) j = to_user user_id previous j
owed (Task.to_credit user_id amount answer) j = to_user user_id amount j
owed (Task.answered answer) j = 0

-- The play balance of user `j`, what the user has at stake on the table, and `out` more.
abbrev pub funds : Floor → (ℕ → ℕ) → ℕ → Option ℤ
funds f out j = worth_of (live f.table j + out j) (f.accounts.users j)

-- A step of one request keeps the funds, whatever the other requests hold.
abbrev pub Keeps : Floor → Task → Reply → Type 0
Keeps f task r =
    (others : ℕ → ℕ) (j : ℕ)
    → funds r.0 (λ i. owed r.1 i + others i) j ≡ funds f (λ i. owed task i + others i) j

to_user_own : (id n : ℕ) → to_user id n id ≡ n
to_user_own id n = ground arith

to_user_other : (id n j : ℕ) → j ≢ id → to_user id n j ≡ 0
to_user_other id n j ne = ground arith

pub credit_then-Keeps :
    (f : Floor) (user_id n : ℕ) (answer : Result (Unit {0})) (u : User)
    → f.accounts.users user_id ≡ some u
    → Keeps f (Task.to_credit user_id n answer) (credit_then f user_id n answer)
unfolding credit_then
credit_then-Keeps f user_id n answer u found others j =
    let meta = table_meta "refund" f.table.id in
    let (r, paid) = credit_goes_through f.accounts user_id n meta u refl found in
    rw (paid, credit_then)
      (worth_of-moved f.accounts r.1 user_id (pos n) meta
        (λ j. live f.table j + (to_user user_id n j + others j))
        (λ j. live f.table j + (0 + others j)) refl paid
        (λ x. omega (int_laws, to_user_own user_id n))
        (λ j ne. omega (arith, to_user_other user_id n j ne)) j)

pub replace-Keeps :
    (f : Floor) (user_id total n : ℕ) (u : User)
    → f.accounts.users user_id ≡ some u
    → Keeps f (Task.to_replace user_id total n) (refund_previous f user_id total n)
unfolding refund_previous
replace-Keeps f user_id total n u found others j =
    let meta = table_meta "refund" f.table.id in
    let (r, paid) = credit_goes_through f.accounts user_id n meta u refl found in
    rw (paid, refund_previous)
      (worth_of-moved f.accounts r.1 user_id (pos n) meta
        (λ j. live f.table j + (to_user user_id n j + others j))
        (λ j. live f.table j + (0 + others j)) refl paid
        (λ x. omega (int_laws, to_user_own user_id n))
        (λ j ne. omega (arith, to_user_other user_id n j ne)) j)

-- A debit puts its amount on the way to the table.
pub debit_then-Keeps :
    (f : Floor) (user_id n : ℕ) (task next : Task)
    → ((j : ℕ) → owed task j ≡ 0)
    → ((j : ℕ) → owed next j ≡ to_user user_id n j)
    → Keeps f task (debit_then f user_id n next)
unfolding debit_then
debit_then-Keeps f user_id n task next none_yet after others j =
    let meta = table_meta "blackjack_bet" f.table.id in
    elim (Result-cases (apply_balance_delta f.accounts user_id (pos 0 -ℤ pos n) meta)) [
      | inr (e, refused) ↦ rw (refused, none_yet j, debit_then) refl
      | inl (r, paid) ↦
          rw (paid, debit_then)
            (worth_of-moved f.accounts r.1 user_id (pos 0 -ℤ pos n) meta
              (λ j. live f.table j + (owed task j + others j))
              (λ j. live f.table j + (owed next j + others j)) refl paid
              (λ x. omega (int_laws, to_user_own user_id n, none_yet user_id, after user_id))
              (λ j ne. omega (arith, to_user_other user_id n j ne, none_yet j, after j)) j)
    ]

-- A step of the table, which moves no balance.
pub table-Keeps :
    (f : Floor) (t : TableState) (rounds : List RoundRow) (task next : Task)
    → ((j : ℕ) → live t j + owed next j ≡ live f.table j + owed task j)
    → Keeps f task (record f { table = t; rounds = rounds }, next)
table-Keeps f t rounds task next moved others j =
    let sum : live t j + (owed next j + others j) ≡ live f.table j + (owed task j + others j) =
      omega (arith, moved j) in
    ap (λ n. worth_of n (f.accounts.users j)) sum

after_placing-owed :
    (t t' : TableState) (user_id total : ℕ) (answer : Result ℕ)
    → Taken t user_id total t' answer
    → (j : ℕ)
    → live t' j + owed (after_placing user_id total answer) j ≡ live t j + to_user user_id total j
unfolding after_placing
after_placing-owed t t' user_id total (err e) taken j = omega (arith, taken j)
after_placing-owed t t' user_id total (ok previous) taken j = elim (Bool-cases (ltb 0 previous)) [
  | inl replaced ↦ rw (replaced, after_placing) (taken j)
  | inr new ↦
      let nothing : to_user user_id previous j ≡ 0 = ground arith in
      rw (new, after_placing) (omega (arith, taken j, nothing))
]

pub seat_bet-Keeps :
    (env : Opening) (f : Floor) (user_id : ℕ) (bet : SeatBet)
    → env.stored ≡ true
    → env.saved ≡ true
    → IsTable f.table
    → Keeps f (Task.to_seat user_id bet) (seat_bet env f user_id bet)
unfolding seat_bet
seat_bet-Keeps env f user_id bet stored saved table =
    let r = place_bet env f.table f.rounds user_id bet in
    table-Keeps f r.0 r.1 (Task.to_seat user_id bet) (after_placing user_id (bet_total bet) r.2) (
      after_placing-owed f.table r.0 user_id (bet_total bet) r.2
        (place_bet-Taken env f.table f.rounds user_id bet stored saved table))
