-- ===== src/Blackjack/Facade/Failed.antt =====
-- Requests of apps/api/src/games/blackjack/blackjack.service.ts whose rows cannot be written.
use scadium.Ledger.Worth.{to_user, worth_of, worth_of-moved, credit_goes_through}
use scadium.Prelude.{
  ℕ, zero, suc, ◌+◌, ◌≡◌, inl, inr, refl, ap, ◌∙◌, true, false, none, some, List, [], ◌∷◌, ◌==◌,
  arith, Bool-cases, ok, err, unavailable,
}
use scadium.Prelude.Int.{ℤ, pos, ◌-ℤ◌, int_laws}
use scadium.Fair.Hash.{Crypto}
use scadium.Ledger.{Accounts, apply_balance_delta}
use scadium.Ledger.Moves.{apply_balance_delta-Applied}
use scadium.Blackjack.{
  Phase, SeatBet, Seat, TableState, RoundRow, bet_total, same_phase, seat_of, seat_at, update_seat,
  has_round, after_save,
}
use scadium.Blackjack.Betting.{
  Opening, place_bet, accept_bet, start_betting, put_bet, swap_exposure, clear_bet, clear_stake,
}
use scadium.Blackjack.Facade.{
  Gates, Floor, Reply, Task, Request, table_meta, seat_bet, debit_then, serve, request_bet,
  request_clear, place_checks, after_placing, after_clear, credit_then, resume,
}
use scadium.Blackjack.Facade.Stakes.{
  stakes, is_live, live, seat_of-at, stakes-update, stakes-delete,
}
use scadium.Blackjack.Facade.Bets.{IsTable}
use scadium.Blackjack.Facade.Moves.{clear_stake-live}
use scadium.Blackjack.Facade.Conserved.{funds}

-- The table after a bet whose round cannot be stored.
abbrev stuck : TableState → ℕ → SeatBet → TableState
stuck t index bet = record t {
  phase = Phase.betting;
  exposure = none;
  seats = update_seat index (λ s. record s { bet = some bet; idle_rounds = 0 }) t.seats;
}

place_bet-stuck :
    (env : Opening) (t : TableState) (rounds : List RoundRow) (user_id : ℕ) (bet : SeatBet)
    (seat : Seat)
    → env.stored ≡ false
    → t.phase ≡ Phase.idle
    → t.exposure ≡ none
    → seat_of user_id t.seats ≡ some seat
    → place_bet env t rounds user_id bet ≡ (stuck t seat.index bet, rounds, err unavailable)
unfolding place_bet accept_bet start_betting put_bet swap_exposure same_phase
place_bet-stuck env t rounds user_id bet seat failed idle no_guard found =
    rw (ap (λ q. same_phase q Phase.idle) idle, found, place_bet)
      (rw
        (
          ap (λ q. same_phase q Phase.settled) idle,
          ap (λ q. same_phase q Phase.idle) idle,
          accept_bet,
        )
        (rw (no_guard, put_bet) (rw (failed, start_betting) refl)))

stuck-live :
    (t : TableState) (user_id : ℕ) (bet : SeatBet) (seat : Seat)
    → IsTable t
    → t.phase ≡ Phase.idle
    → seat_of user_id t.seats ≡ some seat
    → (j : ℕ) → live (stuck t seat.index bet) j ≡ live t j + to_user user_id (bet_total bet) j
stuck-live t user_id bet seat table idle found j =
    let (at, own) = seat_of-at user_id t.seats seat table.distinct found in
    let change : Seat → Seat = λ s. record s { bet = some bet; idle_rounds = 0 } in
    let before : live t j ≡ 0 = rw (ap is_live idle) refl in
    let after : live (stuck t seat.index bet) j ≡ stakes j (update_seat seat.index change t.seats) =
      refl in
    rw (← own, before, after)
      (grind (
        arith,
        table.idle_clear idle j,
        stakes-update j seat.index change t.seats seat at,
        stakes-delete j seat.index t.seats seat at,
      ))

abbrev taken : SeatBet → Seat → Seat
taken bet s = record s { bet = some bet; idle_rounds = 0 }

seat_of-update :
    (user_id : ℕ) (bet : SeatBet) (seats : List Seat) (s : Seat)
    → seat_of user_id seats ≡ some s
    → seat_at s.index seats ≡ some s
    → s.user_id ≡ user_id
    → seat_of user_id (update_seat s.index (taken bet) seats) ≡ some (taken bet s)
unfolding seat_of seat_at update_seat
seat_of-update user_id bet [] s h at own = cc
seat_of-update user_id bet (x ∷ seats) s h at own = elim (Bool-cases (x.user_id == user_id)) [
  | inl e ↦
      let same : x ≡ s = ground arith in
      let here : (s.index == s.index) ≡ true = ground arith in
      let mine : (s.user_id == user_id) ≡ true = ground arith in rw (same, here, mine) refl
  | inr e ↦ elim (Bool-cases (x.index == s.index)) [
    | inl i ↦ let same : x ≡ s = ground arith in absurd (ground arith)
    | inr i ↦ rw (i, e) (seat_of-update user_id bet seats s (ground arith) (ground arith) own)
  ]
]

-- A debit that the same credit follows leaves every play balance as it was.
round_trip :
    (a a' a'' : Accounts) (user_id n table_id : ℕ) {b c : ℤ} (out : ℕ → ℕ)
    → apply_balance_delta a user_id (pos 0 -ℤ pos n) (table_meta "blackjack_bet" table_id)
      ≡ ok (b, a')
    → apply_balance_delta a' user_id (pos n) (table_meta "refund" table_id) ≡ ok (c, a'')
    → (j : ℕ) → worth_of (out j) (a''.users j) ≡ worth_of (out j) (a.users j)
round_trip a a' a'' user_id n table_id out paid back j =
    let own : to_user user_id n user_id ≡ n = ground arith in
    worth_of-moved a' a'' user_id (pos n) (table_meta "refund" table_id)
      (λ i. out i + to_user user_id n i) out refl back (λ x. omega (int_laws, own))
      (λ i ne. let other : to_user user_id n i ≡ 0 = ground arith in omega (arith, other)) j
    ∙ worth_of-moved a a' user_id (pos 0 -ℤ pos n) (table_meta "blackjack_bet" table_id) out
        (λ i. out i + to_user user_id n i) refl paid (λ x. omega (int_laws, own))
        (λ i ne. let other : to_user user_id n i ≡ 0 = ground arith in omega (arith, other)) j

-- A request that runs on its own for a number of steps.
unfoldable pub alone : Crypto → Opening → ℕ → Reply → Reply
alone crypto env zero r = r
alone crypto env (suc steps) r = alone crypto env steps (resume crypto env r.0 r.1)

-- A request for a bet whose round cannot be stored, run to its answer: the refusal, with the table in a betting
-- window that has no round, the bet on its seat, and every play balance as it was.
pub record IsStranded (user_id : ℕ) (bet : SeatBet) (seat : Seat) (f : Floor) (r : Reply)
    : Type 0 where
  pub refused : r.1 ≡ Task.answered (err unavailable)
  pub open_window : r.0.table.phase ≡ Phase.betting
  pub no_row : r.0.rounds ≡ f.rounds
  pub seated :
      seat_of user_id r.0.table.seats ≡ some (record seat { bet = some bet; idle_rounds = 0 })
  pub balances : (j : ℕ) → worth_of 0 (r.0.accounts.users j) ≡ worth_of 0 (f.accounts.users j)
  pub created : (j : ℕ) → funds r.0 (λ i. 0) j ≡ funds f (to_user user_id (bet_total bet)) j

module _ (gates : Gates) (crypto : Crypto) (env : Opening) (f : Floor) (user_id : ℕ) (bet : SeatBet)
    (seat : Seat) where
  -- A seated player's bet on an idle table without an exposure guard, which passes the checks and the debit, but
  -- whose round cannot be stored, run to its answer: it is refused, no row of a round is written, every play
  -- balance is as it was, and yet the bet stays on its seat in a betting window, so that the play balances
  -- and the live stakes together have grown by the stake.
  pub failed_opening-creates :
      {r : ℤ × Accounts}
      → IsTable f.table
      → env.stored ≡ false
      → f.table.phase ≡ Phase.idle
      → f.table.exposure ≡ none
      → seat_of user_id f.table.seats ≡ some seat
      → place_checks gates f.accounts user_id bet ≡ ok tt
      → apply_balance_delta f.accounts user_id
          (pos 0 -ℤ pos (bet_total bet))
          (table_meta "blackjack_bet" f.table.id)
        ≡ ok r
      → IsStranded user_id bet seat f
          (alone crypto env 3 (serve gates crypto env.saved f user_id (Request.to_bet bet)))
  unfolding serve request_bet alone resume debit_then seat_bet after_placing credit_then
  failed_opening-creates {r} table failed idle no_guard found allowed paid =
      let n = bet_total bet in
      let meta = table_meta "refund" f.table.id in
      let (u, m) =
        apply_balance_delta-Applied f.accounts user_id (pos 0 -ℤ pos n)
          (table_meta "blackjack_bet" f.table.id) paid in
      let (back, refunded) = credit_goes_through r.1 user_id n meta _ refl m.updated in
      let done : Floor = record f { accounts = back.1; table = stuck f.table seat.index bet } in
      let reply : alone crypto env 3 (serve gates crypto env.saved f user_id (Request.to_bet bet))
          ≡ (done, Task.answered (err unavailable)) =
        rw (allowed, request_bet)
          (rw (paid, debit_then)
            (rw
              (
                place_bet-stuck env f.table f.rounds user_id bet seat failed idle no_guard found,
                seat_bet,
              )
              (rw (refunded, credit_then) refl))) in
      let (at, own) = seat_of-at user_id f.table.seats seat table.distinct found in
      rw reply (record {
        refused = refl;
        open_window = refl;
        no_row = refl;
        seated = seat_of-update user_id bet f.table.seats seat found at own;
        balances = round_trip f.accounts r.1 back.1 user_id n f.table.id (λ j. 0) paid refunded;
        created = λ j.
            let grown : live (stuck f.table seat.index bet) j + 0
                ≡ live f.table j + to_user user_id n j =
              omega (arith, stuck-live f.table user_id bet seat table idle found j) in
            round_trip f.accounts r.1 back.1 user_id n f.table.id
              (λ j. live (stuck f.table seat.index bet) j + 0) paid refunded j
            ∙ ap (λ k. worth_of k (f.accounts.users j)) grown;
      })

-- A bet in an open window that is cleared, while the row cannot be written: the request fails and gives nothing
-- back, and the bet is off the table.
pub failed_clear-loses :
    (gates : Gates) (crypto : Crypto) (f : Floor) (user_id refund : ℕ) {t : TableState}
    {rows : List RoundRow}
    → IsTable f.table
    → has_round f.table ≡ true
    → clear_stake f.table f.rounds user_id ≡ ok (refund, t, rows)
    → ((serve gates crypto false f user_id Request.to_clear).1 ≡ Task.answered (err unavailable))
      × ((serve gates crypto false f user_id Request.to_clear).0.accounts ≡ f.accounts)
      × ((j : ℕ)
          → live (serve gates crypto false f user_id Request.to_clear).0.table j
              + to_user user_id refund j
            ≡ live f.table j)
unfolding serve request_clear clear_bet after_save after_clear
failed_clear-loses gates crypto f user_id refund table known cleared =
    rw (cleared, known, request_clear)
      (refl, refl, (clear_stake-live f.table f.rounds user_id table cleared).0)
