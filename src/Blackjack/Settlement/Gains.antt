-- ===== src/Blackjack/Settlement/Gains.antt =====
-- What the settlement and the recovery of apps/api/src/games/blackjack/blackjack.engine.ts add to play balances.
use scadium.Ledger.Worth.{to_user}
use scadium.Prelude.{
  ℕ, ◌+◌, ◌≡◌, inl, inr, refl, sym, subst, ◌∙◌, Bool, true, not, Option, none, some, List, [], ◌∷◌,
  ltb, ◌==◌, if◌then◌else◌, arith, Bool-cases, ok, raise_if, or_raise, missing_row, claim_lost, put,
  >>=-eq-ok, ℕ_discrete,
}
use scadium.Prelude.Int.{pos, ◌+ℤ◌, int_laws, +ℤ_zero}
use scadium.Ledger.{User, Accounts, Meta, Currency, balance, apply_balance_delta}
use scadium.Ledger.Moves.{apply_balance_delta-Applied}
use scadium.Rounds.{GameType, Services, bump, pay}
use scadium.Rounds.Money.Steps.{KeepsPlay, pay-Moves, bump-found}
use scadium.Blackjack.{SeatBet, Seat, RoundRow, TableState, stake_of, bet_total, update_round}
use scadium.Blackjack.Settlement.{
  BlackjackDb, blackjack_meta, pay_seat, pay_seats, settle_tx, is_open_round, refund_all,
  recover_tx, parse_seat_stakes,
}

-- Every user's play balance grows by `gain`.
abbrev pub Gains : Accounts → Accounts → (ℕ → ℕ) → Type 0
Gains a a' gain =
    (j : ℕ) (u' : User)
    → a'.users j ≡ some u'
    → (u : User) × (a.users j ≡ some u)
      × (balance Currency.jeton u' ≡ balance Currency.jeton u +ℤ pos (gain j))

pub Gains-trans :
    (a b c : Accounts) (f g : ℕ → ℕ) → Gains a b f → Gains b c g → Gains a c (λ j. f j + g j)
Gains-trans a b c f g first second j u'' found =
    let (u', here, after) = second j u'' found in
    let (u, start, before) = first j u' here in (u, start, rw (after, before) (omega int_laws))

pub Gains-none : (a : Accounts) → Gains a a (λ j. 0)
Gains-none a j u found = (u, found, sym (+ℤ_zero (balance Currency.jeton u)))

pub pay-Gains :
    (a : Accounts) (id amount : ℕ) (meta : Meta) {a' : Accounts}
    → meta.currency ≡ Currency.jeton
    → pay a id amount meta ≡ ok a'
    → Gains a a' (to_user id amount)
unfolding pay
pay-Gains a id amount meta {a'} play h j u' found = elim (ℕ_discrete id j) [
  | yes own ↦
      let at : a'.users id ≡ some u' = subst (λ k. a'.users k ≡ some u') (sym own) found in
      let (u, start, after) = pay-Moves a id amount meta play h u' at in
      let all_to : to_user id amount j ≡ amount = ground arith in
      (u, subst (λ k. a.users k ≡ some u) own start, rw all_to after)
  | no other ↦
      let none_to : to_user id amount j ≡ 0 = ground arith in
      let kept : a'.users j ≡ a.users j = elim (Bool-cases (ltb 0 amount)) [
        | inr nothing ↦ ground arith
        | inl something ↦
            let (moved, done, last) =
              >>=-eq-ok (apply_balance_delta a id (pos amount) meta) _ (rw something at h) in
            let (u, m) = apply_balance_delta-Applied a id (pos amount) meta done in
            let same : moved.1 ≡ a' = ground arith in
            subst (λ (x : Accounts). x.users j ≡ a.users j) same (m.others j (λ e. other (sym e)))
      ] in
      (u', sym kept ∙ found, rw none_to (sym (+ℤ_zero (balance Currency.jeton u'))))
]

abbrev bumped_accounts : ℕ → ℕ → ℕ → User → Accounts → Accounts
bumped_accounts id stake payout user a = record a {
  users = put id (bump stake payout user) a.users;
}

bump-Gains :
    (a : Accounts) (id stake payout : ℕ) (user : User)
    → a.users id ≡ some user
    → Gains a (bumped_accounts id stake payout user a) (λ j. 0)
bump-Gains a id stake payout user here j u' found = elim (ℕ_discrete id j) [
  | yes own ↦
      let at : put id (bump stake payout user) a.users id ≡ some u' =
        subst (λ k. put id (bump stake payout user) a.users k ≡ some u') (sym own) found in
      (
        user,
        subst (λ k. a.users k ≡ some user) own here,
        bump-found a id stake payout user u' here at ∙ sym (+ℤ_zero (balance Currency.jeton user)),
      )
  | no other ↦
      let kept : a.users j ≡ some u' = ground arith in
      (u', kept, sym (+ℤ_zero (balance Currency.jeton u')))
]

-- What a list of seats is paid, and what it is refunded.
abbrev pub payouts : List Seat → ℕ → ℕ
payouts [] j = 0
payouts (s ∷ players) j = to_user s.user_id s.payout_lamports j + payouts players j

abbrev pub refunds : List (ℕ × ℕ) → ℕ → ℕ
refunds [] j = 0
refunds ((user_id, stake) ∷ rest) j = to_user user_id stake j + refunds rest j

Gains-same : (a b : Accounts) (f g : ℕ → ℕ) → ((j : ℕ) → f j ≡ g j) → Gains a b f → Gains a b g
Gains-same a b f g same h j u' found =
    let (u, start, after) = h j u' found in
    (
      u,
      start,
      subst (λ n. balance Currency.jeton u' ≡ balance Currency.jeton u +ℤ pos n) (same j) after,
    )

Gains-after : (a b c : Accounts) (g : ℕ → ℕ) → Gains a b (λ j. 0) → Gains b c g → Gains a c g
Gains-after a b c g first second =
    Gains-same a c (λ j. 0 + g j) g (λ j. omega arith) (Gains-trans a b c (λ j. 0) g first second)

module _ {E : Type 0} (services : Services E) (ratio : ℕ → ℕ → ℕ) (keeps : KeepsPlay services) where
  pay_seat-Gains :
      (nonce : ℕ) (s : Seat) (db : BlackjackDb E) {db' : BlackjackDb E}
      → pay_seat services ratio nonce s db ≡ ok db'
      → Gains db.accounts db'.accounts (to_user s.user_id s.payout_lamports)
  unfolding pay_seat
  pay_seat-Gains nonce s db {db'} h =
      let stake = stake_of s.bet in
      let payout = s.payout_lamports in
      let (user, here, h₁) = >>=-eq-ok (or_raise (db.accounts.users s.user_id) missing_row) _ h in
      let bumped = bumped_accounts s.user_id stake payout user db.accounts in
      let (accrued, accrued_ok, h₂) =
        >>=-eq-ok (services.accrue db.rest bumped s.user_id GameType.blackjack stake) _ h₁ in
      let (rest, rest_ok, h₃) =
        >>=-eq-ok (services.credit_referral accrued.0 s.user_id stake GameType.blackjack) _ h₂ in
      let meta = blackjack_meta "blackjack_settle" "Bet" db.next_id in
      let (paid, paid_ok, h₄) = >>=-eq-ok (pay accrued.1 s.user_id payout meta) _ h₃ in
      let same : paid ≡ db'.accounts = ground arith in
      let found : db.accounts.users s.user_id ≡ some user = ground arith in
      let accrue_Gains : Gains bumped accrued.1 (λ j. 0) = λ j u' at.
        let (u, start, equal) =
          keeps.kept db.rest bumped s.user_id GameType.blackjack stake accrued_ok j u' at in
        (u, start, equal ∙ sym (+ℤ_zero (balance Currency.jeton u))) in
      subst (λ (x : Accounts). Gains db.accounts x (to_user s.user_id payout)) same
        (Gains-after db.accounts bumped paid (to_user s.user_id payout)
          (bump-Gains db.accounts s.user_id stake payout user found)
          (Gains-after bumped accrued.1 paid (to_user s.user_id payout) accrue_Gains
            (pay-Gains accrued.1 s.user_id payout meta refl paid_ok)))

  pay_seats-Gains :
      (nonce : ℕ) (players : List Seat) (db : BlackjackDb E) {db' : BlackjackDb E}
      → pay_seats services ratio nonce players db ≡ ok db'
      → Gains db.accounts db'.accounts (payouts players)
  unfolding pay_seats
  pay_seats-Gains nonce [] db {db'} h =
      let same : db.accounts ≡ db'.accounts = ground arith in
      subst (λ (x : Accounts). Gains db.accounts x (λ j. 0)) same (Gains-none db.accounts)
  pay_seats-Gains nonce (s ∷ players) db {db'} h =
      let (first, paid, rest) = >>=-eq-ok (pay_seat services ratio nonce s db) _ h in
      Gains-trans db.accounts first.accounts db'.accounts (to_user s.user_id s.payout_lamports)
        (payouts players) (pay_seat-Gains nonce s db paid)
        (pay_seats-Gains nonce players first rest)

  -- A settlement that goes through adds to every user's play balance exactly the payouts of that user's seats.
  pub settle_tx-pays :
      (leader : Bool) (players : List Seat) (state : List (ℕ × Option SeatBet)) (t : TableState)
      (db : BlackjackDb E) {db' : BlackjackDb E}
      → settle_tx services ratio leader players state t db ≡ ok db'
      → Gains db.accounts db'.accounts (payouts players)
  unfolding settle_tx
  settle_tx-pays leader players state t db h =
      let (u, led, h₁) = >>=-eq-ok (raise_if (not leader) claim_lost) _ h in
      let (id, known, h₂) = >>=-eq-ok (or_raise t.round_db_id missing_row) _ h₁ in
      let (v, free, h₃) = >>=-eq-ok (raise_if (not (is_open_round id db.rounds)) claim_lost) _ h₂ in
      pay_seats-Gains t.nonce players
        (record db {
          rounds = update_round id (λ r. record r { ended = true; seats = state }) db.rounds;
        })
        h₃

refund_all-Gains :
    (id : ℕ) (stakes : List (ℕ × ℕ)) (a : Accounts) {a' : Accounts}
    → refund_all id stakes a ≡ ok a'
    → Gains a a' (refunds stakes)
unfolding refund_all
refund_all-Gains id [] a {a'} h =
    let same : a ≡ a' = ground arith in
    subst (λ (x : Accounts). Gains a x (λ j. 0)) same (Gains-none a)
refund_all-Gains id ((user_id, stake) ∷ stakes) a {a'} h =
    let meta = blackjack_meta "blackjack_recovery_refund" "BlackjackRound" id in
    let (paid, done, rest) = >>=-eq-ok (pay a user_id stake meta) _ h in
    Gains-trans a paid a' (to_user user_id stake) (refunds stakes)
      (pay-Gains a user_id stake meta refl done) (refund_all-Gains id stakes paid rest)

-- What the seats of a round's row hold for user `j`: the main bet and both side bets.
unfoldable pub row_stakes : List (ℕ × Option SeatBet) → ℕ → ℕ
row_stakes [] j = 0
row_stakes ((user_id, none) ∷ seats) j = row_stakes seats j
row_stakes ((user_id, some bet) ∷ seats) j =
    (if user_id == j
      then bet.main_lamports + bet.side_21p3_lamports + bet.side_perfect_pairs_lamports
      else 0)
    + row_stakes seats j

refunds-row_stakes :
    (seats : List (ℕ × Option SeatBet)) (j : ℕ)
    → refunds (parse_seat_stakes seats) j ≡ row_stakes seats j
unfolding parse_seat_stakes row_stakes bet_total
refunds-row_stakes [] j = refl
refunds-row_stakes ((user_id, none) ∷ seats) j = refunds-row_stakes seats j
refunds-row_stakes ((user_id, some bet) ∷ seats) j = grind (arith, refunds-row_stakes seats j)

-- A recovery that goes through adds to every user's play balance exactly what the seats of the round's row hold
-- for the user: the main bet and both side bets of each.
pub recover_tx-Gains :
    {E : Type 0} (row : RoundRow) (db : BlackjackDb E) {db' : BlackjackDb E}
    → recover_tx row db ≡ ok db'
    → Gains db.accounts db'.accounts (row_stakes row.seats)
unfolding recover_tx
recover_tx-Gains row db {db'} h =
    let (u, free, h₁) =
      >>=-eq-ok (raise_if (not (is_open_round row.id db.rounds)) claim_lost) _ h in
    let (paid, done, h₂) =
      >>=-eq-ok (refund_all row.id (parse_seat_stakes row.seats) db.accounts) _ h₁ in
    let same : paid ≡ db'.accounts = ground arith in
    Gains-same db.accounts db'.accounts (refunds (parse_seat_stakes row.seats))
      (row_stakes row.seats) (refunds-row_stakes row.seats)
      (subst (λ (x : Accounts). Gains db.accounts x (refunds (parse_seat_stakes row.seats))) same
        (refund_all-Gains row.id (parse_seat_stakes row.seats) db.accounts done))
