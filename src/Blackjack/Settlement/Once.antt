-- ===== src/Blackjack/Settlement/Once.antt =====
-- Repeated settlements and recoveries of one round: apps/api/src/games/blackjack/blackjack.engine.ts and
-- apps/api/src/games/settle-claim.ts.
use scadium.Prelude.{
  ℕ, ◌≡◌, inl, inr, refl, ap, ◌∙◌, Bool, true, false, not, Option, some, List, [], ◌∷◌, ◌==◌, arith,
  Bool-cases, ok, err, raise_if, or_raise, missing_row, claim_lost, put, >>=-eq-ok,
}
use scadium.Ledger.{Accounts}
use scadium.Rounds.{GameType, Services, bump, pay}
use scadium.Blackjack.{SeatBet, Seat, TableState, RoundRow, stake_of, update_round}
use scadium.Blackjack.Settlement.{
  BlackjackDb, blackjack_meta, pay_seat, pay_seats, settle_tx, is_open_round, refund_all,
  recover_tx, parse_seat_stakes, end_round,
}

-- A write that ends a round.
pub record Ends (change : RoundRow → RoundRow) : Type 0 where
  pub id : (r : RoundRow) → (change r).id ≡ r.id
  pub ended : (r : RoundRow) → (change r).ended ≡ true

update-closed :
    (id j : ℕ) (change : RoundRow → RoundRow) (rows : List RoundRow)
    → Ends change
    → is_open_round id rows ≡ false
    → is_open_round id (update_round j change rows) ≡ false
unfolding is_open_round update_round
update-closed id j change [] ends h = h
update-closed id j change (r ∷ rows) ends h = elim (Bool-cases (r.id == j)) [
  | inl e ↦ rw (e, ends.id r, ends.ended r) (ground arith)
  | inr e ↦ rw e (ground (arith, update-closed id j change rows ends))
]

pub update-closes :
    (id : ℕ) (change : RoundRow → RoundRow) (rows : List RoundRow)
    → Ends change
    → is_open_round id (update_round id change rows) ≡ false
unfolding is_open_round update_round
update-closes id change [] ends = refl
update-closes id change (r ∷ rows) ends = elim (Bool-cases (r.id == id)) [
  | inl e ↦ rw (e, ends.id r, ends.ended r, e) refl
  | inr e ↦ rw (e, e) (update-closes id change rows ends)
]

module _ {E : Type 0} (services : Services E) (ratio : ℕ → ℕ → ℕ) where
  pay_seat-rounds :
      (nonce : ℕ) (s : Seat) (db : BlackjackDb E) {db' : BlackjackDb E}
      → pay_seat services ratio nonce s db ≡ ok db'
      → db'.rounds ≡ db.rounds
  unfolding pay_seat
  pay_seat-rounds nonce s db {db'} h =
      let stake = stake_of s.bet in
      let (user, here, h₁) = >>=-eq-ok (or_raise (db.accounts.users s.user_id) missing_row) _ h in
      let bumped : Accounts = record db.accounts {
        users = put s.user_id (bump stake s.payout_lamports user) db.accounts.users;
      } in
      let (accrued, accrued_ok, h₂) =
        >>=-eq-ok (services.accrue db.rest bumped s.user_id GameType.blackjack stake) _ h₁ in
      let (rest, rest_ok, h₃) =
        >>=-eq-ok (services.credit_referral accrued.0 s.user_id stake GameType.blackjack) _ h₂ in
      let meta = blackjack_meta "blackjack_settle" "Bet" db.next_id in
      let (paid, paid_ok, h₄) = >>=-eq-ok (pay accrued.1 s.user_id s.payout_lamports meta) _ h₃ in
      ground arith

  pub pay_seats-rounds :
      (nonce : ℕ) (players : List Seat) (db : BlackjackDb E) {db' : BlackjackDb E}
      → pay_seats services ratio nonce players db ≡ ok db'
      → db'.rounds ≡ db.rounds
  unfolding pay_seats
  pay_seats-rounds nonce [] db h = ground arith
  pay_seats-rounds nonce (s ∷ players) db h =
      let (first, paid, rest) = >>=-eq-ok (pay_seat services ratio nonce s db) _ h in
      pay_seats-rounds nonce players first rest ∙ pay_seat-rounds nonce s db paid

  -- One attempt that goes through: a settlement of a table's round, or a recovery of a row.
  pub data Attempt (id : ℕ) (db db' : BlackjackDb E) : Type 0 where
    settled_now :
        (leader : Bool) (players : List Seat) (state : List (ℕ × Option SeatBet)) (t : TableState)
        → t.round_db_id ≡ some id
        → settle_tx services ratio leader players state t db ≡ ok db'
        → Attempt id db db'
    recovered : (row : RoundRow) → row.id ≡ id → recover_tx row db ≡ ok db' → Attempt id db db'

  pub data Attempts (db : BlackjackDb E) : BlackjackDb E → Type 0 where
    no_more : Attempts db db
    then_one :
        {db' db'' : BlackjackDb E} (id : ℕ)
        → Attempts db db'
        → Attempt id db' db''
        → Attempts db db''

  -- What an attempt writes to the rounds.
  Attempt-writes :
      (id : ℕ) (db db' : BlackjackDb E)
      → Attempt id db db'
      → (change : RoundRow → RoundRow) × Ends change
        × (db'.rounds ≡ update_round id change db.rounds)
  unfolding settle_tx recover_tx
  Attempt-writes id db db' (settled_now leader players state t known h) =
      let (u, led, h₁) = >>=-eq-ok (raise_if (not leader) claim_lost) _ h in
      let (own, named, h₂) = >>=-eq-ok (or_raise t.round_db_id missing_row) _ h₁ in
      let (v, free, h₃) =
        >>=-eq-ok (raise_if (not (is_open_round own db.rounds)) claim_lost) _ h₂ in
      let same : own ≡ id = ground arith in
      let change : RoundRow → RoundRow = λ r. record r { ended = true; seats = state } in
      (
        change,
        record { id = λ r. refl; ended = λ r. refl },
        pay_seats-rounds t.nonce players (record db { rounds = update_round own change db.rounds })
              h₃
            ∙ ap (λ k. update_round k change db.rounds) same,
      )
  Attempt-writes id db db' (recovered row same h) =
      let (u, free, h₁) =
        >>=-eq-ok (raise_if (not (is_open_round row.id db.rounds)) claim_lost) _ h in
      let (paid, done, h₂) =
        >>=-eq-ok (refund_all row.id (parse_seat_stakes row.seats) db.accounts) _ h₁ in
      let wrote : db'.rounds ≡ update_round row.id end_round db.rounds = ground arith in
      (
        end_round,
        record { id = λ r. refl; ended = λ r. refl },
        wrote ∙ ap (λ k. update_round k end_round db.rounds) same,
      )

  Attempts-closed :
      (id : ℕ) (db : BlackjackDb E) {db' : BlackjackDb E}
      → is_open_round id db.rounds ≡ false
      → Attempts db db'
      → is_open_round id db'.rounds ≡ false
  Attempts-closed id db h no_more = h
  Attempts-closed id db h (then_one {db'} {db''} j before last) =
      let (change, ends, wrote) = Attempt-writes j db' db'' last in
      ap (is_open_round id) wrote
      ∙ update-closed id j change db'.rounds ends (Attempts-closed id db h before)

  -- A round is settled or refunded at most once: after an attempt on it that goes through, and any others, every
  -- further settlement of it, by a leader or not, and every further recovery of it is a lost claim, which
  -- moves nothing.
  pub Attempt-once :
      (id : ℕ) (db db' : BlackjackDb E) {db'' : BlackjackDb E}
      → Attempt id db db'
      → Attempts db' db''
      → ((leader : Bool) (players : List Seat) (state : List (ℕ × Option SeatBet)) (t : TableState)
          → settle_tx services ratio leader players state (record t { round_db_id = some id }) db''
            ≡ err claim_lost)
        × ((row : RoundRow) → recover_tx (record row { id = id }) db'' ≡ err claim_lost)
  unfolding settle_tx recover_tx
  Attempt-once id db db' {db''} first later =
      let (change, ends, wrote) = Attempt-writes id db db' first in
      let closed =
        Attempts-closed id db'
          (ap (is_open_round id) wrote ∙ update-closes id change db.rounds ends) later in
      (
        λ leader players state t. elim (Bool-cases leader) [
          | inl led ↦ rw (led, closed) refl
          | inr not_led ↦ rw not_led refl
        ],
        λ row. rw closed refl,
      )
