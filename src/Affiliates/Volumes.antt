-- ===== src/Affiliates/Volumes.antt =====
-- A blackjack settlement, of apps/api/src/games/blackjack/blackjack.engine.ts, with the services it calls.
use scadium.Prelude.{
  ℕ, ◌+◌, ◌≡◌, ◌≢◌, inl, inr, refl, sym, subst, ◌∙◌, Bool, true, not, ◌&&◌, Option, List, [], ◌∷◌,
  ◌==◌, if◌then◌else◌, arith, Bool-cases, Option-cases, Result, ok, raise_if, or_raise, missing_row,
  claim_lost, put, >>=-eq-ok,
}
use scadium.Ledger.{Accounts}
use scadium.Rounds.{GameType, bump, pay}
use scadium.Rounds.Money.Steps.{KeepsPlay}
use scadium.Blackjack.{SeatBet, Seat, TableState, stake_of, update_round}
use scadium.Blackjack.Settlement.{
  BlackjackDb, blackjack_meta, pay_seat, pay_seats, settle_tx, is_open_round,
}
use scadium.Blackjack.Settlement.Gains.{Gains, payouts, settle_tx-pays}
use scadium.Affiliates.{
  Network, Volume, upsert_volume, accrue, credit_referral, credit_referrer, engine,
}

-- The services leave the balances that are played with alone.
pub engine-KeepsPlay :
    (gate : Network → Accounts → ℕ → ℕ → Result (Unit {0})) → KeepsPlay (engine gate)
unfolding engine
engine-KeepsPlay gate = record {
  kept = λ e a user_id game stake h v u' found. (u', ground arith, refl);
}

-- What a period holds of a user.
unfoldable pub volume : ℕ → ℕ → List Volume → ℕ
volume period j [] = 0
volume period j (v ∷ rows) =
    (if v.period == period && v.user_id == j then v.wagered_lamports else 0) + volume period j rows

abbrev pub staked : List Seat → ℕ → ℕ
staked [] j = 0
staked (s ∷ players) j = (if s.user_id == j then stake_of s.bet else 0) + staked players j

volume-upsert :
    (period j own user_id stake : ℕ) (rows : List Volume)
    → volume period j (upsert_volume own user_id stake rows)
      ≡ volume period j rows + (if own == period && user_id == j then stake else 0)
unfolding volume upsert_volume
volume-upsert period j own user_id stake [] = grind arith
volume-upsert period j own user_id stake (v ∷ rows) =
    grind (arith, volume-upsert period j own user_id stake rows)

-- A period of the network counts a wager once.
record Counts (n n' : Network) (more : ℕ → ℕ) : Type 0 where
  same_daily : n'.daily ≡ n.daily
  same_weekly : n'.weekly ≡ n.weekly
  on_daily : (j : ℕ) → volume n.daily j n'.volumes ≡ volume n.daily j n.volumes + more j
  on_weekly : (j : ℕ) → volume n.weekly j n'.volumes ≡ volume n.weekly j n.volumes + more j

accrue-Counts :
    (n : Network) (user_id stake : ℕ)
    → n.daily ≢ n.weekly
    → Counts n (accrue n user_id stake) (λ j. if user_id == j then stake else 0)
unfolding accrue
accrue-Counts n user_id stake ne = elim (Bool-cases (stake == 0)) [
  | inl nothing ↦
      rw (nothing, accrue)
        (record {
          same_daily = refl;
          same_weekly = refl;
          on_daily = λ j. grind arith;
          on_weekly = λ j. grind arith;
        })
  | inr some_stake ↦
      let once = upsert_volume n.daily user_id stake n.volumes in
      rw (some_stake, accrue)
        (record {
          same_daily = refl;
          same_weekly = refl;
          on_daily = λ j. grind (
            arith,
            volume-upsert n.daily j n.weekly user_id stake once,
            volume-upsert n.daily j n.daily user_id stake n.volumes,
          );
          on_weekly = λ j. grind (
            arith,
            volume-upsert n.weekly j n.weekly user_id stake once,
            volume-upsert n.weekly j n.daily user_id stake n.volumes,
          );
        })
]

credit_referral-keeps :
    (n : Network) (user_id stake : ℕ) (game : GameType)
    → ((credit_referral n user_id stake game).volumes ≡ n.volumes)
      × ((credit_referral n user_id stake game).daily ≡ n.daily)
      × ((credit_referral n user_id stake game).weekly ≡ n.weekly)
unfolding credit_referral credit_referrer
credit_referral-keeps n user_id stake game = elim (Bool-cases (stake == 0)) [
  | inl nothing ↦ rw (nothing, credit_referral) (refl, refl, refl)
  | inr some_stake ↦ elim (Option-cases (n.members user_id)) [
    | inl unknown ↦ rw (some_stake, unknown, credit_referral) (refl, refl, refl)
    | inr (m, found) ↦ elim (Option-cases m.referred_by_id) [
      | inl alone ↦ rw (some_stake, found, alone, credit_referral) (refl, refl, refl)
      | inr (r, referred) ↦ rw (some_stake, found, referred, credit_referral) (refl, refl, refl)
    ]
  ]
]

Counts-trans :
    (a b c : Network) (f g : ℕ → ℕ) → Counts a b f → Counts b c g → Counts a c (λ j. f j + g j)
Counts-trans a b c f g first second = record {
  same_daily = second.same_daily ∙ first.same_daily;
  same_weekly = second.same_weekly ∙ first.same_weekly;
  on_daily = λ j.
      let again : volume a.daily j c.volumes ≡ volume a.daily j b.volumes + g j =
        subst (λ p. volume p j c.volumes ≡ volume p j b.volumes + g j) first.same_daily
          (second.on_daily j) in
      omega (arith, again, first.on_daily j);
  on_weekly = λ j.
      let again : volume a.weekly j c.volumes ≡ volume a.weekly j b.volumes + g j =
        subst (λ p. volume p j c.volumes ≡ volume p j b.volumes + g j) first.same_weekly
          (second.on_weekly j) in
      omega (arith, again, first.on_weekly j);
}

module _ (gate : Network → Accounts → ℕ → ℕ → Result (Unit {0})) (ratio : ℕ → ℕ → ℕ) where
  pay_seat-Counts :
      (nonce : ℕ) (s : Seat) (db : BlackjackDb Network) {db' : BlackjackDb Network}
      → db.rest.daily ≢ db.rest.weekly
      → pay_seat (engine gate) ratio nonce s db ≡ ok db'
      → Counts db.rest db'.rest (λ j. if s.user_id == j then stake_of s.bet else 0)
  unfolding pay_seat engine
  pay_seat-Counts nonce s db {db'} ne h =
      let stake = stake_of s.bet in
      let counted = accrue db.rest s.user_id stake in
      let counts = accrue-Counts db.rest s.user_id stake ne in
      let (volumes, daily, weekly) =
        credit_referral-keeps counted s.user_id stake GameType.blackjack in
      let (user, here, h₁) = >>=-eq-ok (or_raise (db.accounts.users s.user_id) missing_row) _ h in
      let meta = blackjack_meta "blackjack_settle" "Bet" db.next_id in
      let bumped : Accounts = record db.accounts {
        users = put s.user_id (bump stake s.payout_lamports user) db.accounts.users;
      } in
      let (paid, paid_ok, h₂) = >>=-eq-ok (pay bumped s.user_id s.payout_lamports meta) _ h₁ in
      let rest : db'.rest ≡ credit_referral counted s.user_id stake GameType.blackjack =
        ground arith in
      record {
        same_daily = rw rest (daily ∙ counts.same_daily);
        same_weekly = rw rest (weekly ∙ counts.same_weekly);
        on_daily = λ j. rw (rest, volumes) (counts.on_daily j);
        on_weekly = λ j. rw (rest, volumes) (counts.on_weekly j);
      }

  pay_seats-Counts :
      (nonce : ℕ) (players : List Seat) (db : BlackjackDb Network) {db' : BlackjackDb Network}
      → db.rest.daily ≢ db.rest.weekly
      → pay_seats (engine gate) ratio nonce players db ≡ ok db'
      → Counts db.rest db'.rest (staked players)
  unfolding pay_seats
  pay_seats-Counts nonce [] db {db'} ne h =
      let rest : db'.rest ≡ db.rest = ground arith in
      rw rest (record {
        same_daily = refl;
        same_weekly = refl;
        on_daily = λ j. omega arith;
        on_weekly = λ j. omega arith;
      })
  pay_seats-Counts nonce (s ∷ players) db {db'} ne h =
      let (first, paid, more) = >>=-eq-ok (pay_seat (engine gate) ratio nonce s db) _ h in
      let counts = pay_seat-Counts nonce s db ne paid in
      let still : first.rest.daily ≢ first.rest.weekly =
        λ e. ne (sym counts.same_daily ∙ e ∙ counts.same_weekly) in
      Counts-trans db.rest first.rest db'.rest (λ j. if s.user_id == j then stake_of s.bet else 0)
        (staked players) counts (pay_seats-Counts nonce players first still more)

-- What a settlement is to do: every player is paid the payouts of their seats, and their stakes are counted once
-- in the day and once in the week.
pub record IsSettled (players : List Seat) (db db' : BlackjackDb Network) : Type 0 where
  pub paid : Gains db.accounts db'.accounts (payouts players)
  pub day :
      (j : ℕ)
      → volume db.rest.daily j db'.rest.volumes
        ≡ volume db.rest.daily j db.rest.volumes + staked players j
  pub week :
      (j : ℕ)
      → volume db.rest.weekly j db'.rest.volumes
        ≡ volume db.rest.weekly j db.rest.volumes + staked players j

-- A blackjack settlement that goes through, with the proof of wager and the referrals as they are, pays every
-- player the payouts of their seats, and counts their stakes once in the day's volume and once in the
-- week's, as long as the keys of the two differ.
pub settle_tx-IsSettled :
    (gate : Network → Accounts → ℕ → ℕ → Result (Unit {0})) (ratio : ℕ → ℕ → ℕ) (leader : Bool)
    (players : List Seat) (state : List (ℕ × Option SeatBet)) (t : TableState)
    (db : BlackjackDb Network) {db' : BlackjackDb Network}
    → db.rest.daily ≢ db.rest.weekly
    → settle_tx (engine gate) ratio leader players state t db ≡ ok db'
    → IsSettled players db db'
unfolding settle_tx
settle_tx-IsSettled gate ratio leader players state t db {db'} ne h =
    let (u, led, h₁) = >>=-eq-ok (raise_if (not leader) claim_lost) _ h in
    let (id, known, h₂) = >>=-eq-ok (or_raise t.round_db_id missing_row) _ h₁ in
    let (v, free, h₃) = >>=-eq-ok (raise_if (not (is_open_round id db.rounds)) claim_lost) _ h₂ in
    let counts =
      pay_seats-Counts gate ratio t.nonce players
        (record db {
          rounds = update_round id (λ r. record r { ended = true; seats = state }) db.rounds;
        })
        ne h₃ in
    record {
      paid = settle_tx-pays (engine gate) ratio (engine-KeepsPlay gate) leader players state t db h;
      day = counts.on_daily;
      week = counts.on_weekly;
    }
