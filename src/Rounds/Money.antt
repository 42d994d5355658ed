-- ===== src/Rounds/Money.antt =====
-- What the settlement paths do to a player's balance: apps/api/src/games/instant.
pub mod Steps
use scadium.Prelude.{
  ℕ, ◌*◌, ◌/◌, ◌≡◌, inl, inr, refl, sym, subst, ◌∙◌, ap, Bool, none, some, leb, ltb, arith,
  if◌then◌else◌, Result, ok, raise_if, or_raise, conflict, missing_row, Bool-cases, put, >>=-eq-ok,
}
use scadium.Prelude.Int.{ℤ, pos, ◌+ℤ◌, ◌-ℤ◌, int_laws, +ℤ_zero}
use scadium.Ledger.{User, Accounts, Meta, Currency, balance, apply_balance_delta}
use scadium.Ledger.Moves.{apply_balance_delta-Applied, Applied-own}
use scadium.Fair.Hash.{Crypto}
use scadium.Fair.Derive.{Seed}
use scadium.Seeds.{Draws}
use scadium.Rounds.{GameType, Round, Bet, Services, RoundDb, round_meta, settle, pay, bump}
use scadium.Rounds.Stateful.{
  Built, StepResult, finish, Anchor, any_current, find_round, take_seed, fold_seed,
  start_stateful_round, finish_round, write_step, advance_stateful_round, round_payout, round_bet,
}
use scadium.Rounds.Stateful.Once.{advance-Advanced}
use scadium.Rounds.Instant.{instant_payout, settle_instant_bet}
use scadium.Rounds.Money.Steps.{KeepsPlay, Moves, delta-Moves, Moves-trans, pay-Moves, bump-found}

round_payout_eq :
    (stake multiplier : ℕ) (won : Bool)
    → round_payout stake won multiplier ≡ (if won then stake * multiplier / 100 else 0)
unfolding round_payout
round_payout_eq stake multiplier won = ground arith

instant_payout_eq :
    (amount multiplier : ℕ) → instant_payout amount multiplier ≡ amount * multiplier / 100
unfolding instant_payout
instant_payout_eq amount multiplier = ground arith

module _ {E S P R : Type 0} where
  settle-Moves :
      (services : Services E) (db : RoundDb E S P R) (user_id : ℕ) (game : GameType)
      (stake payout : ℕ) (meta : Meta) (bet : Bet) {db' : RoundDb E S P R}
      → KeepsPlay services
      → meta.currency ≡ Currency.jeton
      → settle services db user_id game stake payout meta bet ≡ ok db'
      → Moves db.accounts db'.accounts user_id (pos payout)
  unfolding settle
  settle-Moves services db user_id game stake payout meta bet {db'} keeps play h u' found =
      let (paid, paid_ok, h₁) = >>=-eq-ok (pay db.accounts user_id payout meta) _ h in
      let (user, user_ok, h₂) = >>=-eq-ok (or_raise (paid.users user_id) missing_row) _ h₁ in
      let bumped : Accounts = record paid {
        users = put user_id (bump stake payout user) paid.users;
      } in
      let (accrued, accrued_ok, h₃) =
        >>=-eq-ok (services.accrue db.rest bumped user_id game stake) _ h₂ in
      let (rest, rest_ok, h₄) =
        >>=-eq-ok (services.credit_referral accrued.0 user_id stake game) _ h₃ in
      let (v, bumped_found, same_balance) =
        keeps.kept db.rest bumped user_id game stake accrued_ok user_id u' (ground arith) in
      let user_found : paid.users user_id ≡ some user = ground arith in
      let (u, start, after) =
        pay-Moves db.accounts user_id payout meta play paid_ok user user_found in
      (
        u,
        start,
        same_balance ∙ bump-found paid user_id stake payout user v user_found bumped_found ∙ after,
      )

  finish-Moves :
      (services : Services E) (db : RoundDb E S P R) (round : Round S P R) (won : Bool)
      (multiplier : ℕ) (result : R) {db' : RoundDb E S P R}
      → KeepsPlay services
      → finish_round services db round won multiplier result ≡ ok db'
      → Moves db.accounts db'.accounts round.user_id
          (pos (round_payout round.stake_lamports won multiplier))
  unfolding finish_round
  finish-Moves services db round won multiplier result {db'} keeps h =
      let bet = round_bet db.next_id round won multiplier in
      let meta = round_meta round.game_type "_settle" "InstantRound" (some round.id) in
      let (settled, settled_ok, h₁) =
        >>=-eq-ok
          (settle services db round.user_id round.game_type round.stake_lamports bet.payout_lamports
            meta bet)
          _ h in
      let same : settled.accounts ≡ db'.accounts = ground arith in
      subst (λ (a : Accounts). Moves db.accounts a round.user_id (pos bet.payout_lamports)) same
        (settle-Moves services db round.user_id round.game_type round.stake_lamports
          bet.payout_lamports meta bet keeps refl settled_ok)

  -- A step that ends a round moves the player's balance by the payout of the round: nothing if it is lost,
  -- the stake times the multiplier, floored to the lamport, if it is won.
  pub advance-payout :
      (services : Services E) (db : RoundDb E S P R) (user_id round_id : ℕ) (game : GameType)
      (apply : Round S P R → Result (StepResult S P R)) (round : Round S P R) (won : Bool)
      (multiplier : ℕ) (result : R) {db' : RoundDb E S P R}
      → KeepsPlay services
      → find_round round_id db.rounds ≡ some round
      → apply round ≡ ok (finish won multiplier result)
      → advance_stateful_round services db user_id round_id game apply ≡ ok db'
      → Moves db.accounts db'.accounts user_id
          (pos (if won then round.stake_lamports * multiplier / 100 else 0))
  unfolding write_step
  advance-payout services db user_id round_id game apply round won multiplier result {db'} keeps
        known ending h =
      let a = advance-Advanced services db user_id round_id game apply h in
      let same_round : a.round ≡ round = cc in
      let last : a.step ≡ finish won multiplier result = cc in
      let written : write_step services db round (finish won multiplier result) ≡ ok db' =
        subst (λ (s : StepResult S P R). write_step services db round s ≡ ok db') last
          (subst (λ (r : Round S P R). write_step services db r a.step ≡ ok db') same_round
            a.written) in
      let own : round.user_id ≡ user_id =
        ap (λ (r : Round S P R). r.user_id) (sym same_round) ∙ a.own in
      subst
        (λ (u : ℕ).
          Moves db.accounts db'.accounts u
            (pos (if won then round.stake_lamports * multiplier / 100 else 0)))
        own
        (subst (λ (n : ℕ). Moves db.accounts db'.accounts round.user_id (pos n))
          (round_payout_eq round.stake_lamports multiplier won)
          (finish-Moves services db round won multiplier result keeps written))

  -- A start moves the player's balance by the stake, down.
  pub start-stake :
      (crypto : Crypto) (draws : Draws) (services : Services E) (db : RoundDb E S P R) (user_id : ℕ)
      (game : GameType) (stake : ℕ) (anchor : Anchor) (build : Seed → Built S P)
      {db' : RoundDb E S P R}
      → start_stateful_round crypto draws services db user_id game stake anchor build ≡ ok db'
      → Moves db.accounts db'.accounts user_id (pos 0 -ℤ pos stake)
  unfolding start_stateful_round
  start-stake crypto draws services db user_id game stake anchor build {db'} h =
      let (a, positive, h₁) = >>=-eq-ok (raise_if (leb stake 0) _) _ h in
      let (b, allowed, h₂) =
        >>=-eq-ok (services.assert_can_wager db.rest db.accounts user_id stake) _ h₁ in
      let (c, idle, h₃) = >>=-eq-ok (raise_if (any_current user_id game db.rounds) conflict) _ h₂ in
      let (debited, moved, h₄) =
        >>=-eq-ok
          (apply_balance_delta db.accounts user_id (pos 0 -ℤ pos stake)
            (round_meta game "_bet" "InstantRound" none))
          _ h₃ in
      let (seed, folded, h₅) =
        >>=-eq-ok
          (fold_seed crypto (take_seed crypto draws db.seeds user_id anchor.reserved).0 anchor) _
          h₄ in
      let same : db'.accounts ≡ debited.1 = ground arith in
      rw same (
        delta-Moves db.accounts user_id (pos 0 -ℤ pos stake)
          (round_meta game "_bet" "InstantRound" none) refl moved)

  -- A bet that is settled at once moves the player's balance by the payout less the stake.
  pub settle_instant_bet-balance :
      (crypto : Crypto) (draws : Draws) (services : Services E) (db : RoundDb E S P R) (user_id : ℕ)
      (game : GameType) (amount : ℕ) (anchor : Anchor) (resolve : Seed → ℕ) {db' : RoundDb E S P R}
      → KeepsPlay services
      → settle_instant_bet crypto draws services db user_id game amount anchor resolve ≡ ok db'
      → (seed : Seed) × (fold_seed crypto
            (take_seed crypto draws db.seeds user_id anchor.reserved).0
            anchor
          ≡ ok seed)
        × Moves db.accounts db'.accounts user_id
            (pos 0 -ℤ pos amount +ℤ pos (amount * resolve seed / 100))
  unfolding settle_instant_bet
  settle_instant_bet-balance crypto draws services db user_id game amount anchor resolve {db'} keeps
        h =
      let (a, positive, h₁) = >>=-eq-ok (raise_if (leb amount 0) _) _ h in
      let (b, allowed, h₂) =
        >>=-eq-ok (services.assert_can_wager db.rest db.accounts user_id amount) _ h₁ in
      let (debited, moved, h₃) =
        >>=-eq-ok
          (apply_balance_delta db.accounts user_id (pos 0 -ℤ pos amount)
            (round_meta game "_bet" "Bet" none))
          _ h₂ in
      let (seed, folded, h₄) =
        >>=-eq-ok
          (fold_seed crypto (take_seed crypto draws db.seeds user_id anchor.reserved).0 anchor) _
          h₃ in
      let first =
        delta-Moves db.accounts user_id (pos 0 -ℤ pos amount) (round_meta game "_bet" "Bet" none)
          refl moved in
      let second =
        settle-Moves services _ user_id game amount (instant_payout amount (resolve seed))
          (round_meta game "_settle" "Bet" none) _ keeps refl h₄ in
      (
        seed,
        folded,
        subst (λ (n : ℕ). Moves db.accounts db'.accounts user_id (pos 0 -ℤ pos amount +ℤ pos n))
            (instant_payout_eq amount (resolve seed))
            (Moves-trans db.accounts debited.1 db'.accounts user_id (pos 0 -ℤ pos amount)
              (pos (instant_payout amount (resolve seed))) first second),
      )
