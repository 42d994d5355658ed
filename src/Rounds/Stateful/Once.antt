-- ===== src/Rounds/Stateful/Once.antt =====
-- Repeated requests to advance one round: apps/api/src/games/instant/stateful-round.ts.
use scadium.Prelude.{
  ℕ, ◌≡◌, refl, ◌∙◌, Bool, true, false, not, ◌&&◌, some, List, [], ◌∷◌, ◌==◌, arith, Result, ok,
  err, raise_if, or_raise, not_found, conflict, missing_row, >>=-eq-ok,
}
use scadium.Ledger.{Meta}
use scadium.Rounds.{
  GameType, game_index, is_active, Round, Bet, Services, RoundDb, round_meta, settle, pay,
}
use scadium.Rounds.Stateful.{
  StepResult, continue, finish, find_round, replace_round, finish_round, write_step,
  advance_stateful_round, round_bet, closed_round,
}

module _ {S P R : Type 0} where
  closed :
      (round : Round S P R) (bet : Bet) (multiplier : ℕ) (result : R)
      → is_active (closed_round round bet multiplier result).status ≡ false
  unfolding is_active
  closed round bet multiplier result = ground arith

  pub find_round-id :
      (id : ℕ) (rounds : List (Round S P R)) (r : Round S P R)
      → find_round id rounds ≡ some r
      → r.id ≡ id
  unfolding find_round
  find_round-id id [] r h = cc
  find_round-id id (x ∷ rs) r h = ground (arith, find_round-id id rs r)

  find_round-replace :
      (id : ℕ) (rounds : List (Round S P R)) (r q : Round S P R)
      → find_round id rounds ≡ some r
      → q.id ≡ id
      → find_round id (replace_round id q rounds) ≡ some q
  unfolding find_round replace_round
  find_round-replace id [] r q h e = cc
  find_round-replace id (x ∷ rs) r q h e = ground (arith, find_round-replace id rs r q)

module _ {E S P R : Type 0} where
  pub settle-rounds :
      (services : Services E) (db : RoundDb E S P R) (user_id : ℕ) (game : GameType)
      (stake payout : ℕ) (meta : Meta) (bet : Bet) {db' : RoundDb E S P R}
      → settle services db user_id game stake payout meta bet ≡ ok db'
      → (db'.rounds ≡ db.rounds) × (db'.bets ≡ bet ∷ db.bets)
  unfolding settle
  settle-rounds services db user_id game stake payout meta bet h =
      let (paid, paid_ok, h₁) = >>=-eq-ok (pay db.accounts user_id payout meta) _ h in
      let (user, user_ok, h₂) = >>=-eq-ok (or_raise (paid.users user_id) missing_row) _ h₁ in
      let (accrued, accrued_ok, h₃) =
        >>=-eq-ok (services.accrue db.rest _ user_id game stake) _ h₂ in
      let (rest, rest_ok, h₄) =
        >>=-eq-ok (services.credit_referral accrued.0 user_id stake game) _ h₃ in
      (ground arith, ground arith)

  -- What an advance that goes through has met and written.
  pub record Advanced (services : Services E) (db db' : RoundDb E S P R) (user_id round_id : ℕ)
      (game : GameType) (apply : Round S P R → Result (StepResult S P R)) : Type 0 where
    pub round : Round S P R
    pub found : find_round round_id db.rounds ≡ some round
    pub own : round.user_id ≡ user_id
    pub kind : game_index round.game_type ≡ game_index game
    pub open_round : is_active round.status ≡ true
    pub step : StepResult S P R
    pub applied : apply round ≡ ok step
    pub written : write_step services db round step ≡ ok db'

  pub advance-Advanced :
      (services : Services E) (db : RoundDb E S P R) (user_id round_id : ℕ) (game : GameType)
      (apply : Round S P R → Result (StepResult S P R)) {db' : RoundDb E S P R}
      → advance_stateful_round services db user_id round_id game apply ≡ ok db'
      → Advanced services db db' user_id round_id game apply
  unfolding advance_stateful_round
  advance-Advanced services db user_id round_id game apply h =
      let (round, found, h₁) = >>=-eq-ok (or_raise (find_round round_id db.rounds) not_found) _ h in
      let (a, owned, h₂) =
        >>=-eq-ok
          (raise_if
            (not (round.user_id == user_id && game_index round.game_type == game_index game))
            not_found)
          _ h₁ in
      let (b, going, h₃) = >>=-eq-ok (raise_if (not (is_active round.status)) conflict) _ h₂ in
      let (step, applied, h₄) = >>=-eq-ok (apply round) _ h₃ in
      record {
        round = round;
        found = ground arith;
        own = ground arith;
        kind = ground arith;
        open_round = ground arith;
        step = step;
        applied = applied;
        written = h₄;
      }

  -- The row that a step writes in place of the round.
  pub step-row :
      (services : Services E) (db db' : RoundDb E S P R) (round : Round S P R)
      (step : StepResult S P R)
      → write_step services db round step ≡ ok db'
      → (q : Round S P R) × (db'.rounds ≡ replace_round round.id q db.rounds)
        × (q.id ≡ round.id)
        × (q.user_id ≡ round.user_id)
        × (q.game_type ≡ round.game_type)
        × ((won : Bool) (multiplier : ℕ) (result : R)
            → step ≡ finish won multiplier result
            → is_active q.status ≡ false)
  unfolding write_step finish_round
  step-row services db db' round (continue secret public multiplier) h = (
    record round { multiplier = multiplier; secret = secret; public = public },
    ground arith,
    refl,
    refl,
    refl,
    λ w m r e. cc,
  )
  step-row services db db' round (finish step_won multiplier result) h =
      let bet = round_bet db.next_id round step_won multiplier in
      let (settled, settled_ok, h₁) =
        >>=-eq-ok
          (settle services db round.user_id round.game_type round.stake_lamports bet.payout_lamports
            (round_meta round.game_type "_settle" "InstantRound" (some round.id)) bet)
          _ h in
      let (rounds, bets) =
        settle-rounds services db round.user_id round.game_type round.stake_lamports
          bet.payout_lamports (round_meta round.game_type "_settle" "InstantRound" (some round.id))
          bet settled_ok in
      (
        closed_round round bet multiplier result,
        ground (arith, rounds),
        refl,
        refl,
        refl,
        λ w m r e. closed round bet multiplier result,
      )

  -- A round settles once: after an advance that ends the round, every further advance of it is refused as a
  -- conflict and changes nothing, whatever the game would answer.
  pub advance-settles_once :
      (services : Services E) (db : RoundDb E S P R) (user_id round_id : ℕ) (game : GameType)
      (apply apply' : Round S P R → Result (StepResult S P R)) (round : Round S P R) (won : Bool)
      (multiplier : ℕ) (result : R) {db' : RoundDb E S P R}
      → find_round round_id db.rounds ≡ some round
      → apply round ≡ ok (finish won multiplier result)
      → advance_stateful_round services db user_id round_id game apply ≡ ok db'
      → advance_stateful_round services db' user_id round_id game apply' ≡ err conflict
  unfolding advance_stateful_round
  advance-settles_once services db user_id round_id game apply apply' round won multiplier result
        {db'} known ending h =
      let a = advance-Advanced services db user_id round_id game apply h in
      let (q, rounds, same, own, kind, ends) = step-row services db db' a.round a.step a.written in
      let here = find_round-id round_id db.rounds a.round a.found in
      let same_round : round ≡ a.round = cc in
      let last : a.step ≡ finish won multiplier result = cc in
      let over = ends won multiplier result last in
      let found : find_round round_id db'.rounds ≡ some q =
        rw rounds
          (rw here (find_round-replace round_id db.rounds a.round q a.found (same ∙ here))) in
      ground (arith, found, over, own, kind, a.own, a.kind)
