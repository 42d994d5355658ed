-- ===== src/Rounds/Stateful.antt =====
-- apps/api/src/games/instant/stateful-round.ts: a round that is opened, advanced and settled.
pub mod Once
pub mod Single
use Prim.Native.String.{String}
use scadium.Prelude.{
  ℕ, ◌+◌, ◌-◌, ◌*◌, ◌/◌, Bool, true, false, not, ◌&&◌, Option, none, some, List, [], ◌∷◌, leb, ltb,
  ◌==◌, if◌then◌else◌, Result, ok, err, ◌>>=◌, ◌>>◌, raise_if, or_raise, bad_request, not_found,
  conflict, missing_row, unavailable, Check, Table, put,
}
use scadium.Prelude.Int.{ℤ, pos, ◌-ℤ◌}
use scadium.Ledger.{Accounts, apply_balance_delta}
use scadium.Fair.Hash.{Text, Crypto}
use scadium.Fair.Derive.{Seed, derive_seed_context}
use scadium.Seeds.{SeedRow, Draws, SeedContext, consume_nonce}
use scadium.Rounds.{
  GameType, game_index, RoundStatus, is_active, Round, Bet, Services, RoundDb, round_meta, settle,
}

-- What the `build` callback of a game returns.
pub record Built (S P : Type 0) : Type 0 where
  pub secret : S
  pub public : P
  pub multiplier : ℕ

-- What the `apply` callback of a game returns for one step.
pub data StepResult (S P R : Type 0) : Type 0 where
  continue : S → P → ℕ → StepResult S P R
  finish : Bool → ℕ → R → StepResult S P R

-- What was fetched before the transaction: the seed that was reserved for the round, and the entropy of the chain.
pub record Anchor : Type 0 where
  pub reserved : Option SeedContext
  pub entropy : Option (List ℕ)
  pub canonical_params : Text

-- The query for a user's round of one game in progress.
abbrev pub is_current : {S P R : Type 0} → ℕ → GameType → Round S P R → Bool
is_current user_id game r =
    r.user_id == user_id && game_index r.game_type == game_index game && is_active r.status

unfoldable pub any_current : {S P R : Type 0} → ℕ → GameType → List (Round S P R) → Bool
any_current user_id game [] = false
any_current user_id game (r ∷ rs) =
    if is_current user_id game r then true else any_current user_id game rs

unfoldable pub find_round : {S P R : Type 0} → ℕ → List (Round S P R) → Option (Round S P R)
find_round id [] = none
find_round id (r ∷ rs) = if r.id == id then some r else find_round id rs

unfoldable pub replace_round :
    {S P R : Type 0} → ℕ → Round S P R → List (Round S P R) → List (Round S P R)
replace_round id q [] = []
replace_round id q (r ∷ rs) = if r.id == id then q ∷ rs else r ∷ replace_round id q rs

-- The seed of a bet: the reserved one, or the next of the user's pair.
unfoldable pub take_seed :
    Crypto → Draws → Table SeedRow → ℕ → Option SeedContext → SeedContext × Table SeedRow
take_seed crypto draws seeds user_id (some ctx) = (ctx, seeds)
take_seed crypto draws seeds user_id none = consume_nonce crypto draws seeds user_id

-- The seed that a game is given.
unfoldable pub fold_seed : Crypto → SeedContext → Anchor → Result Seed
fold_seed crypto ctx anchor =
    or_raise
      (derive_seed_context crypto
        (record { server_seed = ctx.server_seed; client_seed = ctx.client_seed; nonce = ctx.nonce })
        anchor.entropy anchor.canonical_params)
      unavailable

-- The payout of a terminal step.
unfoldable pub round_payout : ℕ → Bool → ℕ → ℕ
round_payout stake step_won multiplier =
    if step_won && ltb 0 multiplier then stake * multiplier / 100 else 0

-- The row of a new round.
abbrev pub open_round :
    {S P R : Type 0} → ℕ → ℕ → GameType → ℕ → SeedContext → Seed → Built S P → Round S P R
open_round id user_id game stake ctx seed built = record {
  id = id;
  user_id = user_id;
  game_type = game;
  stake_lamports = stake;
  status = RoundStatus.active;
  server_seed_hash = ctx.server_seed_hash;
  client_seed = seed.client_seed;
  nonce = seed.nonce;
  multiplier = built.multiplier;
  secret = built.secret;
  public = built.public;
  result = none;
  bet_id = none;
}

-- The row `Bet` of a terminal step: it is won if the step is won at a profit.
abbrev pub round_bet : {S P R : Type 0} → ℕ → Round S P R → Bool → ℕ → Bet
round_bet id round step_won multiplier = record {
  id = id;
  user_id = round.user_id;
  game_type = round.game_type;
  amount_lamports = round.stake_lamports;
  payout_lamports = round_payout round.stake_lamports step_won multiplier;
  multiplier = multiplier;
  is_won =
      step_won && ltb round.stake_lamports (round_payout round.stake_lamports step_won multiplier);
  nonce = round.nonce;
}

-- The round once it is over.
abbrev pub closed_round : {S P R : Type 0} → Round S P R → Bet → ℕ → R → Round S P R
closed_round round bet multiplier result = record round {
  status = if bet.is_won then RoundStatus.won else RoundStatus.lost;
  multiplier = multiplier;
  result = some result;
  bet_id = some bet.id;
}

module _ {E S P R : Type 0} where
  -- `startStatefulRound`
  unfoldable pub start_stateful_round :
      Crypto
      → Draws
      → Services E
      → RoundDb E S P R
      → ℕ
      → GameType
      → ℕ
      → Anchor
      → (Seed → Built S P)
      → Result (RoundDb E S P R)
  start_stateful_round crypto draws services db user_id game stake anchor build = do
    raise_if (leb stake 0) (bad_request Check.amount_not_positive)
    services.assert_can_wager db.rest db.accounts user_id stake
    raise_if (any_current user_id game db.rounds) conflict
    debited ←
        apply_balance_delta db.accounts user_id (pos 0 -ℤ pos stake)
          (round_meta game "_bet" "InstantRound" none)
    let taken = take_seed crypto draws db.seeds user_id anchor.reserved
    seed ← fold_seed crypto taken.0 anchor
    let built = build seed
    let round = open_round db.next_id user_id game stake taken.0 seed built
    ok (record db {
      accounts = debited.1;
      seeds = taken.1;
      rounds = round ∷ db.rounds;
      next_id = db.next_id + 1;
    })

  -- The writes of a terminal step.
  unfoldable pub finish_round :
      Services E → RoundDb E S P R → Round S P R → Bool → ℕ → R → Result (RoundDb E S P R)
  finish_round services db round step_won multiplier result = do
    let bet = round_bet db.next_id round step_won multiplier
    settled ←
        settle services db round.user_id round.game_type round.stake_lamports bet.payout_lamports
          (round_meta round.game_type "_settle" "InstantRound" (some round.id)) bet
    ok (record settled {
      rounds = replace_round round.id (closed_round round bet multiplier result) settled.rounds;
    })

  -- The write of a step.
  unfoldable pub write_step :
      Services E → RoundDb E S P R → Round S P R → StepResult S P R → Result (RoundDb E S P R)
  write_step services db round (continue secret public multiplier) = ok (record db {
    rounds =
        replace_round round.id
          (record round { multiplier = multiplier; secret = secret; public = public }) db.rounds;
  })
  write_step services db round (finish step_won multiplier result) =
      finish_round services db round step_won multiplier result

  -- `advanceStatefulRound`
  unfoldable pub advance_stateful_round :
      Services E
      → RoundDb E S P R
      → ℕ
      → ℕ
      → GameType
      → (Round S P R → Result (StepResult S P R))
      → Result (RoundDb E S P R)
  advance_stateful_round services db user_id round_id game apply = do
    round ← or_raise (find_round round_id db.rounds) not_found
    raise_if (not (round.user_id == user_id && game_index round.game_type == game_index game))
        not_found
    raise_if (not (is_active round.status)) conflict
    step ← apply round
    write_step services db round step
