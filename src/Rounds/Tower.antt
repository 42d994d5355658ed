-- ===== src/Rounds/Tower.antt =====
-- apps/api/src/games/tower/tower.service.ts: a tower that is climbed row by row, with a trap column in each
-- row. The multipliers that `towerMultiplier` computes in double arithmetic are a parameter, in
-- hundredths.
pub mod Climbs
mod Tests
use scadium.Prelude.{
  ℕ, ◌+◌, Bool, true, false, ◌||◌, Option, none, some, List, [], ◌∷◌, ◌++◌, leb, ltb, get_elem?,
  if◌then◌else◌, Result, ok, err, ◌>>=◌, ◌>>◌, raise_if, or_raise, bad_request, missing_row, Check,
}
use scadium.Prelude.Counting.{includes}
use scadium.Fair.Hash.{Text, Crypto}
use scadium.Fair.Derive.{Seed}
use scadium.Fair.Shuffle.{tower_traps}
use scadium.Seeds.{Draws}
use scadium.Rounds.{GameType, Round, Services, RoundDb}
use scadium.Rounds.Stateful.{
  Anchor, Built, StepResult, continue, finish, start_stateful_round, advance_stateful_round,
}

-- `TOWER`
abbrev pub tower_min_bet_lamports : ℕ
tower_min_bet_lamports = 1000000

abbrev pub tower_max_bet_lamports : ℕ
tower_max_bet_lamports = 100000000000

abbrev pub tower_height : ℕ
tower_height = 8

abbrev pub tower_columns : ℕ
tower_columns = 3

abbrev pub tower_safe_per_row : ℕ
tower_safe_per_row = 2

-- The parts of the state of a round.
pub record TowerSecret : Type 0 where
  pub traps : List (List ℕ)

pub record TowerPublic : Type 0 where
  pub rows : ℕ
  pub columns : ℕ
  pub safe_per_row : ℕ
  pub current_row : ℕ
  pub picks : List ℕ

-- What is published once a round is over.
pub record TowerResult : Type 0 where
  pub traps : List (List ℕ)
  pub picks : List ℕ
  pub hit : Option (ℕ × ℕ)
  pub climbed : Option ℕ
  pub reached_top : Bool
  pub cashed_out : Bool

abbrev pub TowerRound : Type 0
TowerRound = Round TowerSecret TowerPublic TowerResult

abbrev pub climbing : ℕ → List ℕ → TowerPublic
climbing row picks = record {
  rows = tower_height;
  columns = tower_columns;
  safe_per_row = tower_safe_per_row;
  current_row = row;
  picks = picks;
}

-- The `build` callback of `start`.
unfoldable pub build_tower : Crypto → Seed → Built TowerSecret TowerPublic
build_tower crypto seed = record {
  secret = record {
    traps =
        tower_traps crypto seed.server_seed seed.client_seed seed.nonce tower_height tower_columns
          tower_safe_per_row;
  };
  public = climbing 0 [];
  multiplier = 0;
}

-- The `apply` callback of `pick`.
unfoldable pub apply_climb :
    (ℕ → ℕ) → ℕ → TowerRound → Result (StepResult TowerSecret TowerPublic TowerResult)
apply_climb multipliers column round = do
  let traps = round.secret.traps
  let current_row = round.public.current_row
  let picks = round.public.picks
  row ← or_raise (get_elem? traps current_row) missing_row
  (if includes row column
      then ok (
          finish false 0 (record {
            traps = traps;
            picks = picks;
            hit = some (current_row, column);
            climbed = none;
            reached_top = false;
            cashed_out = false;
          }))
      else if leb tower_height (current_row + 1)
      then ok (
          finish true (multipliers (current_row + 1)) (record {
            traps = traps;
            picks = picks ++ column ∷ [];
            hit = none;
            climbed = some (current_row + 1);
            reached_top = true;
            cashed_out = false;
          }))
      else ok (
          continue round.secret (climbing (current_row + 1) (picks ++ column ∷ []))
            (multipliers (current_row + 1))))

-- The `apply` callback of `cashout`.
unfoldable pub apply_descent :
    (ℕ → ℕ) → TowerRound → Result (StepResult TowerSecret TowerPublic TowerResult)
apply_descent multipliers round = do
  raise_if (ltb round.public.current_row 1) (bad_request Check.nothing_climbed)
  ok (
      finish true (multipliers round.public.current_row) (record {
        traps = round.secret.traps;
        picks = round.public.picks;
        hit = none;
        climbed = some round.public.current_row;
        reached_top = false;
        cashed_out = true;
      }))

module _ {E : Type 0} (crypto : Crypto) (services : Services E) (multipliers : ℕ → ℕ) where
  abbrev pub TowerDb : Type 0
  TowerDb = RoundDb E TowerSecret TowerPublic TowerResult

  -- `start`
  unfoldable pub start_tower : Draws → TowerDb → ℕ → ℕ → Anchor → Result TowerDb
  start_tower draws db user_id amount anchor = do
    raise_if (ltb amount tower_min_bet_lamports || ltb tower_max_bet_lamports amount)
        (bad_request Check.amount_range)
    start_stateful_round crypto draws services db user_id GameType.tower amount anchor
        (build_tower crypto)

  -- `pick`
  unfoldable pub pick_column : TowerDb → ℕ → ℕ → ℕ → Result TowerDb
  pick_column db user_id round_id column = do
    raise_if (leb tower_columns column) (bad_request Check.column_range)
    advance_stateful_round services db user_id round_id GameType.tower
        (apply_climb multipliers column)

  -- `cashout`
  unfoldable pub cashout_tower : TowerDb → ℕ → ℕ → Result TowerDb
  cashout_tower db user_id round_id =
      advance_stateful_round services db user_id round_id GameType.tower (apply_descent multipliers)
