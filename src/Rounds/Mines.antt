-- ===== src/Rounds/Mines.antt =====
-- apps/api/src/games/mines/mines.service.ts: a field of 25 cells with hidden mines. The multipliers that
-- `minesMultiplier` computes in double arithmetic are a parameter, in hundredths.
pub mod Fields
use scadium.Prelude.{
  ℕ, ◌+◌, ◌-◌, ◌*◌, Bool, true, false, not, ◌||◌, Option, none, some, List, [], ◌∷◌, ◌++◌, length,
  leb, ltb, if◌then◌else◌, Result, ok, err, ◌>>=◌, ◌>>◌, raise_if, bad_request, Check,
}
use scadium.Prelude.Counting.{includes}
use scadium.Fair.Hash.{Text, Crypto}
use scadium.Fair.Derive.{Seed}
use scadium.Fair.Shuffle.{mine_field}
use scadium.Seeds.{Draws}
use scadium.Rounds.{GameType, Round, Services, RoundDb}
use scadium.Rounds.Stateful.{
  Anchor, Built, StepResult, continue, finish, start_stateful_round, advance_stateful_round,
}

abbrev pub mine_cells : ℕ
mine_cells = 25

abbrev pub min_mines : ℕ
min_mines = 1

abbrev pub max_mines : ℕ
max_mines = 24

abbrev pub min_bet_lamports : ℕ
min_bet_lamports = 1000000

-- `100 * LAMPORTS_PER_SOL`
abbrev pub max_bet_lamports : ℕ
max_bet_lamports = 100000000000

-- The parts of the state of a round of mines.
pub record Secret : Type 0 where
  pub mines : List ℕ
  pub mine_count : ℕ

pub record Public : Type 0 where
  pub mine_count : ℕ
  pub cells : ℕ
  pub revealed : List ℕ

-- What is published once a round is over.
pub record MinesResult : Type 0 where
  pub mines : List ℕ
  pub mine_count : ℕ
  pub revealed : List ℕ
  pub hit_mine : Option ℕ
  pub cleared : Bool
  pub cashed_out : Bool

abbrev pub MinesRound : Type 0
MinesRound = Round Secret Public MinesResult

-- The `build` callback of `start`.
unfoldable pub build_mines : Crypto → ℕ → Seed → Built Secret Public
build_mines crypto mines seed = record {
  secret = record {
    mines = mine_field crypto seed.server_seed seed.client_seed seed.nonce mine_cells mines;
    mine_count = mines;
  };
  public = record { mine_count = mines; cells = mine_cells; revealed = [] };
  multiplier = 0;
}

-- The `apply` callback of `pick`.
unfoldable pub apply_pick :
    (ℕ → ℕ → ℕ) → ℕ → MinesRound → Result (StepResult Secret Public MinesResult)
apply_pick multipliers cell round = do
  let mines = round.secret.mines
  let mine_count = round.secret.mine_count
  let revealed = round.public.revealed
  raise_if (includes revealed cell) (bad_request Check.cell_revealed)
  let next_revealed : List ℕ = revealed ++ cell ∷ []
  let multiplier = multipliers mine_count (length next_revealed)
  (if includes mines cell
      then ok (
          finish false 0 (record {
            mines = mines;
            mine_count = mine_count;
            revealed = revealed;
            hit_mine = some cell;
            cleared = false;
            cashed_out = false;
          }))
      else if leb (mine_cells - mine_count) (length next_revealed)
      then ok (
          finish true multiplier (record {
            mines = mines;
            mine_count = mine_count;
            revealed = next_revealed;
            hit_mine = none;
            cleared = true;
            cashed_out = false;
          }))
      else ok (
          continue round.secret
            (record { mine_count = mine_count; cells = mine_cells; revealed = next_revealed })
            multiplier))

-- The `apply` callback of `cashout`.
unfoldable pub apply_cashout :
    (ℕ → ℕ → ℕ) → MinesRound → Result (StepResult Secret Public MinesResult)
apply_cashout multipliers round = do
  let revealed = round.public.revealed
  raise_if (ltb (length revealed) 1) (bad_request Check.nothing_revealed)
  ok (
      finish true (multipliers round.secret.mine_count (length revealed)) (record {
        mines = round.secret.mines;
        mine_count = round.secret.mine_count;
        revealed = revealed;
        hit_mine = none;
        cleared = false;
        cashed_out = true;
      }))

module _ {E : Type 0} (crypto : Crypto) (services : Services E) (multipliers : ℕ → ℕ → ℕ) where
  abbrev pub MinesDb : Type 0
  MinesDb = RoundDb E Secret Public MinesResult

  -- `start`
  unfoldable pub start_mines : Draws → MinesDb → ℕ → ℕ → ℕ → Anchor → Result MinesDb
  start_mines draws db user_id amount mines anchor = do
    raise_if (ltb mines min_mines || ltb max_mines mines) (bad_request Check.mines_range)
    raise_if (ltb amount min_bet_lamports || ltb max_bet_lamports amount)
        (bad_request Check.amount_range)
    start_stateful_round crypto draws services db user_id GameType.mines amount anchor
        (build_mines crypto mines)

  -- `pick`
  unfoldable pub pick : MinesDb → ℕ → ℕ → ℕ → Result MinesDb
  pick db user_id round_id cell = do
    raise_if (leb mine_cells cell) (bad_request Check.cell_range)
    advance_stateful_round services db user_id round_id GameType.mines (apply_pick multipliers cell)

  -- `cashout`
  unfoldable pub cashout : MinesDb → ℕ → ℕ → Result MinesDb
  cashout db user_id round_id =
      advance_stateful_round services db user_id round_id GameType.mines (apply_cashout multipliers)
