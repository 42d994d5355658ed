-- ===== src/Rounds/Hilo.antt =====
-- apps/api/src/games/hilo/hilo.service.ts: a sequence of cards whose next rank is guessed. The multiplier of
-- one guess (`hiloStepMultiplier`) and the floored product of multipliers (`floor2`) are computed in
-- double arithmetic and are parameters, in hundredths.
pub mod Guesses
mod Tests
use scadium.Prelude.{
  ℕ, ◌+◌, Bool, true, false, ◌||◌, Option, none, some, List, leb, ltb, get_elem?, if◌then◌else◌,
  Result, ok, ◌>>=◌, ◌>>◌, raise_if, bad_request, Check,
}
use scadium.Fair.Hash.{Crypto}
use scadium.Fair.Derive.{Seed}
use scadium.Fair.Tickets.{hilo_sequence, card_rank}
use scadium.Seeds.{Draws}
use scadium.Rounds.{GameType, Round, Services, RoundDb}
use scadium.Rounds.Stateful.{
  Anchor, Built, StepResult, continue, finish, start_stateful_round, advance_stateful_round,
}

-- `HILO`
abbrev pub hilo_min_bet_lamports : ℕ
hilo_min_bet_lamports = 1000000

abbrev pub hilo_max_bet_lamports : ℕ
hilo_max_bet_lamports = 100000000000

abbrev pub max_steps : ℕ
max_steps = 25

pub data HiloDirection : Type 0 where
  higher lower : HiloDirection

-- A card beyond the sequence is `undefined`, and its rank is not a number.
abbrev pub rank_of : Option ℕ → Option ℕ
rank_of none = none
rank_of (some card) = some (card_rank card)

-- The parts of the state of a round.
pub record HiloSecret : Type 0 where
  pub sequence : List ℕ

pub record HiloPublic : Type 0 where
  pub index : ℕ
  pub card : Option ℕ
  pub rank : Option ℕ
  pub steps : ℕ
  pub cum_mult : ℕ
  pub max_steps : ℕ

-- A wrong guess, as it is published.
pub record WrongGuess : Type 0 where
  pub direction : HiloDirection
  pub current_rank : Option ℕ
  pub next_card : Option ℕ
  pub next_rank : Option ℕ

pub record HiloResult : Type 0 where
  pub sequence : List ℕ
  pub index : ℕ
  pub busted : Option WrongGuess
  pub steps : Option ℕ
  pub reached_end : Bool
  pub cashed_out : Bool

abbrev pub HiloRound : Type 0
HiloRound = Round HiloSecret HiloPublic HiloResult

abbrev pub showing : List ℕ → ℕ → ℕ → ℕ → HiloPublic
showing sequence index steps cum_mult = record {
  index = index;
  card = get_elem? sequence index;
  rank = rank_of (get_elem? sequence index);
  steps = steps;
  cum_mult = cum_mult;
  max_steps = max_steps;
}

-- The `build` callback of `start`.
unfoldable pub build_hilo : Crypto → Seed → Built HiloSecret HiloPublic
build_hilo crypto seed =
    let sequence =
      hilo_sequence crypto seed.server_seed seed.client_seed seed.nonce (max_steps + 1) in
    record {
      secret = record { sequence = sequence };
      public = showing sequence 0 0 100;
      multiplier = 0;
    }

-- Whether a guess is right; a comparison with what is not a number is false.
unfoldable pub is_correct : HiloDirection → Option ℕ → Option ℕ → Bool
is_correct higher (some current) (some next) = leb current next
is_correct lower (some current) (some next) = leb next current
is_correct direction current next = false

-- The `apply` callback of `guess`.
unfoldable pub apply_guess :
    (Option ℕ → HiloDirection → ℕ)
    → (ℕ → ℕ → ℕ)
    → HiloDirection
    → HiloRound
    → Result (StepResult HiloSecret HiloPublic HiloResult)
apply_guess step_multiplier product direction round =
    let sequence = round.secret.sequence in
    let index = round.public.index in
    let current_rank = rank_of (get_elem? sequence index) in
    let next_card = get_elem? sequence (index + 1) in
    let next_rank = rank_of next_card in
    let new_cum = product round.public.cum_mult (step_multiplier current_rank direction) in
    let new_steps = round.public.steps + 1 in
    if is_correct direction current_rank next_rank
    then (if leb max_steps new_steps
        then ok (
            finish true new_cum (record {
              sequence = sequence;
              index = index + 1;
              busted = none;
              steps = some new_steps;
              reached_end = true;
              cashed_out = false;
            }))
        else ok (continue round.secret (showing sequence (index + 1) new_steps new_cum) new_cum))
    else ok (
        finish false 0 (record {
          sequence = sequence;
          index = index;
          busted = some (record {
            direction = direction;
            current_rank = current_rank;
            next_card = next_card;
            next_rank = next_rank;
          });
          steps = none;
          reached_end = false;
          cashed_out = false;
        }))

-- The `apply` callback of `cashout`.
unfoldable pub apply_stop : HiloRound → Result (StepResult HiloSecret HiloPublic HiloResult)
apply_stop round = do
  raise_if (ltb round.public.steps 1) (bad_request Check.nothing_guessed)
  ok (
      finish true round.public.cum_mult (record {
        sequence = round.secret.sequence;
        index = round.public.index;
        busted = none;
        steps = some round.public.steps;
        reached_end = false;
        cashed_out = true;
      }))

module _ {E : Type 0} (crypto : Crypto) (services : Services E)
    (step_multiplier : Option ℕ → HiloDirection → ℕ) (product : ℕ → ℕ → ℕ) where
  abbrev pub HiloDb : Type 0
  HiloDb = RoundDb E HiloSecret HiloPublic HiloResult

  -- `start`
  unfoldable pub start_hilo : Draws → HiloDb → ℕ → ℕ → Anchor → Result HiloDb
  start_hilo draws db user_id amount anchor = do
    raise_if (ltb amount hilo_min_bet_lamports || ltb hilo_max_bet_lamports amount)
        (bad_request Check.amount_range)
    start_stateful_round crypto draws services db user_id GameType.hilo amount anchor
        (build_hilo crypto)

  -- `guess`
  unfoldable pub guess : HiloDb → ℕ → ℕ → HiloDirection → Result HiloDb
  guess db user_id round_id direction =
      advance_stateful_round services db user_id round_id GameType.hilo
        (apply_guess step_multiplier product direction)

  -- `cashout`
  unfoldable pub cashout_hilo : HiloDb → ℕ → ℕ → Result HiloDb
  cashout_hilo db user_id round_id =
      advance_stateful_round services db user_id round_id GameType.hilo apply_stop
