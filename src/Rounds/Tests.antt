-- ===== src/Rounds/Tests.antt =====
-- Runs of apps/api/src/games/instant and apps/api/src/games/mines, and the theorems about them at concrete inputs.
use scadium.Prelude.{
  ℕ, ◌+◌, ◌*◌, ◌/◌, ◌≡◌, refl, true, false, none, some, [], ◌∷◌, replicate, arith, Result, ok, err,
  conflict, Table, put,
}
use scadium.Prelude.Int.{pos, ◌+ℤ◌, ◌-ℤ◌}
use scadium.Prelude.Counting.{includes, sort}
use scadium.Ledger.{
  User, balance, set_balance, apply_balance_delta, move, debit, credit, record_move,
}
use scadium.Fair.Hash.{Crypto, HasDigests}
use scadium.Fair.Shuffle.{mine_field}
use scadium.Fair.Floats.{floats_from_hmac, float_stream, block_floats}
use scadium.Fair.Derive.{Seed, derive_seed_context}
use scadium.Seeds.{SeedRow, Draws, consume_nonce, mint_row}
use scadium.Rounds.{
  GameType, game_index, RoundStatus, is_active, Services, RoundDb, settle, pay, bump,
}
use scadium.Rounds.Stateful.{
  Anchor, StepResult, finish, any_current, find_round, replace_round, take_seed, fold_seed,
  start_stateful_round, finish_round, write_step, advance_stateful_round, round_payout,
}
use scadium.Rounds.Stateful.Single.{IsSingle}
use scadium.Rounds.Stateful.Once.{advance-settles_once}
use scadium.Rounds.Instant.{settle_instant_bet, instant_payout}
use scadium.Rounds.Money.Steps.{KeepsPlay, Moves}
use scadium.Rounds.Money.{advance-payout, settle_instant_bet-balance}
use scadium.Rounds.Mines.{
  Secret, Public, MinesResult, MinesRound, build_mines, apply_pick, apply_cashout,
}
use scadium.Rounds.Mines.Fields.{build_mines-IsPlayable, IsFairAnswer, apply_pick-fair}

abbrev toy : Crypto
toy = record { hmac = λ key message. replicate 32 200; hash = λ input. replicate 32 9 }

toy-HasDigests : HasDigests toy
toy-HasDigests = record {
  hmac-length = λ key message. refl;
  hmac-bytes = λ key message. omega arith;
  hash-length = λ input. refl;
  hash-bytes = λ input. omega arith;
}

-- Services that let every bet pass and keep nothing.
abbrev lenient : Services ℕ
lenient = record {
  assert_can_wager = λ rest accounts user_id amount. ok tt;
  accrue = λ rest accounts user_id game stake. ok (rest + stake, accounts);
  credit_referral = λ rest user_id stake game. ok rest;
}

lenient-KeepsPlay : KeepsPlay lenient
lenient-KeepsPlay = record {
  kept = λ e a user_id game stake h v u' found. (u', ground arith, refl);
}

abbrev player : User
player = record {
  banned = false;
  play_balance_lamports = pos 5000000;
  scadium_balance = pos 0;
  scadium_staked = pos 0;
  usds_balance = pos 0;
  scadium_vault = pos 0;
  total_wagered = 0;
  total_won = 0;
  total_lost = 0;
  games_played = 0;
  biggest_win = 0;
}

abbrev no_rows : (A : Type 0) → Table A
no_rows A j = none

abbrev MinesDb : Type 0
MinesDb = RoundDb ℕ Secret Public MinesResult

abbrev opened : MinesDb
opened = record {
  accounts = record { users = put 1 player (no_rows User); ledger = [] };
  seeds = no_rows SeedRow;
  rounds = [];
  bets = [];
  rest = 0;
  next_id = 4;
}

abbrev draws : Draws
draws = record { client = 97 ∷ []; server = 1 ∷ []; next = 2 ∷ [] }

abbrev plain : Anchor
plain = record { reserved = none; entropy = none; canonical_params = [] }

abbrev seed : Seed
seed = record { server_seed = 1 ∷ []; client_seed = 97 ∷ []; nonce = 1 }

-- A round with mines in the first three cells and the fourth revealed.
abbrev going : MinesRound
going = record {
  id = 4;
  user_id = 1;
  game_type = GameType.mines;
  stake_lamports = 1000000;
  status = RoundStatus.active;
  server_seed_hash = [];
  client_seed = 97 ∷ [];
  nonce = 1;
  multiplier = 107;
  secret = record { mines = 0 ∷ 1 ∷ 2 ∷ []; mine_count = 3 };
  public = record { mine_count = 3; cells = 25; revealed = 3 ∷ [] };
  result = none;
  bet_id = none;
}

abbrev playing : MinesDb
playing = record opened { rounds = going ∷ []; next_id = 5 }

abbrev table : ℕ → ℕ → ℕ
table mine_count picks = 107

abbrev get_ok {ℓ} : {A : Type ℓ} → Result A → A → A
get_ok (ok a) d = a
get_ok (err e) d = d

abbrev cashed : MinesDb
cashed =
    get_ok (advance_stateful_round lenient playing 1 4 GameType.mines (apply_cashout table)) playing

cashout_runs :
    advance_stateful_round lenient playing 1 4 GameType.mines (apply_cashout table) ≡ ok cashed
unfolding advance_stateful_round find_round game_index is_active apply_cashout write_step
    finish_round round_payout settle pay bump replace_round apply_balance_delta move credit
    record_move balance set_balance ◌+ℤ◌ ◌-ℤ◌
cashout_runs = refl

cashout_balance :
    cashed.accounts.users 1
    ≡ some (record player {
      play_balance_lamports = pos 6070000;
      total_wagered = 1000000;
      total_won = 70000;
      games_played = 1;
      biggest_win = 70000;
    })
unfolding advance_stateful_round find_round game_index is_active apply_cashout write_step
    finish_round round_payout settle pay bump replace_round apply_balance_delta move credit
    record_move balance set_balance ◌+ℤ◌ ◌-ℤ◌
cashout_balance = refl

going_found : find_round 4 playing.rounds ≡ some going
unfolding find_round
going_found = refl

abbrev shown : MinesResult
shown = record {
  mines = 0 ∷ 1 ∷ 2 ∷ [];
  mine_count = 3;
  revealed = 3 ∷ [];
  hit_mine = none;
  cleared = false;
  cashed_out = true;
}

cashes_out : apply_cashout table going ≡ ok (finish true 107 shown)
unfolding apply_cashout
cashes_out = refl

advance-payout_example : Moves playing.accounts cashed.accounts 1 (pos 1070000)
advance-payout_example =
    advance-payout lenient playing 1 4 GameType.mines (apply_cashout table) going true 107 shown
      lenient-KeepsPlay going_found cashes_out cashout_runs

advance-settles_once_example :
    advance_stateful_round lenient cashed 1 4 GameType.mines (apply_pick table 5) ≡ err conflict
advance-settles_once_example =
    advance-settles_once lenient playing 1 4 GameType.mines (apply_cashout table)
      (apply_pick table 5) going true 107 shown going_found cashes_out cashout_runs

playing-IsSingle : IsSingle playing.rounds
playing-IsSingle user_id game = ground arith

abbrev started : MinesDb
started =
    get_ok
      (start_stateful_round toy draws lenient opened 1 GameType.mines 1000000 plain
        (build_mines toy 3))
      opened

start_runs :
    start_stateful_round toy draws lenient opened 1 GameType.mines 1000000 plain (build_mines toy 3)
    ≡ ok started
unfolding start_stateful_round any_current take_seed fold_seed derive_seed_context consume_nonce
    mint_row apply_balance_delta move debit record_move balance set_balance ◌+ℤ◌ ◌-ℤ◌
start_runs = refl

opened-IsSingle : IsSingle opened.rounds
opened-IsSingle user_id game = omega arith

abbrev half_back : Seed → ℕ
half_back s = 50

abbrev betted : MinesDb
betted =
    get_ok (settle_instant_bet toy draws lenient opened 1 GameType.wheel 1000001 plain half_back)
      opened

bet_runs :
    settle_instant_bet toy draws lenient opened 1 GameType.wheel 1000001 plain half_back ≡ ok betted
unfolding settle_instant_bet instant_payout settle pay bump take_seed fold_seed derive_seed_context
    consume_nonce mint_row apply_balance_delta move debit credit record_move balance set_balance
    ◌+ℤ◌ ◌-ℤ◌
bet_runs = refl

settle_instant_bet-balance_example :
    (s : Seed) × (fold_seed toy (take_seed toy draws opened.seeds 1 none).0 plain ≡ ok s)
    × Moves opened.accounts betted.accounts 1
        (pos 0 -ℤ pos 1000001 +ℤ pos (1000001 * half_back s / 100))
settle_instant_bet-balance_example =
    settle_instant_bet-balance toy draws lenient opened 1 GameType.wheel 1000001 plain half_back
      lenient-KeepsPlay bet_runs

-- A round on the field of the seed, and a pick of its last cell.
abbrev drawn : MinesRound
drawn = record going {
  secret = (build_mines toy 3 seed).secret;
  public = (build_mines toy 3 seed).public;
}

abbrev picked : StepResult Secret Public MinesResult
picked = get_ok (apply_pick table 24 drawn) (finish false 0 shown)

pick_runs : apply_pick table 24 drawn ≡ ok picked
unfolding apply_pick build_mines includes mine_field sort floats_from_hmac float_stream block_floats
pick_runs = refl

apply_pick-fair_example : IsFairAnswer drawn 24 picked
apply_pick-fair_example =
    apply_pick-fair table 24 drawn picked (omega arith)
      (build_mines-IsPlayable toy 3 seed toy-HasDigests (omega arith) (omega arith)) pick_runs
