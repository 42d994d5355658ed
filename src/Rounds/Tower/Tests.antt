-- ===== src/Rounds/Tower/Tests.antt =====
-- Runs of apps/api/src/games/tower/tower.service.ts, and the theorem about it at a concrete pick.
use scadium.Prelude.{
  ℕ, ◌+◌, ◌*◌, ◌≡◌, refl, true, false, none, some, [], ◌∷◌, ok, err, arith, replicate, Check,
  bad_request,
}
use scadium.Prelude.Counting.{includes}
use scadium.Fair.Hash.{Crypto, HasDigests}
use scadium.Fair.Derive.{Seed}
use scadium.Rounds.{GameType, RoundStatus}
use scadium.Rounds.Stateful.{StepResult, finish}
use scadium.Rounds.Tower.{
  TowerSecret, TowerPublic, TowerResult, TowerRound, build_tower, apply_climb, apply_descent,
  climbing,
}
use scadium.Rounds.Tower.Climbs.{IsFairClimb, apply_climb-fair, build_tower-IsClimbing}

abbrev seed : Seed
seed = record { server_seed = 1 ∷ []; client_seed = 97 ∷ []; nonce = 1 }

abbrev toy : Crypto
toy = record { hmac = λ key message. replicate 32 200; hash = λ input. replicate 32 9 }

toy-HasDigests : HasDigests toy
toy-HasDigests = record {
  hmac-length = λ key message. refl;
  hmac-bytes = λ key message. omega arith;
  hash-length = λ input. refl;
  hash-bytes = λ input. omega arith;
}

abbrev table : ℕ → ℕ
table rows = 100 + 40 * rows

-- A round with its traps in the first column that is in its last row.
abbrev high : TowerRound
high = record {
  id = 4;
  user_id = 1;
  game_type = GameType.tower;
  stake_lamports = 1000000;
  status = RoundStatus.active;
  server_seed_hash = [];
  client_seed = 97 ∷ [];
  nonce = 1;
  multiplier = 380;
  secret = record { traps = replicate 8 (0 ∷ []) };
  public = climbing 7 (replicate 7 1);
  result = none;
  bet_id = none;
}

top_reached :
    apply_climb table 2 high
    ≡ ok (
        finish true 420 (record {
          traps = replicate 8 (0 ∷ []);
          picks = 1 ∷ 1 ∷ 1 ∷ 1 ∷ 1 ∷ 1 ∷ 1 ∷ 2 ∷ [];
          hit = none;
          climbed = some 8;
          reached_top = true;
          cashed_out = false;
        }))
unfolding apply_climb includes
top_reached = refl

no_row_climbed :
    apply_descent table (record high { public = climbing 0 [] })
    ≡ err (bad_request Check.nothing_climbed)
unfolding apply_descent
no_row_climbed = refl

-- A round that has just been opened on the traps of the seed.
abbrev low : TowerRound
low = record high { secret = (build_tower toy seed).secret; public = (build_tower toy seed).public }

apply_climb-fair_example :
    (s : StepResult TowerSecret TowerPublic TowerResult) × (apply_climb table 2 low ≡ ok s)
    × IsFairClimb table 2 low s
apply_climb-fair_example =
    apply_climb-fair table 2 low (omega arith) (build_tower-IsClimbing toy seed toy-HasDigests)
