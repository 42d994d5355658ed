-- ===== src/Rounds/Hilo/Tests.antt =====
-- Runs of apps/api/src/games/hilo/hilo.service.ts, and the theorem about it at a concrete guess.
use scadium.Prelude.{
  ℕ, ◌+◌, ◌*◌, ◌/◌, ◌≡◌, refl, true, false, Option, none, some, [], ◌∷◌, ◌++◌, ok, err, arith,
  replicate, get_elem?, Check, bad_request,
}
use scadium.Fair.Hash.{Crypto, HasDigests}
use scadium.Fair.Derive.{Seed}
use scadium.Fair.Tickets.{card_rank}
use scadium.Rounds.{GameType, RoundStatus}
use scadium.Rounds.Stateful.{StepResult, finish}
use scadium.Rounds.Hilo.{
  HiloDirection, higher, lower, HiloSecret, HiloPublic, HiloResult, HiloRound, build_hilo,
  is_correct, apply_guess, apply_stop, showing,
}
use scadium.Rounds.Hilo.Guesses.{IsFairGuess, apply_guess-fair, build_hilo-IsOpen}

abbrev seed : Seed
seed = record { server_seed = 1 ∷ []; client_seed = 97 ∷ []; nonce = 1 }

abbrev toy : Crypto
toy = record { hmac = λ key message. replicate 32 200; hash = λ input. replicate 32 9 }

toy-HasDigests : HasDigests toy
toy-HasDigests = record {
  hmac-length = λ key message. refl;
  hmac-bytes = λ key message. omega arith;
  hash-length = λ input. refl;
  hash-bytes = λ input. omega arith;
}

abbrev even_odds : Option ℕ → HiloDirection → ℕ
even_odds rank direction = 190

abbrev times : ℕ → ℕ → ℕ
times cum step = cum * step / 100

-- A round whose last guess is from a king to an ace.
abbrev final : HiloRound
final = record {
  id = 4;
  user_id = 1;
  game_type = GameType.hilo;
  stake_lamports = 1000000;
  status = RoundStatus.active;
  server_seed_hash = [];
  client_seed = 97 ∷ [];
  nonce = 1;
  multiplier = 300;
  secret = record { sequence = replicate 25 12 ++ 13 ∷ [] };
  public = showing (replicate 25 12 ++ 13 ∷ []) 24 24 300;
  result = none;
  bet_id = none;
}

lower_wins :
    apply_guess even_odds times lower final
    ≡ ok (
        finish true 570 (record {
          sequence = replicate 25 12 ++ 13 ∷ [];
          index = 25;
          busted = none;
          steps = some 25;
          reached_end = true;
          cashed_out = false;
        }))
unfolding apply_guess is_correct card_rank
lower_wins = refl

no_guess_made :
    apply_stop (record final { public = showing (replicate 26 12) 0 0 100 })
    ≡ err (bad_request Check.nothing_guessed)
unfolding apply_stop
no_guess_made = refl

-- A round that has just been opened on the cards of the seed.
abbrev first : HiloRound
first = record final {
  secret = (build_hilo toy seed).secret;
  public = (build_hilo toy seed).public;
}

apply_guess-fair_example :
    (card : ℕ) × (next : ℕ) × (get_elem? first.secret.sequence first.public.index ≡ some card)
    × (get_elem? first.secret.sequence (first.public.index + 1) ≡ some next)
    × ((s : StepResult HiloSecret HiloPublic HiloResult) × (apply_guess even_odds times higher first
          ≡ ok s)
        × IsFairGuess even_odds times higher first card next s)
apply_guess-fair_example =
    apply_guess-fair even_odds times higher first (build_hilo-IsOpen toy seed toy-HasDigests)
