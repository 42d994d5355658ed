-- ===== src/Seeds/Tests.antt =====
-- Runs of apps/api/src/fairness/seed-manager.service.ts, and the theorems about it at concrete inputs.
use scadium.Prelude.{
  ◌≡◌, refl, true, false, none, some, [], ◌∷◌, arith, ok, err, conflict, Table, put,
}
use scadium.Fair.Hash.{Crypto, to_hex}
use scadium.Seeds.{
  SeedRow, ActivePairView, Draws, Revealed, commit_server_seed, mint_row, set_client_seed,
  rotate_server_seed, consume_nonce, trim, trim_start, trim_end, get_or_create_active_pair,
}
use scadium.Seeds.Commitments.{AllCommitted, rest, next, consumed, rotate_server_seed-reveals}
use scadium.Seeds.Nonces.{Plays, opened, bet, AllDiffer, Plays-AllDiffer}
use scadium.Seeds.Replay.{set_client_seed-replays}

-- A stand-in for the digests that keeps the texts apart.
abbrev echo : Crypto
echo = record { hmac = λ key message. message; hash = λ input. input }

abbrev draws : Draws
draws = record { client = 97 ∷ 98 ∷ []; server = 1 ∷ []; next = 2 ∷ [] }

abbrev no_seeds : Table SeedRow
no_seeds j = none

abbrev first_row : SeedRow
first_row = record {
  client_seed = 97 ∷ 98 ∷ [];
  nonce = 0;
  server_seed = 1 ∷ [];
  server_seed_hash = 0 ∷ 1 ∷ [];
  next_server_seed = 2 ∷ [];
  next_server_seed_hash = 0 ∷ 2 ∷ [];
}

abbrev seeded : Table SeedRow
seeded = put 5 first_row no_seeds

first_use : (get_or_create_active_pair echo draws no_seeds 5).1 5 ≡ some first_row
unfolding get_or_create_active_pair mint_row commit_server_seed to_hex
first_use = refl

trims : trim (32 ∷ 97 ∷ 32 ∷ 98 ∷ 10 ∷ []) ≡ 97 ∷ 32 ∷ 98 ∷ []
unfolding trim trim_start trim_end
trims = refl

refuses : rotate_server_seed echo draws seeded 5 true (3 ∷ []) ≡ err conflict
unfolding rotate_server_seed
refuses = refl

abbrev revealed : Revealed
revealed = record {
  revealed_server_seed = 1 ∷ [];
  server_seed_hash = 0 ∷ 2 ∷ [];
  next_server_seed_hash = 0 ∷ 3 ∷ [];
}

none_committed : AllCommitted echo no_seeds
none_committed u row h = cc

abbrev bet_once : Table SeedRow
bet_once = (consume_nonce echo draws no_seeds 5).1

abbrev used_row : SeedRow
used_row = record first_row { nonce = 1 }

used_found : bet_once 5 ≡ some used_row
unfolding consume_nonce mint_row commit_server_seed to_hex
used_found = refl

abbrev turned : Table SeedRow
turned =
    put 5
      (record first_row {
        server_seed = 2 ∷ [];
        server_seed_hash = 0 ∷ 2 ∷ [];
        next_server_seed = 3 ∷ [];
        next_server_seed_hash = 0 ∷ 3 ∷ [];
      })
      bet_once

turns : rotate_server_seed echo draws bet_once 5 false (3 ∷ []) ≡ ok (revealed, turned)
unfolding rotate_server_seed commit_server_seed to_hex consume_nonce mint_row
turns = refl

rotate_server_seed-reveals_example :
    (false ≡ false)
    × (commit_server_seed echo revealed.revealed_server_seed ≡ used_row.server_seed_hash)
    × (revealed.server_seed_hash ≡ used_row.next_server_seed_hash)
rotate_server_seed-reveals_example =
    rotate_server_seed-reveals draws 5 false (3 ∷ []) used_row none_committed
      (next rest (consumed draws 5)) used_found turns

clean : trim (97 ∷ 98 ∷ []) ≡ 97 ∷ 98 ∷ []
unfolding trim trim_start trim_end
clean = refl

abbrev first_bet :
    Plays echo 5 seeded
      ((consume_nonce echo draws seeded 5).0 ∷ [])
      (consume_nonce echo draws seeded 5).1
first_bet = bet draws opened

Plays-AllDiffer_example : AllDiffer (
    (consume_nonce echo draws (consume_nonce echo draws seeded 5).1 5).0
    ∷ (consume_nonce echo draws seeded 5).0
    ∷ [])
Plays-AllDiffer_example = Plays-AllDiffer first_row refl (λ e. cc) (bet draws first_bet)

set_client_seed-replays_example :
    let (first, after_bet) = consume_nonce echo draws seeded 5 in
    (v : ActivePairView) × (after_rename : Table SeedRow) × (set_client_seed echo draws after_bet 5
        (97 ∷ 98 ∷ [])
      ≡ ok (v, after_rename))
    × ((consume_nonce echo draws after_rename 5).0 ≡ first)
set_client_seed-replays_example =
    set_client_seed-replays echo draws seeded 5 first_row refl refl clean (omega arith)
      (omega arith)
