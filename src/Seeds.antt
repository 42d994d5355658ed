-- ===== src/Seeds.antt =====
-- apps/api/src/fairness/seed-manager.service.ts: the rotating seed pair of each user. Random seeds are
-- arguments, in the order the code draws them; a client seed is the list of its UTF-16 code units.
pub mod Commitments
pub mod Nonces
pub mod Replay
mod Tests
use scadium.Prelude.{
  ℕ, suc, ◌+◌, ◌≤◌, Bool, true, false, ◌||◌, ◌&&◌, Option, none, some, List, [], ◌∷◌, ◌++◌, leb,
  ltb, ◌==◌, length, if◌then◌else◌, Result, ok, err, ◌>>=◌, ◌>>◌, raise_if, or_raise, bad_request,
  conflict, missing_row, Check, Table, put,
}
use scadium.Fair.Hash.{Text, Crypto, to_hex}

-- The row `ClientSeed`.
pub record SeedRow : Type 0 where
  pub client_seed : Text
  pub nonce : ℕ
  pub server_seed : Text
  pub server_seed_hash : Text
  pub next_server_seed : Text
  pub next_server_seed_hash : Text

-- The random seeds that a first use draws.
pub record Draws : Type 0 where
  pub client : Text
  pub server : Text
  pub next : Text

-- `commitServerSeed`
unfoldable pub commit_server_seed : Crypto → Text → Text
commit_server_seed crypto seed = to_hex (crypto.hash seed)

-- `create` with `mintPair()`
unfoldable pub mint_row : Crypto → Draws → SeedRow
mint_row crypto draws = record {
  client_seed = draws.client;
  nonce = 0;
  server_seed = draws.server;
  server_seed_hash = commit_server_seed crypto draws.server;
  next_server_seed = draws.next;
  next_server_seed_hash = commit_server_seed crypto draws.next;
}

-- The user's row, created on first use.
abbrev pub row_or_new : Crypto → Draws → Option SeedRow → SeedRow
row_or_new crypto draws none = mint_row crypto draws
row_or_new crypto draws (some row) = row

-- The view of a pair, which leaves the server seeds out.
pub record ActivePairView : Type 0 where
  pub server_seed_hash : Text
  pub next_server_seed_hash : Text
  pub client_seed : Text
  pub nonce : ℕ

abbrev pub view : SeedRow → ActivePairView
view row = record {
  server_seed_hash = row.server_seed_hash;
  next_server_seed_hash = row.next_server_seed_hash;
  client_seed = row.client_seed;
  nonce = row.nonce;
}

-- `getOrCreateActivePair`
unfoldable pub get_or_create_active_pair :
    Crypto → Draws → Table SeedRow → ℕ → ActivePairView × Table SeedRow
get_or_create_active_pair crypto draws seeds user_id =
    let row = row_or_new crypto draws (seeds user_id) in (view row, put user_id row seeds)

-- The white space and line ends that `String.prototype.trim` strips.
abbrev pub is_space : ℕ → Bool
is_space c =
    (leb 9 c && leb c 13)
    || c == 32
    || c == 160
    || c == 5760
    || (leb 8192 c && leb c 8202)
    || c == 8232
    || c == 8233
    || c == 8239
    || c == 8287
    || c == 12288
    || c == 65279

unfoldable pub trim_start : Text → Text
trim_start [] = []
trim_start (c ∷ cs) = if is_space c then trim_start cs else c ∷ cs

unfoldable pub trim_end : Text → Text
trim_end [] = []
trim_end (c ∷ cs) =
    let rest = trim_end cs in
    elim rest [ [] ↦ if is_space c then [] else c ∷ [] | d ∷ ds ↦ c ∷ d ∷ ds ]

unfoldable pub trim : Text → Text
trim s = trim_start (trim_end s)

-- `setClientSeed`
unfoldable pub set_client_seed :
    Crypto → Draws → Table SeedRow → ℕ → Text → Result (ActivePairView × Table SeedRow)
set_client_seed crypto draws seeds user_id client_seed = do
  let trimmed = trim client_seed
  raise_if (ltb (length trimmed) 1 || ltb 64 (length trimmed))
      (bad_request Check.client_seed_length)
  let updated : SeedRow = record (row_or_new crypto draws (seeds user_id)) {
    client_seed = trimmed;
    nonce = 0;
  }
  ok (view updated, put user_id updated seeds)

pub record Revealed : Type 0 where
  pub revealed_server_seed : Text
  pub server_seed_hash : Text
  pub next_server_seed_hash : Text

-- `rotateServerSeed`; `active` says whether the user has a round in progress, `fresh` is the seed it draws.
unfoldable pub rotate_server_seed :
    Crypto → Draws → Table SeedRow → ℕ → Bool → Text → Result (Revealed × Table SeedRow)
rotate_server_seed crypto draws seeds user_id active fresh = do
  raise_if active conflict
  let row = row_or_new crypto draws (seeds user_id)
  let updated : SeedRow = record row {
    server_seed = row.next_server_seed;
    server_seed_hash = row.next_server_seed_hash;
    next_server_seed = fresh;
    next_server_seed_hash = commit_server_seed crypto fresh;
    nonce = 0;
  }
  ok (
    record {
      revealed_server_seed = row.server_seed;
      server_seed_hash = updated.server_seed_hash;
      next_server_seed_hash = updated.next_server_seed_hash;
    },
    put user_id updated seeds,
  )

-- What a bet is derived from.
pub record SeedContext : Type 0 where
  pub server_seed : Text
  pub server_seed_hash : Text
  pub client_seed : Text
  pub nonce : ℕ

abbrev pub advance : SeedRow → SeedRow
advance row = record row { nonce = row.nonce + 1 }

abbrev pub context : SeedRow → SeedContext
context row = record {
  server_seed = row.server_seed;
  server_seed_hash = row.server_seed_hash;
  client_seed = row.client_seed;
  nonce = row.nonce;
}

-- `consumeNonce` in a transaction and `reserveSeedContext` outside of one write the same.
unfoldable pub consume_nonce : Crypto → Draws → Table SeedRow → ℕ → SeedContext × Table SeedRow
consume_nonce crypto draws seeds user_id =
    let row = advance (row_or_new crypto draws (seeds user_id)) in
    (context row, put user_id row seeds)

unfoldable pub reserve_seed_context :
    Crypto → Draws → Table SeedRow → ℕ → SeedContext × Table SeedRow
reserve_seed_context crypto draws seeds user_id =
    let row = advance (row_or_new crypto draws (seeds user_id)) in
    (context row, put user_id row seeds)

-- `nextNonce`
unfoldable pub next_nonce : Crypto → Draws → Table SeedRow → ℕ → ℕ × Table SeedRow
next_nonce crypto draws seeds user_id =
    let row = advance (row_or_new crypto draws (seeds user_id)) in
    (row.nonce, put user_id row seeds)
