-- ===== src/Coinflip/Commands.antt =====
-- The commands of apps/api/src/games/coinflip/coinflip.service.ts, for requests without an idempotency key.
use scadium.Prelude.{
  ℕ, ◌+◌, Bool, false, not, ◌&&◌, ◌||◌, Option, none, some, List, [], ◌∷◌, take, ltb, leb, ◌==◌,
  if◌then◌else◌, Result, ok, err, ◌>>=◌, ◌>>◌, raise_if, or_raise, bad_request, forbidden,
  not_found, Check,
}
use scadium.Prelude.Int.{pos, ◌-ℤ◌}
use scadium.Ledger.{apply_balance_delta}
use scadium.Fair.Hash.{Text, Crypto}
use scadium.Seeds.{Draws, SeedContext}
use scadium.Rounds.{Services}
use scadium.Coinflip.{
  Side, FlipStatus, Flip, FlipDb, Opponent, is_open, find_flip, flip_meta, cancel_open_flip,
  resolve,
}

-- `COINFLIP.MIN_BET_LAMPORTS`, `MAX_BET_LAMPORTS`, `MAX_OPEN_PER_USER`, `OPEN_TTL_MS`
abbrev pub min_flip_lamports : ℕ
min_flip_lamports = 1000000

abbrev pub max_flip_lamports : ℕ
max_flip_lamports = 100000000000

abbrev pub max_open_per_user : ℕ
max_open_per_user = 5

abbrev pub open_ttl_ms : ℕ
open_ttl_ms = 3600000

-- The number of a user's open flips.
unfoldable pub count_open : ℕ → List Flip → ℕ
count_open user_id [] = 0
count_open user_id (f ∷ flips) =
    let rest = count_open user_id flips in
    if f.creator_id == user_id && is_open f.status then rest + 1 else rest

abbrev pub new_flip : ℕ → ℕ → Side → ℕ → Text → Bool → ℕ → Flip
new_flip id user_id side amount server_seed vs_house now = record {
  id = id;
  creator_id = user_id;
  creator_side = side;
  joiner_id = none;
  amount_lamports = amount;
  result = none;
  winner_id = none;
  status = FlipStatus.open_flip;
  server_seed = server_seed;
  client_seed = [];
  nonce = 0;
  vs_house = false;
  expires_at = if vs_house then none else some (now + open_ttl_ms);
}

module _ {E : Type 0} (services : Services E) where
  -- The part of `create` up to the row of the flip.
  unfoldable pub place_flip : Text → ℕ → FlipDb E → ℕ → Side → ℕ → Bool → Result (Flip × FlipDb E)
  place_flip server_seed now db user_id side amount vs_house = do
    raise_if (ltb amount min_flip_lamports || ltb max_flip_lamports amount)
        (bad_request Check.amount_range)
    services.assert_can_wager db.rest db.accounts user_id amount
    user ← or_raise (db.accounts.users user_id) not_found
    raise_if user.banned forbidden
    raise_if (not vs_house && leb max_open_per_user (count_open user_id db.flips))
        (bad_request Check.too_many_flips)
    debited ←
        apply_balance_delta db.accounts user_id (pos 0 -ℤ pos amount)
          (flip_meta "coinflip_stake" "CoinflipGame" db.next_id)
    let game = new_flip db.next_id user_id side amount server_seed vs_house now
    ok (game, record db { accounts = debited.1; flips = game ∷ db.flips; next_id = db.next_id + 1 })

  -- `create`
  unfoldable pub create :
      Crypto → Draws → Text → ℕ → FlipDb E → ℕ → Side → ℕ → Bool → Result (FlipDb E)
  create crypto draws server_seed now db user_id side amount vs_house = do
    placed ← place_flip server_seed now db user_id side amount vs_house
    if vs_house
        then resolve services crypto draws now placed.0 Opponent.house placed.1
        else ok placed.1

  abbrev pub stake_of_flip : Option Flip → ℕ
  stake_of_flip none = 0
  stake_of_flip (some f) = f.amount_lamports

  -- `join`. `same_economy` is `assertSameEconomy`; what was reserved for the chain, and its entropy, are arguments.
  unfoldable pub join :
      Crypto
      → Draws
      → (FlipDb E → ℕ → ℕ → Result (Unit {0}))
      → ℕ
      → FlipDb E
      → ℕ
      → ℕ
      → Option SeedContext
      → Option (List ℕ)
      → Result (FlipDb E)
  join crypto draws same_economy now db user_id game_id reserved entropy = do
    services.assert_can_wager db.rest db.accounts user_id
        (stake_of_flip (find_flip game_id db.flips))
    game ← or_raise (find_flip game_id db.flips) not_found
    raise_if (game.creator_id == user_id) (bad_request Check.own_flip)
    same_economy db game.creator_id user_id
    resolve services crypto draws now game (Opponent.player user_id reserved entropy) db

  -- `playHouse`
  unfoldable pub play_house : Crypto → Draws → ℕ → FlipDb E → ℕ → ℕ → Result (FlipDb E)
  play_house crypto draws now db user_id game_id = do
    game ← or_raise (find_flip game_id db.flips) not_found
    raise_if (not (game.creator_id == user_id)) forbidden
    resolve services crypto draws now game Opponent.house db

-- `cancel`
unfoldable pub cancel : {E : Type 0} → FlipDb E → ℕ → ℕ → Result (FlipDb E)
cancel db user_id game_id = do
  game ← or_raise (find_flip game_id db.flips) not_found
  raise_if (not (game.creator_id == user_id)) forbidden
  cancelled ← cancel_open_flip game.id db
  or_raise cancelled (bad_request Check.not_open)

abbrev pub after_expiry : {E : Type 0} → FlipDb E → Result (Option (FlipDb E)) → Option (FlipDb E)
after_expiry db (ok (some db')) = some db'
after_expiry db (ok none) = some db
after_expiry db (err e) = none

-- The loop of `expireStale` over the flips that were read as stale, each in a transaction of its own; an error
-- ends it.
unfoldable pub expire_flips : {E : Type 0} → List ℕ → FlipDb E → FlipDb E
expire_flips [] db = db
expire_flips (id ∷ ids) db = elim (after_expiry db (cancel_open_flip id db)) [
  | none ↦ db
  | some next ↦ expire_flips ids next
]

unfoldable pub stale_ids : ℕ → List Flip → List ℕ
stale_ids now [] = []
stale_ids now (f ∷ flips) =
    let rest = stale_ids now flips in
    if is_open f.status && elim f.expires_at [ none ↦ false | some at ↦ leb at now ]
    then f.id ∷ rest
    else rest

-- `expireStale`
unfoldable pub expire_stale : {E : Type 0} → ℕ → FlipDb E → FlipDb E
expire_stale now db = expire_flips (take 100 (stale_ids now db.flips)) db
