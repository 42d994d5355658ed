-- ===== src/Coinflip.antt =====
-- Flips between two players or against the house: apps/api/src/games/coinflip/coinflip.service.ts, with
-- cancel-open-flip.ts beside it and packages/fair/src/coinflip.ts. Each command is one transaction. The time, the
-- random seeds and what the chain answers are arguments.
pub mod Commands
pub mod Guards
pub mod Claims
pub mod Locked
mod Tests
use Prim.Native.String.{String}
use scadium.Prelude.{
  ℕ, ◌+◌, ◌*◌, ◌/◌, ◌%◌, Bool, true, false, not, ◌&&◌, Option, none, some, List, [], ◌∷◌, take, ltb,
  ◌==◌, if◌then◌else◌, Result, ok, err, ◌>>=◌, ◌>>◌, raise_if, or_raise, bad_request, forbidden,
  not_found, missing_row, unavailable, Check, Table, put,
}
use scadium.Prelude.Int.{pos, ◌-ℤ◌}
use scadium.Ledger.{User, Accounts, Meta, Currency, apply_balance_delta}
use scadium.Fair.Hash.{Text, Crypto, hmac_sha256, build_message, parse_hex}
use scadium.Fair.Derive.{derive_seed_context}
use scadium.Seeds.{SeedRow, Draws, SeedContext, consume_nonce}
use scadium.Rounds.{GameType, Bet, Services, bump}
use scadium.Rounds.Stateful.{take_seed}

pub data Side : Type 0 where
  heads tails : Side

-- `CoinflipStatus`; `open` is a word of the language, and `matched` is never written.
pub data FlipStatus : Type 0 where
  open_flip resolving completed cancelled : FlipStatus

-- The row `CoinflipGame` with its own seed.
pub record Flip : Type 0 where
  pub id : ℕ
  pub creator_id : ℕ
  pub creator_side : Side
  pub joiner_id : Option ℕ
  pub amount_lamports : ℕ
  pub result : Option Side
  pub winner_id : Option ℕ
  pub status : FlipStatus
  pub server_seed : Text
  pub client_seed : Text
  pub nonce : ℕ
  pub vs_house : Bool
  pub expires_at : Option ℕ

pub record FlipDb (E : Type 0) : Type 0 where
  pub accounts : Accounts
  pub seeds : Table SeedRow
  pub flips : List Flip
  pub bets : List Bet
  pub rest : E
  pub next_id : ℕ

-- Who takes the other side. `canonical_params` is the sorted parameter line of a flip, which has none.
pub data Opponent : Type 0 where
  player : ℕ → Option SeedContext → Option (List ℕ) → Opponent
  house : Opponent

abbrev pub canonical_params : Text
canonical_params = []

-- `coinflipResult`
unfoldable pub coinflip_result : Crypto → Text → Text → ℕ → Side
coinflip_result crypto server_seed client_seed nonce =
    let hash = hmac_sha256 crypto server_seed (build_message client_seed nonce) in
    if parse_hex 0 (take 2 hash) % 2 == 0 then Side.heads else Side.tails

unfoldable pub same_side : Side → Side → Bool
same_side heads heads = true
same_side tails tails = true
same_side a b = false

abbrev pub other_side : Side → Side
other_side Side.heads = Side.tails
other_side Side.tails = Side.heads

unfoldable pub is_open : FlipStatus → Bool
is_open open_flip = true
is_open s = false

-- `joinable`
unfoldable pub joinable : ℕ → Flip → Bool
joinable now f = is_open f.status && elim f.expires_at [ none ↦ true | some at ↦ ltb now at ]

unfoldable pub find_flip : ℕ → List Flip → Option Flip
find_flip id [] = none
find_flip id (f ∷ flips) = if f.id == id then some f else find_flip id flips

unfoldable pub update_flip : ℕ → (Flip → Flip) → List Flip → List Flip
update_flip id change [] = []
update_flip id change (f ∷ flips) =
    if f.id == id then change f ∷ flips else f ∷ update_flip id change flips

-- A guarded `updateMany` of one row: whether the row passes.
unfoldable pub guard_flip : (Flip → Bool) → ℕ → List Flip → Bool
guard_flip test id [] = false
guard_flip test id (f ∷ flips) = if f.id == id then test f else guard_flip test id flips

abbrev pub flip_meta : String → String → ℕ → Meta
flip_meta reason ref_type ref = record {
  reason = reason;
  ref_type = ref_type;
  ref_id = some ref;
  currency = Currency.jeton;
  max_balance = none;
}

-- The winner's payout: 1.9 times the stake.
unfoldable pub winner_payout : ℕ → ℕ
winner_payout stake = stake * 190 / 100

-- `cancelOpenFlip`: none if the flip was not open.
unfoldable pub cancel_open_flip : {E : Type 0} → ℕ → FlipDb E → Result (Option (FlipDb E))
cancel_open_flip id db =
    if guard_flip (λ f. is_open f.status) id db.flips
    then elim (find_flip id db.flips) [
      | none ↦ err missing_row
      | some game ↦
          apply_balance_delta db.accounts game.creator_id (pos game.amount_lamports)
            (flip_meta "refund" "CoinflipGame" id)
          >>= λ paid. ok (
              some (record db {
                accounts = paid.1;
                flips = update_flip id (λ f. record f { status = FlipStatus.cancelled }) db.flips;
              }))
    ]
    else ok none

-- A human side of a flip: the user, and whether it won.
abbrev pub SideBet : Type 0
SideBet = ℕ × Bool

abbrev pub human_sides : Flip → Opponent → Bool → List SideBet
human_sides game (player user_id reserved entropy) creator_wins =
    (game.creator_id, creator_wins) ∷ (user_id, not creator_wins) ∷ []
human_sides game house creator_wins = (game.creator_id, creator_wins) ∷ []

abbrev pub winner_of : Flip → Opponent → Bool → Option ℕ
winner_of game opponent true = some game.creator_id
winner_of game (player user_id reserved entropy) false = some user_id
winner_of game house false = none

abbrev pub joiner_of : Opponent → Option ℕ
joiner_of (player user_id reserved entropy) = some user_id
joiner_of house = none

abbrev pub is_house : Opponent → Bool
is_house house = true
is_house (player user_id reserved entropy) = false

-- The opponent's stake, the seed context that keys the result, and the seed of the flip.
unfoldable pub take_other_side :
    {E : Type 0}
    → Crypto
    → Draws
    → Flip
    → Opponent
    → FlipDb E
    → Result (SeedContext × Text × FlipDb E)
take_other_side crypto draws game (player user_id reserved entropy) db = do
  joiner ← or_raise (db.accounts.users user_id) not_found
  raise_if joiner.banned forbidden
  debited ←
      apply_balance_delta db.accounts user_id (pos 0 -ℤ pos game.amount_lamports)
        (flip_meta "coinflip_stake" "CoinflipGame" game.id)
  let taken = take_seed crypto draws db.seeds user_id reserved
  seed ←
      or_raise
        (derive_seed_context crypto
          (record {
            server_seed = game.server_seed;
            client_seed = taken.0.client_seed;
            nonce = taken.0.nonce;
          })
          entropy canonical_params)
        unavailable
  ok (taken.0, seed.server_seed, record db { accounts = debited.1; seeds = taken.1 })
take_other_side crypto draws game house db =
    let taken = consume_nonce crypto draws db.seeds game.creator_id in
    ok (taken.0, game.server_seed, record db { seeds = taken.1 })

module _ {E : Type 0} (services : Services E) where
  abbrev pub payout_of : ℕ → Bool → ℕ
  payout_of stake won = if won then winner_payout stake else 0

  -- One human side in the loop of `resolve`.
  unfoldable pub settle_side : Flip → ℕ → SideBet → FlipDb E → Result (FlipDb E)
  settle_side game nonce (user_id, won) db = do
    let stake = game.amount_lamports
    let payout = payout_of stake won
    user ← or_raise (db.accounts.users user_id) missing_row
    let bumped : Accounts = record db.accounts {
      users = put user_id (bump stake payout user) db.accounts.users;
    }
    accrued ← services.accrue db.rest bumped user_id GameType.coinflip stake
    paid ←
        if won
        then (apply_balance_delta accrued.1 user_id (pos payout)
              (flip_meta "coinflip_payout" "Bet" db.next_id)
            >>= λ r. ok r.1)
        else ok accrued.1
    rest ← services.credit_referral accrued.0 user_id stake GameType.coinflip
    ok (record db {
      accounts = paid;
      rest = rest;
      bets =
          record {
            id = db.next_id;
            user_id = user_id;
            game_type = GameType.coinflip;
            amount_lamports = stake;
            payout_lamports = payout;
            multiplier = if won then 190 else 0;
            is_won = won;
            nonce = nonce;
          }
          ∷ db.bets;
      next_id = db.next_id + 1;
    })

  unfoldable pub settle_sides : Flip → ℕ → List SideBet → FlipDb E → Result (FlipDb E)
  settle_sides game nonce [] db = ok db
  settle_sides game nonce (s ∷ sides) db =
      settle_side game nonce s db >>= settle_sides game nonce sides

  abbrev pub completed_flip : Flip → Opponent → Side → SeedContext → Flip → Flip
  completed_flip game opponent result ctx f = record f {
    joiner_id = joiner_of opponent;
    vs_house = is_house opponent;
    result = some result;
    winner_id = winner_of game opponent (same_side result game.creator_side);
    status = FlipStatus.completed;
    client_seed = ctx.client_seed;
    nonce = ctx.nonce;
    expires_at = none;
  }

  -- `resolve`
  unfoldable pub resolve : Crypto → Draws → ℕ → Flip → Opponent → FlipDb E → Result (FlipDb E)
  resolve crypto draws now game opponent db = do
    raise_if (not (guard_flip (joinable now) game.id db.flips)) (bad_request Check.not_joinable)
    let claimed : FlipDb E = record db {
      flips = update_flip game.id (λ f. record f { status = FlipStatus.resolving }) db.flips;
    }
    taken ← take_other_side crypto draws game opponent claimed
    let result = coinflip_result crypto taken.1 taken.0.client_seed taken.0.nonce
    settled ←
        settle_sides game taken.0.nonce
          (human_sides game opponent (same_side result game.creator_side)) taken.2
    ok (record settled {
      flips = update_flip game.id (completed_flip game opponent result taken.0) settled.flips;
    })
