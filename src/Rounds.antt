-- ===== src/Rounds.antt =====
-- The settlement paths of the single-player games: apps/api/src/games/instant/stateful-round.ts for the games
-- played in steps, apps/api/src/games/instant/instant-settle.ts for the others. A multiplier is its
-- number of hundredths. The services that a settlement calls are an interface.
pub mod Stateful
pub mod Instant
pub mod Money
pub mod Mines
pub mod Tower
pub mod Hilo
mod Tests
use Prim.Native.String.{String, ◌++◌}
use scadium.Prelude.{
  ℕ, ◌+◌, ◌-◌, ◌*◌, ◌/◌, max, Bool, true, false, not, ◌&&◌, Option, none, some, List, [], ◌∷◌, leb,
  ltb, ◌==◌, if◌then◌else◌, Result, ok, err, ◌>>=◌, ◌>>◌, raise_if, or_raise, bad_request,
  not_found, conflict, missing_row, Check, Table, put,
}
use scadium.Prelude.Int.{ℤ, pos, ◌-ℤ◌}
use scadium.Ledger.{User, Accounts, Meta, Currency, apply_balance_delta}
use scadium.Fair.Hash.{Text, Crypto}
use scadium.Fair.Derive.{Seed, derive_seed_context}
use scadium.Seeds.{SeedRow, Draws, SeedContext, consume_nonce}

pub data GameType : Type 0 where
  crash coinflip blackjack lottery jackpot dice limbo wheel plinko mines hilo tower keno : GameType

unfoldable pub game_index : GameType → ℕ
game_index crash = 0
game_index coinflip = 1
game_index blackjack = 2
game_index lottery = 3
game_index jackpot = 4
game_index dice = 5
game_index limbo = 6
game_index wheel = 7
game_index plinko = 8
game_index mines = 9
game_index hilo = 10
game_index tower = 11
game_index keno = 12

unfoldable pub game_name : GameType → String
game_name crash = "crash"
game_name coinflip = "coinflip"
game_name blackjack = "blackjack"
game_name lottery = "lottery"
game_name jackpot = "jackpot"
game_name dice = "dice"
game_name limbo = "limbo"
game_name wheel = "wheel"
game_name plinko = "plinko"
game_name mines = "mines"
game_name hilo = "hilo"
game_name tower = "tower"
game_name keno = "keno"

pub data RoundStatus : Type 0 where
  active won lost : RoundStatus

unfoldable pub is_active : RoundStatus → Bool
is_active active = true
is_active s = false

-- The row `InstantRound`: S is the secret part of its state, P the public one, R what a game publishes at its end.
pub record Round (S P R : Type 0) : Type 0 where
  pub id : ℕ
  pub user_id : ℕ
  pub game_type : GameType
  pub stake_lamports : ℕ
  pub status : RoundStatus
  pub server_seed_hash : Text
  pub client_seed : Text
  pub nonce : ℕ
  pub multiplier : ℕ
  pub secret : S
  pub public : P
  pub result : Option R
  pub bet_id : Option ℕ

-- The row `Bet`.
pub record Bet : Type 0 where
  pub id : ℕ
  pub user_id : ℕ
  pub game_type : GameType
  pub amount_lamports : ℕ
  pub payout_lamports : ℕ
  pub multiplier : ℕ
  pub is_won : Bool
  pub nonce : ℕ

-- The other services that a settlement calls, over a state of their own: the wager gate, the proof of wager,
-- which may move balances, and the commission of a referrer.
pub record Services (E : Type 0) : Type 0 where
  pub assert_can_wager : E → Accounts → ℕ → ℕ → Result (Unit {0})
  pub accrue : E → Accounts → ℕ → GameType → ℕ → Result (E × Accounts)
  pub credit_referral : E → ℕ → ℕ → GameType → Result E

pub record RoundDb (E S P R : Type 0) : Type 0 where
  pub accounts : Accounts
  pub seeds : Table SeedRow
  pub rounds : List (Round S P R)
  pub bets : List Bet
  pub rest : E
  pub next_id : ℕ

abbrev pub round_meta : GameType → String → String → Option ℕ → Meta
round_meta game suffix ref_type ref = record {
  reason = game_name game ++ suffix;
  ref_type = ref_type;
  ref_id = ref;
  currency = Currency.jeton;
  max_balance = none;
}

-- The lifetime aggregates of one settlement.
unfoldable pub bump : ℕ → ℕ → User → User
bump stake payout u = record u {
  total_wagered = u.total_wagered + stake;
  total_won = u.total_won + (payout - stake);
  total_lost = u.total_lost + (stake - payout);
  games_played = u.games_played + 1;
  biggest_win = max u.biggest_win (payout - stake);
}

unfoldable pub pay : Accounts → ℕ → ℕ → Meta → Result Accounts
pay accounts user_id payout meta =
    if ltb 0 payout
    then (apply_balance_delta accounts user_id (pos payout) meta >>= λ paid. ok paid.1)
    else ok accounts

-- The part that both settlement paths share: the credit of the payout, the aggregates, the calls of the other
-- services and the row of the bet.
unfoldable pub settle :
    {E S P R : Type 0}
    → Services E
    → RoundDb E S P R
    → ℕ
    → GameType
    → ℕ
    → ℕ
    → Meta
    → Bet
    → Result (RoundDb E S P R)
settle services db user_id game stake payout meta bet = do
  paid ← pay db.accounts user_id payout meta
  user ← or_raise (paid.users user_id) missing_row
  let bumped : Accounts = record paid { users = put user_id (bump stake payout user) paid.users }
  accrued ← services.accrue db.rest bumped user_id game stake
  rest ← services.credit_referral accrued.0 user_id stake game
  ok (record db {
    accounts = accrued.1;
    bets = bet ∷ db.bets;
    rest = rest;
    next_id = db.next_id + 1;
  })
