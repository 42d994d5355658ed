-- ===== src/Coinflip/Tests.antt =====
-- Runs of apps/api/src/games/coinflip/coinflip.service.ts, and the theorems about it at concrete inputs.
use scadium.Prelude.{
  ℕ, ◌+◌, ◌≡◌, refl, false, none, some, [], ◌∷◌, ok, err, Table, put, Result, bad_request,
  forbidden, Check, replicate,
}
use scadium.Prelude.Int.{pos, ◌+ℤ◌, ◌-ℤ◌}
use scadium.Ledger.{
  User, Currency, balance, set_balance, apply_balance_delta, move, debit, credit, record_move,
}
use scadium.Fair.Hash.{Crypto, hmac_sha256, build_message, parse_hex, to_hex}
use scadium.Seeds.{SeedRow, Draws}
use scadium.Rounds.{Services}
use scadium.Coinflip.{
  Side, FlipStatus, Flip, FlipDb, Opponent, coinflip_result, is_open, find_flip, update_flip,
  guard_flip, cancel_open_flip, resolve,
}
use scadium.Coinflip.Commands.{count_open, place_flip, join, cancel}
use scadium.Coinflip.Claims.{cancelled_now, no_more, Taking-once}
use scadium.Coinflip.Locked.{worth, placed, Parking-conserves}

abbrev toy : Crypto
toy = record { hmac = λ key message. replicate 32 200; hash = λ input. replicate 32 9 }

abbrev lenient : Services ℕ
lenient = record {
  assert_can_wager = λ rest accounts user_id amount. ok tt;
  accrue = λ rest accounts user_id game stake. ok (rest + stake, accounts);
  credit_referral = λ rest user_id stake game. ok rest;
}

abbrev player : User
player = record {
  banned = false;
  play_balance_lamports = pos 9000000;
  scadium_balance = pos 0;
  scadium_staked = pos 0;
  usds_balance = pos 0;
  scadium_vault = pos 0;
  total_wagered = 0;
  total_won = 0;
  total_lost = 0;
  games_played = 0;
  biggest_win = 0;
}

abbrev no_rows : (A : Type 0) → Table A
no_rows A j = none

abbrev db : FlipDb ℕ
db = record {
  accounts = record { users = put 1 player (put 2 player (no_rows User)); ledger = [] };
  seeds = no_rows SeedRow;
  flips = [];
  bets = [];
  rest = 0;
  next_id = 5;
}

abbrev ok_or {ℓ} : {A : Type ℓ} → Result A → A → A
ok_or (ok a) d = a
ok_or (err e) d = d

abbrev flip : Flip
flip = record {
  id = 5;
  creator_id = 1;
  creator_side = Side.heads;
  joiner_id = none;
  amount_lamports = 2000000;
  result = none;
  winner_id = none;
  status = FlipStatus.open_flip;
  server_seed = 7 ∷ [];
  client_seed = [];
  nonce = 0;
  vs_house = false;
  expires_at = some 3600100;
}

abbrev placed_db : FlipDb ℕ
placed_db = (ok_or (place_flip lenient (7 ∷ []) 100 db 1 Side.heads 2000000 false) (flip, db)).1

place_runs : place_flip lenient (7 ∷ []) 100 db 1 Side.heads 2000000 false ≡ ok (flip, placed_db)
unfolding place_flip count_open apply_balance_delta move debit record_move balance set_balance ◌+ℤ◌
    ◌-ℤ◌
place_runs = refl

Parking-conserves_example : worth placed_db 1 ≡ worth db 1
Parking-conserves_example =
    Parking-conserves lenient db placed_db
      (placed (7 ∷ []) 100 1 Side.heads 2000000 false flip place_runs) 1

abbrev draws : Draws
draws = record { client = 3 ∷ []; server = 4 ∷ []; next = 6 ∷ [] }

coinflip_runs : coinflip_result toy (7 ∷ []) (3 ∷ []) 1 ≡ Side.heads
unfolding coinflip_result hmac_sha256 build_message parse_hex to_hex
coinflip_runs = refl

abbrev waiting_db : FlipDb ℕ
waiting_db = record db { flips = flip ∷ []; next_id = 6 }

abbrev cancelled_db : FlipDb ℕ
cancelled_db = record waiting_db {
  accounts =
      (ok_or
        (apply_balance_delta db.accounts 1 (pos 2000000) (record {
          reason = "refund";
          ref_type = "CoinflipGame";
          ref_id = some 5;
          currency = Currency.jeton;
          max_balance = none;
        }))
        (pos 0, db.accounts)).1;
  flips = record flip { status = FlipStatus.cancelled } ∷ [];
}

cancel_runs : cancel_open_flip 5 waiting_db ≡ ok (some cancelled_db)
unfolding cancel_open_flip guard_flip find_flip update_flip is_open apply_balance_delta move credit
    record_move balance set_balance ◌+ℤ◌ ◌-ℤ◌
cancel_runs = refl

foreign_cancel : cancel waiting_db 2 5 ≡ err forbidden
unfolding cancel find_flip
foreign_cancel = refl

own_join :
    join lenient toy draws (λ d a b. ok tt) 200 waiting_db 1 5 none none
    ≡ err (bad_request Check.own_flip)
unfolding join find_flip
own_join = refl

Taking-once_example :
    ((crypto : Crypto) (d : Draws) (now : ℕ) (game : Flip) (opponent : Opponent)
      → resolve lenient crypto d now (record game { id = 5 }) opponent cancelled_db
        ≡ err (bad_request Check.not_joinable))
    × (cancel_open_flip 5 cancelled_db ≡ ok none)
Taking-once_example =
    Taking-once lenient 5 waiting_db cancelled_db (cancelled_now cancel_runs) no_more
