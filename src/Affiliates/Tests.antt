-- ===== src/Affiliates/Tests.antt =====
-- Runs of apps/api/src/affiliates/affiliates.service.ts and of the services of a settlement, and the theorems
-- about them at concrete inputs.
use scadium.Ledger.Worth.{to_user}
use scadium.Prelude.{
  ℕ, ◌+◌, ◌*◌, ◌/◌, ◌≤◌, ◌≡◌, refl, true, false, none, some, [], ◌∷◌, arith, ok, err, Table, put,
  Result, bad_request, Check,
}
use scadium.Prelude.Int.{pos, ◌+ℤ◌, ◌-ℤ◌}
use scadium.Ledger.{
  User, Accounts, balance, set_balance, apply_balance_delta, move, credit, record_move,
}
use scadium.Rounds.{GameType, bump, pay}
use scadium.Blackjack.{Phase, HandStatus, SeatBet, Seat, TableState, bet_total, update_round}
use scadium.Blackjack.Settlement.{BlackjackDb, settle_tx, pay_seats, pay_seat, is_open_round}
use scadium.Affiliates.{
  Member, Referral, Network, tier_commission, tier_from, edge_ppm, referral_commission,
  referred_volume, upsert_referral, commission_of, credit_referrer, credit_referral, shares_economy,
  same_ip, upsert_volume, accrue, engine, total_claimable, claim,
}
use scadium.Affiliates.Claims.{
  opened, credited, claimed, total_claimed, total_earned, Activity-paid,
}
use scadium.Affiliates.Volumes.{IsSettled, settle_tx-IsSettled}

abbrev player : User
player = record {
  banned = false;
  play_balance_lamports = pos 9000000;
  scadium_balance = pos 0;
  scadium_staked = pos 0;
  usds_balance = pos 0;
  scadium_vault = pos 0;
  total_wagered = 0;
  total_won = 0;
  total_lost = 0;
  games_played = 0;
  biggest_win = 0;
}

abbrev no_rows : (A : Type 0) → Table A
no_rows A j = none

abbrev accounts : Accounts
accounts = record { users = put 2 player (put 1 player (no_rows User)); ledger = [] }

-- User 1 was referred by user 2.
abbrev network : Network
network = record {
  members =
      put 1 (record { referred_by_id = some 2; signup_ip_hash = some 77; is_real = true })
        (put 2 (record { referred_by_id = none; signup_ip_hash = some 78; is_real = true })
          (no_rows Member));
  referrals = [];
  volumes = [];
  economy_enforced = true;
  daily = 5;
  weekly = 6;
}

-- 5% of the stake is the house's, and 5% of that the referrer's.
abbrev earned_row : Referral
earned_row = record {
  referrer_id = 2;
  referee_id = 1;
  volume_lamports = 1000000;
  commission_lamports = 2500;
  commission_claimed_lamports = 0;
  flagged = false;
}

abbrev earned : Network
earned = credit_referral network 1 1000000 GameType.mines

credit_referral_runs : earned ≡ record network { referrals = earned_row ∷ [] }
unfolding credit_referral credit_referrer commission_of referral_commission tier_commission
    tier_from edge_ppm referred_volume upsert_referral shares_economy same_ip
credit_referral_runs = refl

same_ip_runs : same_ip (some 77) (some 77) ≡ true
unfolding same_ip
same_ip_runs = refl

tier_runs : tier_commission 100000000000 ≡ 120000
unfolding tier_commission tier_from
tier_runs = refl

abbrev ok_or {ℓ} : {A : Type ℓ} → Result A → A → A
ok_or (ok a) d = a
ok_or (err e) d = d

abbrev paid_out : ℕ × Network × Accounts
paid_out = ok_or (claim earned accounts 2) (0, earned, accounts)

claim_runs : claim earned accounts 2 ≡ ok (2500, paid_out.1, paid_out.2)
unfolding credit_referral credit_referrer commission_of referral_commission tier_commission
    tier_from edge_ppm referred_volume upsert_referral shares_economy same_ip claim total_claimable
    apply_balance_delta move credit record_move balance set_balance ◌+ℤ◌ ◌-ℤ◌
claim_runs = refl

claim_refused : claim network accounts 2 ≡ err (bad_request Check.no_commission)
unfolding claim total_claimable
claim_refused = refl

abbrev richer : User
richer = record player { play_balance_lamports = pos 9002500 }

richer_found : paid_out.2.users 2 ≡ some richer
unfolding credit_referral credit_referrer commission_of referral_commission tier_commission
    tier_from edge_ppm referred_volume upsert_referral shares_economy same_ip claim total_claimable
    apply_balance_delta move credit record_move balance set_balance ◌+ℤ◌ ◌-ℤ◌
richer_found = refl

Activity-paid_example :
    (0 + to_user 2 2500 2 ≡ total_claimed 2 paid_out.1.referrals)
    × (0 + to_user 2 2500 2 ≤ total_earned 2 paid_out.1.referrals)
    × (400 * total_earned 2 paid_out.1.referrals ≤ 3 * referred_volume 2 paid_out.1.referrals)
unfolding balance ◌+ℤ◌
Activity-paid_example =
    Activity-paid
      (claimed accounts paid_out.2 2 2500 2500 player richer
        (credited 1 1000000 GameType.mines (opened network refl)) claim_runs refl richer_found refl)
      2

abbrev stake : SeatBet
stake = record { main_lamports = 1000000; side_21p3_lamports = 0; side_perfect_pairs_lamports = 0 }

abbrev won_seat : Seat
won_seat = record {
  index = 0;
  user_id = 1;
  idle_rounds = 0;
  bet = some stake;
  cards = [];
  status = HandStatus.standing;
  doubled = false;
  side_21p3_outcome = none;
  side_perfect_pairs_outcome = none;
  result = none;
  payout_lamports = 2000000;
}

abbrev table : TableState
table = record {
  id = 4;
  is_private = false;
  owner_id = none;
  max_seats = 5;
  phase = Phase.settled;
  active_seat = none;
  seats = won_seat ∷ [];
  dealer_cards = [];
  dealer_hidden = false;
  deck_index = 0;
  deal_log = [];
  round_db_id = some 8;
  client_seed = [];
  deal_seed = [];
  nonce = 0;
  exposure = none;
}

abbrev db : BlackjackDb Network
db = record {
  accounts = accounts;
  rounds = record { id = 8; ended = false; seats = (1, some stake) ∷ [] } ∷ [];
  bets = [];
  rest = network;
  failures = [];
  next_id = 30;
}

abbrev gate : Network → Accounts → ℕ → ℕ → Result (Unit {0})
gate n a user_id amount = ok tt

abbrev ratio : ℕ → ℕ → ℕ
ratio payout n = payout * 100 / n

abbrev settled_db : BlackjackDb Network
settled_db = ok_or (settle_tx (engine gate) ratio true (won_seat ∷ []) [] table db) db

settle_runs : settle_tx (engine gate) ratio true (won_seat ∷ []) [] table db ≡ ok settled_db
unfolding settle_tx is_open_round pay_seats pay_seat pay bump apply_balance_delta move credit
    record_move balance set_balance ◌+ℤ◌ ◌-ℤ◌ bet_total update_round engine accrue upsert_volume
    credit_referral credit_referrer commission_of referral_commission tier_commission tier_from
    edge_ppm referred_volume upsert_referral shares_economy same_ip
settle_runs = refl

settle_tx-IsSettled_example : IsSettled (won_seat ∷ []) db settled_db
settle_tx-IsSettled_example =
    settle_tx-IsSettled gate ratio true (won_seat ∷ []) [] table db (omega arith) settle_runs
