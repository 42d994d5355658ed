-- ===== src/Custody/Tests.antt =====
-- Runs of apps/api/src/custody/withdrawal.service.ts, and the theorem about it at a concrete run.
use scadium.Prelude.{
  ℕ, ◌≡◌, inl, refl, true, false, none, some, [], ◌∷◌, All, arith, ok, err, Table, put, ◌==◌,
  Result,
}
use scadium.Prelude.Int.{pos, ◌+ℤ◌, ◌-ℤ◌}
use scadium.Prelude.Counting.{includes}
use scadium.Ledger.{User, balance, set_balance, apply_balance_delta, move, debit, record_move}
use scadium.Custody.{
  Kind, Status, Transfer, Broadcast, Holder, TransferView, CustodyDb, Config, Sending, Reading,
  find_transfer, update_transfer, same_status, same_signature, send, confirm, check, step,
}
use scadium.Custody.Requests.{
  request, permit, open_transfer, any_in_flight, taken_since, claim_idempotency, store_idempotency,
  transfer_view,
}
use scadium.Custody.Signatures.{Fate, IsHonest, IsOut}
use scadium.Custody.Signatures.Payouts.{Run, started, requested, stepped, Run-paid_once}
use scadium.Custody.Money.Owed.{worth}
use scadium.Custody.Money.Conserved.{Run-conserved}

abbrev player : User
player = record {
  banned = false;
  play_balance_lamports = pos 1000;
  scadium_balance = pos 0;
  scadium_staked = pos 0;
  usds_balance = pos 0;
  scadium_vault = pos 0;
  total_wagered = 0;
  total_won = 0;
  total_lost = 0;
  games_played = 0;
  biggest_win = 0;
}

abbrev no_rows : (A : Type 0) → Table A
no_rows A j = none

abbrev opened : CustodyDb
opened = record {
  accounts = record { users = put 1 player (no_rows User); ledger = [] };
  holders =
      put 1 (record { funded = true; wallet_address = 77; linked_wallets = [] }) (no_rows Holder);
  transfers = [];
  keys = λ u k. none;
  network = [];
  next_id = 5;
}

abbrev cfg : Config
cfg = record {
  min_withdraw_lamports = 10;
  max_withdraw_lamports = 500;
  daily_withdraw_lamports = 900;
  fee_reserve_lamports = 5;
  withdraw_max_attempts = 1;
  expiry_margin_blocks = 150;
}

abbrev get_ok {ℓ} : {A : Type ℓ} → Result A → A → A
get_ok (ok a) d = a
get_ok (err e) d = d

abbrev row_5 : Transfer
row_5 = record {
  id = 5;
  kind = Kind.withdrawal;
  status = Status.pending;
  user_id = 1;
  wallet = 77;
  amount_lamports = 300;
  tx_signature = none;
  slot = none;
  last_valid_block_height = none;
  attempts = 0;
  created_at = 20;
}

abbrev queued : TransferView × CustodyDb
queued = get_ok (request cfg opened true false 1 300 none none 0 20) (transfer_view row_5, opened)

request_runs : request cfg opened true false 1 300 none none 0 20 ≡ ok queued
unfolding request claim_idempotency permit includes any_in_flight taken_since open_transfer
    store_idempotency apply_balance_delta move debit record_move balance set_balance ◌+ℤ◌ ◌-ℤ◌
request_runs = refl

balance_queued :
    queued.1.accounts.users 1 ≡ some (record player { play_balance_lamports = pos 700 })
unfolding request claim_idempotency permit includes any_in_flight taken_since open_transfer
    store_idempotency apply_balance_delta move debit record_move balance set_balance ◌+ℤ◌ ◌-ℤ◌
balance_queued = refl

row_queued : find_transfer 5 queued.1.transfers ≡ some row_5
unfolding find_transfer request claim_idempotency permit includes any_in_flight taken_since
    open_transfer store_idempotency apply_balance_delta move debit record_move balance set_balance
    ◌+ℤ◌ ◌-ℤ◌
row_queued = refl

abbrev fate : Fate
fate = record { lands = λ s. s == 9; expiry = λ s. 100 }

abbrev sending : Sending
sending = record {
  paused = false;
  active = true;
  hot_lamports = 400;
  signature = 9;
  last_valid_block_height = 100;
}

abbrev seen : Reading
seen = record {
  finalized = 90;
  state = record { found = true; failed = false; settled = true; slot = some 88 };
}

abbrev row_sent : Transfer
row_sent = record row_5 {
  status = Status.sent;
  tx_signature = some 9;
  last_valid_block_height = some 100;
  attempts = 1;
}

abbrev out : CustodyDb
out = record queued.1 {
  transfers = row_sent ∷ [];
  network = record { transfer_id = 5; signature = 9 } ∷ [];
}

send_runs : step cfg row_5 sending seen queued.1 ≡ ok out
unfolding step send find_transfer update_transfer same_status request claim_idempotency permit
    includes any_in_flight taken_since open_transfer store_idempotency apply_balance_delta move
    debit record_move balance set_balance ◌+ℤ◌ ◌-ℤ◌
send_runs = refl

abbrev row_done : Transfer
row_done = record row_sent { status = Status.confirmed; slot = some 88 }

check_runs : step cfg row_sent sending seen out ≡ ok (record out { transfers = row_done ∷ [] })
unfolding step check confirm find_transfer update_transfer same_status same_signature
check_runs = refl

row_out : find_transfer 5 out.transfers ≡ some row_sent
unfolding find_transfer
row_out = refl

row_end : find_transfer 5 (row_done ∷ []) ≡ some row_done
unfolding find_transfer
row_end = refl

no_signature : (s : ℕ) → row_5.tx_signature ≡ some s → IsHonest fate cfg s seen
no_signature s h = cc

honest : (s : ℕ) → row_sent.tx_signature ≡ some s → IsHonest fate cfg s seen
honest s h = record { landed = λ a b c. ground arith; rejected = λ a b c. cc; expired = λ a b. cc }

abbrev done : CustodyDb
done = record out { transfers = row_done ∷ [] }

-- A withdrawal that is requested, sent and confirmed.
whole_run : Run fate cfg (done ∷ out ∷ queued.1 ∷ opened ∷ [])
whole_run =
    stepped row_sent sending seen
      (stepped row_5 sending seen
        (requested true false 1 300 none none 0 20 (started opened refl refl) request_runs)
        (inl row_queued) refl no_signature send_runs)
      (inl row_out) refl honest check_runs

Run-paid_once_example :
    All
      (λ (b : Broadcast).
        b.transfer_id ≡ 5
        → fate.lands b.signature ≡ true
        → IsOut row_done.status × (row_done.tx_signature ≡ some b.signature))
      out.network
    × ((s : ℕ)
        → row_done.status ≡ Status.confirmed
        → row_done.tx_signature ≡ some s
        → fate.lands s ≡ true)
Run-paid_once_example = Run-paid_once 5 row_done whole_run row_end

Run-conserved_example :
    All (λ (d : CustodyDb). worth d 1 ≡ worth done 1) (out ∷ queued.1 ∷ opened ∷ [])
Run-conserved_example = Run-conserved 1 whole_run
