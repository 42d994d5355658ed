-- ===== src/Custody/Requests.antt =====
-- `request` of apps/api/src/custody/withdrawal.service.ts, with the idempotency keys of
-- apps/api/src/prisma/idempotency.ts.
use scadium.Prelude.{
  ℕ, ◌+◌, Bool, false, not, ◌&&◌, ◌||◌, Option, none, some, List, [], ◌∷◌, leb, ltb, ◌==◌,
  if◌then◌else◌, Result, ok, err, ◌>>=◌, ◌>>◌, raise_if, or_raise, bad_request, unavailable,
  forbidden, conflict, missing_row, Check,
}
use scadium.Prelude.Int.{pos, ◌-ℤ◌}
use scadium.Prelude.Counting.{includes}
use scadium.Ledger.{apply_balance_delta}
use scadium.Custody.{
  Transfer, TransferView, CustodyDb, Config, Kind, Status, is_withdrawal, withdraw_meta,
  same_status,
}

-- `transferView`
unfoldable pub transfer_view : Transfer → TransferView
transfer_view t = record {
  id = t.id;
  kind = t.kind;
  status = t.status;
  amount_lamports = t.amount_lamports;
  wallet = t.wallet;
  tx_signature = t.tx_signature;
  created_at = t.created_at;
}

-- A user's withdrawal that has not settled.
abbrev pub in_flight : ℕ → Transfer → Bool
in_flight user_id t =
    t.user_id == user_id
    && is_withdrawal t.kind
    && (same_status t.status Status.pending || same_status t.status Status.sent)

unfoldable pub any_in_flight : ℕ → List Transfer → Bool
any_in_flight user_id [] = false
any_in_flight user_id (t ∷ ts) = in_flight user_id t || any_in_flight user_id ts

-- What a user has taken out since the start of the day.
unfoldable pub taken_since : ℕ → ℕ → List Transfer → ℕ
taken_since user_id day [] = 0
taken_since user_id day (t ∷ ts) =
    let rest = taken_since user_id day ts in
    if t.user_id == user_id
      && is_withdrawal t.kind
      && leb day t.created_at
      && (in_flight user_id t || same_status t.status Status.confirmed)
    then t.amount_lamports + rest
    else rest

-- A first use of a key claims it; a later one finds what the first has stored.
pub data Claim : Type 0 where
  proceed : Claim
  replay : TransferView → Claim
  in_progress : Claim

unfoldable pub claim_idempotency : CustodyDb → ℕ → Option ℕ → Claim
claim_idempotency db user_id none = proceed
claim_idempotency db user_id (some key) = elim (db.keys user_id key) [
  | none ↦ proceed
  | some stored ↦ elim stored [ none ↦ in_progress | some view ↦ replay view ]
]

unfoldable pub store_idempotency : ℕ → Option ℕ → TransferView → CustodyDb → CustodyDb
store_idempotency user_id none view db = db
store_idempotency user_id (some key) view db = record db {
  keys = λ u k. if u == user_id && k == key then some (some view) else db.keys u k;
}

-- The checks of the transaction on the user, the wallet and the user's other withdrawals.
unfoldable pub permit : Config → CustodyDb → ℕ → ℕ → Option ℕ → ℕ → Result ℕ
permit cfg db user_id amount wallet day = do
  holder ← or_raise (db.holders user_id) missing_row
  raise_if (not holder.funded) forbidden
  let to : ℕ = elim wallet [ none ↦ holder.wallet_address | some w ↦ w ]
  raise_if (not (includes (holder.wallet_address ∷ holder.linked_wallets) to))
      (bad_request Check.foreign_wallet)
  raise_if (any_in_flight user_id db.transfers) conflict
  raise_if (ltb cfg.daily_withdraw_lamports (taken_since user_id day db.transfers + amount))
      forbidden
  ok to

-- The row that a request creates, the debit and the stored answer.
unfoldable pub open_transfer :
    CustodyDb → ℕ → ℕ → ℕ → Option ℕ → ℕ → Result (TransferView × CustodyDb)
open_transfer db user_id amount to key now = do
  let row : Transfer = record {
    id = db.next_id;
    kind = Kind.withdrawal;
    status = Status.pending;
    user_id = user_id;
    wallet = to;
    amount_lamports = amount;
    tx_signature = none;
    slot = none;
    last_valid_block_height = none;
    attempts = 0;
    created_at = now;
  }
  debited ← apply_balance_delta db.accounts user_id (pos 0 -ℤ pos amount) (withdraw_meta row.id)
  ok (
    transfer_view row,
    store_idempotency user_id key (transfer_view row) (record db {
      accounts = debited.1;
      transfers = row ∷ db.transfers;
      next_id = db.next_id + 1;
    }),
  )

-- `request`; the withdrawal is driven afterwards, by steps of its own.
unfoldable pub request :
    Config
    → CustodyDb
    → Bool
    → Bool
    → ℕ
    → ℕ
    → Option ℕ
    → Option ℕ
    → ℕ
    → ℕ
    → Result (TransferView × CustodyDb)
request cfg db active paused user_id amount wallet key day now = do
  raise_if (not active) unavailable
  raise_if (ltb amount cfg.min_withdraw_lamports) (bad_request Check.withdrawal_range)
  raise_if (ltb cfg.max_withdraw_lamports amount) (bad_request Check.withdrawal_range)
  raise_if paused unavailable
  elim (claim_idempotency db user_id key) [
    | replay view ↦ ok (view, db)
    | in_progress ↦ err conflict
    | proceed ↦ do
      to ← permit cfg db user_id amount wallet day
      open_transfer db user_id amount to key now
  ]
