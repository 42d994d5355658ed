-- ===== src/Custody/Signatures/Opened.antt =====
-- What a request of apps/api/src/custody/withdrawal.service.ts writes.
use scadium.Prelude.{
  ℕ, ◌+◌, ◌≡◌, ◌⊎◌, inl, inr, refl, Bool, Option, none, some, ◌∷◌, arith, Result-cases, ok,
}
use scadium.Prelude.Int.{pos, ◌-ℤ◌}
use scadium.Ledger.{apply_balance_delta}
use scadium.Custody.{Kind, Transfer, pending, CustodyDb, Config, TransferView, withdraw_meta}
use scadium.Custody.Requests.{
  request, open_transfer, transfer_view, store_idempotency, claim_idempotency, Claim, proceed,
  replay, in_progress, permit,
}

pub store_idempotency-keeps :
    (user_id : ℕ) (key : Option ℕ) (view : TransferView) (db : CustodyDb)
    → let db' = store_idempotency user_id key view db in
      (db'.transfers ≡ db.transfers)
      × (db'.network ≡ db.network)
      × (db'.next_id ≡ db.next_id)
      × (db'.accounts ≡ db.accounts)
unfolding store_idempotency
store_idempotency-keeps user_id none view db = (refl, refl, refl, refl)
store_idempotency-keeps user_id (some key) view db = (refl, refl, refl, refl)

-- A request opens a row that nothing was broadcast for.
pub open_transfer-writes :
    (db : CustodyDb) (user_id amount to : ℕ) (key : Option ℕ) (now : ℕ) {view : TransferView}
    {db' : CustodyDb}
    → open_transfer db user_id amount to key now ≡ ok (view, db')
    → (row : Transfer) × (row.id ≡ db.next_id)
      × (row.status ≡ pending)
      × (db'.transfers ≡ row ∷ db.transfers)
      × (db'.network ≡ db.network)
      × (db'.next_id ≡ db.next_id + 1)
unfolding open_transfer
open_transfer-writes db user_id amount to key now {view} {db'} h =
    elim (Result-cases
      (apply_balance_delta db.accounts user_id (pos 0 -ℤ pos amount) (withdraw_meta db.next_id))) [
        | inr (x, e) ↦ absurd (ground arith)
        | inl (debited, e) ↦
            let row : Transfer = record {
              id = db.next_id;
              kind = Kind.withdrawal;
              status = pending;
              user_id = user_id;
              wallet = to;
              amount_lamports = amount;
              tx_signature = none;
              slot = none;
              last_valid_block_height = none;
              attempts = 0;
              created_at = now;
            } in
            let opened : CustodyDb = record db {
              accounts = debited.1;
              transfers = row ∷ db.transfers;
              next_id = db.next_id + 1;
            } in
            let (rows, network, count, accounts) =
              store_idempotency-keeps user_id key (transfer_view row) opened in
            let same : db' ≡ store_idempotency user_id key (transfer_view row) opened =
              ground arith in
            (row, refl, refl, rw same rows, rw same network, rw same count)
      ]

Claim-cases :
    (c : Claim) → (c ≡ proceed) ⊎ (((v : TransferView) × (c ≡ replay v)) ⊎ (c ≡ in_progress))
Claim-cases proceed = inl refl
Claim-cases (replay v) = inr (inl (v, refl))
Claim-cases in_progress = inr (inr refl)

pub request-writes :
    (cfg : Config) (db : CustodyDb) (active paused : Bool) (user_id amount : ℕ)
    (wallet key : Option ℕ) (day now : ℕ) {view : TransferView} {db' : CustodyDb}
    → request cfg db active paused user_id amount wallet key day now ≡ ok (view, db')
    → (db' ≡ db) ⊎ ((to : ℕ) × (open_transfer db user_id amount to key now ≡ ok (view, db')))
unfolding request
request-writes cfg db active paused user_id amount wallet key day now h =
    elim (Claim-cases (claim_idempotency db user_id key)) [
      | inl e ↦ elim (Result-cases (permit cfg db user_id amount wallet day)) [
        | inl (to, f) ↦ inr (to, ground arith)
        | inr (x, f) ↦ absurd (ground arith)
      ]
      | inr (inl (v, e)) ↦ inl (ground arith)
      | inr (inr e) ↦ absurd (ground arith)
    ]
