-- ===== src/Custody/Money/Reads.antt =====
-- The columns of a row that apps/api/src/custody/withdrawal.service.ts writes once: a row that was read
-- earlier against the row as it is now.
use scadium.Prelude.{
  ℕ, ◌+◌, ◌<◌, ◌≡◌, ◌≢◌, inl, inr, refl, sym, subst, ◌∙◌, Option, none, some, List, [], ◌∷◌, ◌==◌,
  arith, Bool-cases, ok, Result-cases,
}
use scadium.Prelude.Int.{ℤ, pos, ◌-ℤ◌}
use scadium.Ledger.{apply_balance_delta}
use scadium.Custody.{
  Transfer, Kind, pending, failed, CustodyDb, Config, TransferView, find_transfer, update_transfer,
  withdraw_meta,
}
use scadium.Custody.Requests.{open_transfer, store_idempotency, transfer_view}
use scadium.Custody.Signatures.{Fate}
use scadium.Custody.Signatures.Opened.{request-writes, store_idempotency-keeps}
use scadium.Custody.Signatures.Runs.Writes.{pay_back-writes}
use scadium.Custody.Signatures.Payouts.{Run, started, requested, stepped, IsRead, Run-IsSafe}
use scadium.Custody.Money.{KeepsRow, Effect, quiet, rewrote, refunded, step-Effect}

abbrev pub Same : Transfer → Transfer → Type 0
Same a b = (a.kind ≡ b.kind) × (a.user_id ≡ b.user_id) × (a.amount_lamports ≡ b.amount_lamports)

-- The row that `request` creates.
abbrev pub new_row : CustodyDb → ℕ → ℕ → ℕ → ℕ → Transfer
new_row db user_id amount to now = record {
  id = db.next_id;
  kind = Kind.withdrawal;
  status = pending;
  user_id = user_id;
  wallet = to;
  amount_lamports = amount;
  tx_signature = none;
  slot = none;
  last_valid_block_height = none;
  attempts = 0;
  created_at = now;
}

pub open_transfer-pays :
    (db : CustodyDb) (user_id amount to : ℕ) (key : Option ℕ) (now : ℕ) {view : TransferView}
    {db' : CustodyDb}
    → open_transfer db user_id amount to key now ≡ ok (view, db')
    → (b : ℤ) × (apply_balance_delta db.accounts user_id
          (pos 0 -ℤ pos amount)
          (withdraw_meta db.next_id)
        ≡ ok (b, db'.accounts))
      × (db'.transfers ≡ new_row db user_id amount to now ∷ db.transfers)
unfolding open_transfer
open_transfer-pays db user_id amount to key now {view} {db'} h =
    elim (Result-cases
      (apply_balance_delta db.accounts user_id (pos 0 -ℤ pos amount) (withdraw_meta db.next_id))) [
        | inr (x, e) ↦ absurd (ground arith)
        | inl ((b, paid), e) ↦
            let row = new_row db user_id amount to now in
            let opened : CustodyDb = record db {
              accounts = paid;
              transfers = row ∷ db.transfers;
              next_id = db.next_id + 1;
            } in
            let (rows, network, count, accounts) =
              store_idempotency-keeps user_id key (transfer_view row) opened in
            let same : db' ≡ store_idempotency user_id key (transfer_view row) opened =
              ground arith in
            (b, rw (same, accounts) e, rw same rows)
      ]

update-Same :
    (id j : ℕ) (change : Transfer → Transfer) (ts : List Transfer) (t : Transfer)
    → KeepsRow change
    → find_transfer id ts ≡ some t
    → (u : Transfer) × (find_transfer id (update_transfer j change ts) ≡ some u) × Same u t
unfolding find_transfer update_transfer
update-Same id j change [] t keeps h = cc
update-Same id j change (x ∷ ts) t keeps h =
    let (same_id, kind, user, amount) = keeps x in
    elim (Bool-cases (x.id == id)) [
      | inl e ↦ elim (Bool-cases (x.id == j)) [
        | inl f ↦ (
          change x,
          ground (arith, same_id),
          let same : x ≡ t = ground arith in rw (← same) (kind, user, amount),
        )
        | inr f ↦ (t, ground arith, (refl, refl, refl))
      ]
      | inr e ↦ elim (Bool-cases (x.id == j)) [
        | inl f ↦ (t, ground (arith, same_id), (refl, refl, refl))
        | inr f ↦
            let (u, found, same) = update-Same id j change ts t keeps (ground arith) in
            (u, ground arith, same)
      ]
    ]

-- A row of the current database, against one that was read from it or from an earlier one.
abbrev pub Current : Transfer → CustodyDb → Type 0
Current row db = (t : Transfer) × (find_transfer row.id db.transfers ≡ some t) × Same t row

rewritten :
    (row : Transfer) (db db' : CustodyDb) (j : ℕ) (change : Transfer → Transfer)
    → KeepsRow change
    → db'.transfers ≡ update_transfer j change db.transfers
    → Current row db
    → Current row db'
rewritten row db db' j change keeps rows (t, found, (kind, user, amount)) =
    let (u, here, (k, v, a)) = update-Same row.id j change db.transfers t keeps found in
    (u, rw rows here, (k ∙ kind, v ∙ user, a ∙ amount))

Effect-Current :
    (row other : Transfer) (db db' : CustodyDb)
    → Effect row db db'
    → Current other db
    → Current other db'
Effect-Current row other db db' (quiet rows accounts) (t, found, same) = (t, rw rows found, same)
Effect-Current row other db db' (rewrote change t f keeps a b rows accounts) now =
    rewritten other db db' row.id change keeps rows now
Effect-Current row other db db' (refunded t f owing paid) now =
    rewritten other db db' row.id (λ x. record x { status = failed })
      (λ x. (refl, refl, refl, refl)) (pay_back-writes row db paid).0 now

behind_new :
    (new row : Transfer) (db db' : CustodyDb)
    → new.id ≢ row.id
    → db'.transfers ≡ new ∷ db.transfers
    → Current row db
    → Current row db'
unfolding find_transfer
behind_new new row db db' fresh rows (t, found, same) = (t, ground (arith, rows), same)

pub read-Current :
    {fate : Fate} {cfg : Config} {db : CustodyDb} {past : List CustodyDb} (row : Transfer)
    → Run fate cfg (db ∷ past)
    → IsRead row (db ∷ past)
    → Current row db
read-Current row run (inl here) = (row, here, (refl, refl, refl))
read-Current row (started db rows network) (inr earlier) = absurd earlier
read-Current {fate} {cfg} row
      (requested {db} {db'} active paused user_id amount wallet key day now run e) (inr earlier) =
    let current = read-Current row run earlier in
    let (t, found, same_row) = current in
    elim (request-writes cfg db active paused user_id amount wallet key day now e) [
      | inl same ↦ subst (Current row) (sym same) current
      | inr (to, opened) ↦
          let (b, paid, rows) = open_transfer-pays db user_id amount to key now opened in
          let old : row.id < db.next_id = (Run-IsSafe run).0.numbered row.id t found in
          behind_new (new_row db user_id amount to now) row db db'
            (λ s. absurd (omega (arith, s, old))) rows current
    ]
read-Current {fate} {cfg} row (stepped {db} {db'} other env reading run read signed honest e)
      (inr earlier) =
    Effect-Current other row db db' (step-Effect cfg other env reading db e)
      (read-Current row run earlier)
