-- ===== src/Custody/Signatures/Payouts.antt =====
-- What is paid over a run of apps/api/src/custody/withdrawal.service.ts, however its workers interleave.
use scadium.Prelude.{
  ℕ, ◌+◌, ◌≤◌, ◌<◌, ◌≡◌, ◌⊎◌, inl, inr, sym, subst, ◌∙◌, Bool, true, Option, some, List, [], ◌∷◌,
  All, ◌==◌, arith, Bool-cases, ok,
}
use scadium.Custody.{
  Transfer, pending, sent, confirmed, Broadcast, CustodyDb, Config, Sending, Reading, find_transfer,
  step, TransferView,
}
use scadium.Custody.Requests.{request}
use scadium.Custody.Signatures.{Fate, IsHonest, IsSigned, IsOut, MayLand, IsSafeRow, IsSafe}
use scadium.Custody.Signatures.Runs.{step-IsSafe}
use scadium.Custody.Signatures.Rows.{find_transfer-id}
use scadium.Custody.Signatures.Opened.{open_transfer-writes, request-writes}

-- A broadcast of an earlier transfer is none of a new one.
before_new :
    (fate : Fate) (t : Transfer) (n : ℕ) (network : List Broadcast)
    → t.id ≡ n
    → All (λ (b : Broadcast). b.transfer_id < n) network
    → All (MayLand fate t) network
before_new fate t n [] same h = tt
before_new fate t n (b ∷ bs) same h =
    ((λ e. absurd (omega (arith, h.0, e, same))), before_new fate t n bs same h.1)

later :
    (n m : ℕ) (network : List Broadcast)
    → n ≤ m
    → All (λ (b : Broadcast). b.transfer_id < n) network
    → All (λ (b : Broadcast). b.transfer_id < m) network
later n m [] le h = tt
later n m (b ∷ bs) le h = (omega (arith, h.0), later n m bs le h.1)

cons_cases :
    (row : Transfer) (ts : List Transfer) (id : ℕ) (t : Transfer)
    → find_transfer id (row ∷ ts) ≡ some t
    → ((row.id ≡ id) × (t ≡ row)) ⊎ (find_transfer id ts ≡ some t)
unfolding find_transfer
cons_cases row ts id t h = elim (Bool-cases (row.id == id)) [
  | inl e ↦ inl (ground arith, ground arith)
  | inr e ↦ inr (ground arith)
]

open-IsSafe :
    (fate : Fate) (db db' : CustodyDb) (row : Transfer)
    → IsSafe fate db
    → row.id ≡ db.next_id
    → row.status ≡ pending
    → db'.transfers ≡ row ∷ db.transfers
    → db'.network ≡ db.network
    → db'.next_id ≡ db.next_id + 1
    → IsSafe fate db'
open-IsSafe fate db db' row safe new waits rows network count = record {
  rows = λ id t found.
      subst (λ n. IsSafeRow fate n t) (sym network)
        (elim (cons_cases row db.transfers id t (rw rows at found)) [
          | inl (here, e) ↦ subst (IsSafeRow fate db.network) (sym e) (record {
            single = before_new fate row db.next_id db.network new safe.sent_of;
            stored = λ s k g. cc;
            settled = λ s k g. cc;
          })
          | inr before ↦ safe.rows id t before
        ]);
  numbered = λ id t found. elim (cons_cases row db.transfers id t (rw rows at found)) [
    | inl (here, e) ↦ omega (arith, count, new, here)
    | inr before ↦ omega (arith, count, safe.numbered id t before)
  ];
  sent_of =
      subst (All (λ (b : Broadcast). b.transfer_id < db'.next_id)) (sym network)
        (later db.next_id db'.next_id db.network (omega (arith, count)) safe.sent_of);
}

-- A row as it was read from one of the earlier databases.
abbrev pub IsRead : Transfer → List CustodyDb → Type 0
IsRead row [] = ⊥
IsRead row (db ∷ dbs) = (find_transfer row.id db.transfers ≡ some row) ⊎ IsRead row dbs

-- The databases of a run, newest first. Requests and steps come in any order, a step acts on a row that was read
-- at any earlier time, and its reads of the chain are honest.
pub data Run (fate : Fate) (cfg : Config) : List CustodyDb → Type 0 where
  started : (db : CustodyDb) → db.transfers ≡ [] → db.network ≡ [] → Run fate cfg (db ∷ [])
  requested :
      {db db' : CustodyDb} {past : List CustodyDb} (active paused : Bool) (user_id amount : ℕ)
      (wallet key : Option ℕ) (day now : ℕ) {view : TransferView}
      → Run fate cfg (db ∷ past)
      → request cfg db active paused user_id amount wallet key day now ≡ ok (view, db')
      → Run fate cfg (db' ∷ db ∷ past)
  stepped :
      {db db' : CustodyDb} {past : List CustodyDb} (row : Transfer) (env : Sending)
      (reading : Reading)
      → Run fate cfg (db ∷ past)
      → IsRead row (db ∷ past)
      → IsSigned fate env
      → ((s : ℕ) → row.tx_signature ≡ some s → IsHonest fate cfg s reading)
      → step cfg row env reading db ≡ ok db'
      → Run fate cfg (db' ∷ db ∷ past)

read_height :
    (fate : Fate) (row : Transfer) (dbs : List CustodyDb)
    → All (IsSafe fate) dbs
    → IsRead row dbs
    → (s : ℕ) → row.status ≡ sent
    → row.tx_signature ≡ some s
    → row.last_valid_block_height ≡ some (fate.expiry s)
read_height fate row [] safe read s e k = absurd read
read_height fate row (db ∷ dbs) safe read s e k = elim read [
  | inl here ↦ (safe.0.rows row.id row here).stored s e k
  | inr before ↦ read_height fate row dbs safe.1 before s e k
]

pub Run-IsSafe :
    {fate : Fate} {cfg : Config} {dbs : List CustodyDb} → Run fate cfg dbs → All (IsSafe fate) dbs
unfolding find_transfer
Run-IsSafe {fate} (started db rows network) = (
  record {
    rows = λ id t found. absurd (ground (arith, rows));
    numbered = λ id t found. absurd (ground (arith, rows));
    sent_of = subst (All (λ (b : Broadcast). b.transfer_id < db.next_id)) (sym network) tt;
  },
  tt,
)
Run-IsSafe {fate} {cfg}
      (requested {db} {db'} active paused user_id amount wallet key day now run e) =
    let safe = Run-IsSafe run in
    (
      elim (request-writes cfg db active paused user_id amount wallet key day now e) [
        | inl same ↦ subst (IsSafe fate) (sym same) safe.0
        | inr (to, opened) ↦
            let (row, new, waits, rows, network, count) =
              open_transfer-writes db user_id amount to key now opened in
            open-IsSafe fate db db' row safe.0 new waits rows network count
      ],
      safe,
    )
Run-IsSafe {fate} {cfg} (stepped {db} {db'} {past} row env reading run read signed honest e) =
    let safe = Run-IsSafe run in
    (
      step-IsSafe fate cfg db row env reading safe.0 signed
          (read_height fate row (db ∷ past) safe read) honest e,
      safe,
    )

landed_stored :
    (fate : Fate) (id : ℕ) (t : Transfer) (network : List Broadcast)
    → t.id ≡ id
    → All (MayLand fate t) network
    → All
        (λ (b : Broadcast).
          b.transfer_id ≡ id
          → fate.lands b.signature ≡ true
          → IsOut t.status × (t.tx_signature ≡ some b.signature))
        network
landed_stored fate id t [] same h = tt
landed_stored fate id t (b ∷ bs) same h = (
  (λ e lands. elim (h.0 (e ∙ sym same)) [ inl dead ↦ absurd (ground arith) | inr out ↦ out ]),
  landed_stored fate id t bs same h.1,
)

-- However requests and steps interleave, with rows read at any earlier time, when the reads of the chain are
-- honest: every signature of a withdrawal that lands is the one its row stores, while the row is sent or
-- confirmed; so no withdrawal is paid twice, and one that failed, and was refunded, was not paid. A
-- withdrawal that is confirmed was paid.
pub Run-paid_once :
    {fate : Fate} {cfg : Config} {db : CustodyDb} {past : List CustodyDb} (id : ℕ) (t : Transfer)
    → Run fate cfg (db ∷ past)
    → find_transfer id db.transfers ≡ some t
    → All
        (λ (b : Broadcast).
          b.transfer_id ≡ id
          → fate.lands b.signature ≡ true
          → IsOut t.status × (t.tx_signature ≡ some b.signature))
        db.network
      × ((s : ℕ) → t.status ≡ confirmed → t.tx_signature ≡ some s → fate.lands s ≡ true)
Run-paid_once {fate} {cfg} {db} id t run found =
    let safe = (Run-IsSafe run).0.rows id t found in
    (
      landed_stored fate id t db.network (find_transfer-id id db.transfers t found) safe.single,
      safe.settled,
    )
