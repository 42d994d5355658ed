-- ===== src/Custody/Money.antt =====
-- What a step of apps/api/src/custody/withdrawal.service.ts does to the rows and to the balances.
pub mod Owed
pub mod Reads
pub mod Conserved
use scadium.Prelude.{
  ℕ, ◌+◌, ◌≡◌, ◌⊎◌, inl, inr, refl, sym, subst, ◌∙◌, ap, Bool, true, false, not, ◌&&◌, Option, none,
  some, List, [], ◌∷◌, ◌==◌, leb, if◌then◌else◌, arith, Option-cases, Bool-cases, Result, ok, err,
}
use scadium.Custody.{
  Transfer, Status, Kind, CustodyDb, Config, Sending, Reading, find_transfer, update_transfer,
  guarded, unchanged, pay_back, refund, send, bury, confirm, check, step, is_withdrawal,
}
use scadium.Custody.Status.{pending, sent, confirmed, failed, held, credited}
use scadium.Custody.Signatures.Runs.{send-writes, status_cases, claim}
use scadium.Custody.Signatures.Runs.Writes.{
  confirm-writes, bury-writes, unchanged-holds, still_sent-holds,
}

-- A withdrawal whose amount is out of the balance for good or for now.
abbrev pub is_owing : Status → Bool
is_owing pending = true
is_owing sent = true
is_owing confirmed = true
is_owing s = false

-- A change that leaves alone what a withdrawal is.
abbrev pub KeepsRow : (Transfer → Transfer) → Type 0
KeepsRow change =
    (x : Transfer)
    → ((change x).id ≡ x.id)
      × ((change x).kind ≡ x.kind)
      × ((change x).user_id ≡ x.user_id)
      × ((change x).amount_lamports ≡ x.amount_lamports)

-- What a step may have done: nothing to rows and balances, a change of one row that stays owing, or a refund.
pub data Effect (row : Transfer) (db db' : CustodyDb) : Type 0 where
  quiet : db'.transfers ≡ db.transfers → db'.accounts ≡ db.accounts → Effect row db db'
  rewrote :
      (change : Transfer → Transfer) (t : Transfer)
      → find_transfer row.id db.transfers ≡ some t
      → KeepsRow change
      → is_owing t.status ≡ true
      → is_owing (change t).status ≡ true
      → db'.transfers ≡ update_transfer row.id change db.transfers
      → db'.accounts ≡ db.accounts
      → Effect row db db'
  refunded :
      (t : Transfer)
      → find_transfer row.id db.transfers ≡ some t
      → is_owing t.status ≡ true
      → pay_back row db ≡ ok db'
      → Effect row db db'

refund-Effect :
    (row : Transfer) (db : CustodyDb) {db' : CustodyDb}
    → is_owing row.status ≡ true
    → refund row db ≡ ok db'
    → Effect row db db'
unfolding refund
refund-Effect row db {db'} owing h = elim (Option-cases (find_transfer row.id db.transfers)) [
  | inl e ↦
      let same : db' ≡ db = ground arith in quiet (ground (arith, same)) (ground (arith, same))
  | inr (t, e) ↦ elim (Bool-cases (unchanged row t)) [
    | inl u ↦ refunded t e (ap is_owing (unchanged-holds row t u).0 ∙ owing) (ground arith)
    | inr u ↦
        let same : db' ≡ db = ground arith in quiet (ground (arith, same)) (ground (arith, same))
  ]
]

quiet_same : (row : Transfer) (db db' : CustodyDb) → db' ≡ db → Effect row db db'
quiet_same row db db' same =
    quiet (ap (λ (d : CustodyDb). d.transfers) same) (ap (λ (d : CustodyDb). d.accounts) same)

send-Effect :
    (cfg : Config) (row : Transfer) (env : Sending) (db : CustodyDb) {db' : CustodyDb}
    → row.status ≡ pending
    → send cfg row env db ≡ ok db'
    → Effect row db db'
send-Effect cfg row env db {db'} waits h = elim (send-writes cfg row env db h) [
  | inl back ↦ refund-Effect row db (ap is_owing waits) back
  | inr (inl same) ↦ quiet_same row db db' same
  | inr (inr (t, found, open_row, written)) ↦
      rewrote (claim row env) t found (λ x. (refl, refl, refl, refl)) (ap is_owing open_row) refl
        (ap (λ (d : CustodyDb). d.transfers) written) (ap (λ (d : CustodyDb). d.accounts) written)
]

bury-Effect :
    (cfg : Config) (row : Transfer) (signature : ℕ) (db : CustodyDb) {db' : CustodyDb}
    → row.status ≡ sent
    → bury cfg row signature db ≡ ok db'
    → Effect row db db'
bury-Effect cfg row signature db {db'} out h = elim (bury-writes cfg row signature db h) [
  | inl back ↦ refund-Effect row db (ap is_owing out) back
  | inr (inl same) ↦ quiet_same row db db' same
  | inr (inr (t, found, still, written)) ↦
      rewrote
        (λ x. record x { status = pending; tx_signature = none; last_valid_block_height = none }) t
        found (λ x. (refl, refl, refl, refl)) (ap is_owing (still_sent-holds signature t still).0)
        refl (ap (λ (d : CustodyDb). d.transfers) written)
        (ap (λ (d : CustodyDb). d.accounts) written)
]

confirm-Effect :
    (row : Transfer) (signature : ℕ) (slot : Option ℕ) (db : CustodyDb)
    → Effect row db (confirm row signature slot db)
confirm-Effect row signature slot db = elim (confirm-writes row signature slot db) [
  | inl same ↦ quiet_same row db (confirm row signature slot db) same
  | inr (t, found, still, written) ↦
      rewrote (λ x. record x { status = confirmed; slot = slot }) t found
        (λ x. (refl, refl, refl, refl)) (ap is_owing (still_sent-holds signature t still).0) refl
        (ap (λ (d : CustodyDb). d.transfers) written) (ap (λ (d : CustodyDb). d.accounts) written)
]

check-Effect :
    (cfg : Config) (row : Transfer) (reading : Reading) (db : CustodyDb) {db' : CustodyDb}
    → row.status ≡ sent
    → check cfg row reading db ≡ ok db'
    → Effect row db db'
unfolding check
check-Effect cfg row reading db {db'} out h = elim (Option-cases row.tx_signature) [
  | inl e ↦ absurd (ground arith)
  | inr (s, e) ↦ elim (Bool-cases reading.state.found) [
    | inl found ↦ elim (Bool-cases reading.state.settled) [
      | inr unsettled ↦ quiet_same row db db' (ground arith)
      | inl settled ↦ elim (Bool-cases reading.state.failed) [
        | inr landed ↦
            let same : confirm row s reading.state.slot db ≡ db' = ground arith in
            subst (Effect row db) same (confirm-Effect row s reading.state.slot db)
        | inl dead ↦ bury-Effect cfg row s db out (ground arith)
      ]
    ]
    | inr unseen ↦ elim (Option-cases row.last_valid_block_height) [
      | inl n ↦ absurd (ground arith)
      | inr (height, n) ↦
          elim (Bool-cases (leb reading.finalized (height + cfg.expiry_margin_blocks))) [
            | inl early ↦ quiet_same row db db' (ground arith)
            | inr late ↦ bury-Effect cfg row s db out (ground arith)
          ]
    ]
  ]
]

pub step-Effect :
    (cfg : Config) (row : Transfer) (env : Sending) (reading : Reading) (db : CustodyDb)
    {db' : CustodyDb}
    → step cfg row env reading db ≡ ok db'
    → Effect row db db'
unfolding step
step-Effect cfg row env reading db {db'} h = elim (Bool-cases (is_withdrawal row.kind)) [
  | inr other ↦ quiet_same row db db' (ground arith)
  | inl own ↦ elim (status_cases row.status) [
    | inl waits ↦ send-Effect cfg row env db waits (ground arith)
    | inr (inl out) ↦ check-Effect cfg row reading db out (ground arith)
    | inr (inr stays) ↦ quiet_same row db db' (ground arith)
  ]
]
