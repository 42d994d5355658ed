-- ===== src/Custody/Money/Conserved.antt =====
-- The funds of a player over a run of apps/api/src/custody/withdrawal.service.ts.
use scadium.Prelude.{
  ℕ, ◌≡◌, ◌≢◌, inl, inr, refl, sym, subst, ap, true, some, List, ◌∷◌, All, arith, Bool-cases, ok,
  Result-cases,
}
use scadium.Prelude.Int.{ℤ, pos, ◌-ℤ◌, int_laws}
use scadium.Ledger.{apply_balance_delta}
use scadium.Custody.{
  Transfer, CustodyDb, Config, Sending, Reading, failed, pay_back, refund_meta, withdraw_meta, step,
  is_withdrawal, find_transfer,
}
use scadium.Custody.Signatures.Opened.{request-writes}
use scadium.Custody.Signatures.Runs.Writes.{pay_back-writes}
use scadium.Custody.Signatures.{Fate}
use scadium.Custody.Signatures.Payouts.{Run, started, requested, stepped}
use scadium.Custody.Money.{is_owing, Effect, quiet, rewrote, refunded, step-Effect}
use scadium.Custody.Money.Owed.{part, owed, worth, owed-update, worth-same, worth-moved}
use scadium.Custody.Money.Reads.{Same, Current, read-Current, new_row, open_transfer-pays}

-- A row that is written and stays owing.
part_kept :
    (j : ℕ) (t u : Transfer)
    → u.kind ≡ t.kind
    → u.user_id ≡ t.user_id
    → u.amount_lamports ≡ t.amount_lamports
    → is_owing t.status ≡ true
    → is_owing u.status ≡ true
    → part j u ≡ part j t
part_kept j t u kind user amount before after = rw (kind, user, amount, before, after) refl

pay_back-credits :
    (row : Transfer) (db : CustodyDb) {db' : CustodyDb}
    → pay_back row db ≡ ok db'
    → (b : ℤ) × (apply_balance_delta db.accounts row.user_id
          (pos row.amount_lamports)
          (refund_meta row.id)
        ≡ ok (b, db'.accounts))
unfolding pay_back
pay_back-credits row db {db'} h =
    elim (Result-cases (
      apply_balance_delta db.accounts row.user_id (pos row.amount_lamports) (refund_meta row.id))) [
        | inr (x, e) ↦ absurd (ground arith)
        | inl ((b, paid), e) ↦
            let same : paid ≡ db'.accounts = ground arith in
            (
              b,
              subst
                  (λ a.
                    apply_balance_delta db.accounts row.user_id (pos row.amount_lamports)
                      (refund_meta row.id)
                    ≡ ok (b, a))
                  same e,
            )
      ]

part_gone : (j : ℕ) (t : Transfer) → part j (record t { status = failed }) ≡ 0
part_gone j t = ground arith

part_own :
    (row t : Transfer)
    → Same t row
    → is_withdrawal row.kind ≡ true
    → is_owing t.status ≡ true
    → part row.user_id t ≡ row.amount_lamports
part_own row t (kind, user, amount) own owing = ground arith

part_other : (j : ℕ) (row t : Transfer) → Same t row → j ≢ row.user_id → part j t ≡ 0
part_other j row t (kind, user, amount) ne = ground arith

refund-conserves :
    (row t : Transfer) (db : CustodyDb) {db' : CustodyDb}
    → is_withdrawal row.kind ≡ true
    → find_transfer row.id db.transfers ≡ some t
    → Same t row
    → is_owing t.status ≡ true
    → pay_back row db ≡ ok db'
    → (j : ℕ) → worth db' j ≡ worth db j
refund-conserves row t db {db'} own found same owing h =
    let rows = (pay_back-writes row db h).0 in
    let (b, paid) = pay_back-credits row db h in
    let close : Transfer → Transfer = λ x. record x { status = failed } in
    worth-moved db db' row.user_id (pos row.amount_lamports) (refund_meta row.id) refl paid
      (λ a. rw rows (
        omega (
          int_laws,
          owed-update row.user_id row.id close db.transfers t found,
          part_gone row.user_id t,
          part_own row t same own owing,
        )))
      (λ j ne. rw rows (
        omega (
          arith,
          owed-update j row.id close db.transfers t found,
          part_gone j t,
          part_other j row t same ne,
        )))

Effect-conserves :
    (row : Transfer) (db db' : CustodyDb)
    → is_withdrawal row.kind ≡ true
    → Current row db
    → Effect row db db'
    → (j : ℕ) → worth db' j ≡ worth db j
Effect-conserves row db db' own now (quiet rows accounts) j =
    worth-same db db' j (ap (owed j) rows) accounts
Effect-conserves row db db' own now (rewrote change t found keeps before after rows accounts) j =
    let (i, kind, user, amount) = keeps t in
    worth-same db db' j
      (rw rows (
        omega (
          arith,
          owed-update j row.id change db.transfers t found,
          part_kept j t (change t) kind user amount before after,
        )))
      accounts
Effect-conserves row db db' own (u, here, same) (refunded t found owing paid) j =
    let one : u ≡ t = ground arith in
    let agree : Same t row = subst (λ (x : Transfer). Same x row) one same in
    refund-conserves row t db own found agree owing paid j

-- The step of a row of a withdrawal, or of no withdrawal.
step-conserves :
    (cfg : Config) (row : Transfer) (env : Sending) (reading : Reading) (db : CustodyDb)
    {db' : CustodyDb}
    → Current row db
    → step cfg row env reading db ≡ ok db'
    → (j : ℕ) → worth db' j ≡ worth db j
unfolding step
step-conserves cfg row env reading db {db'} now h j = elim (Bool-cases (is_withdrawal row.kind)) [
  | inl own ↦ Effect-conserves row db db' own now (step-Effect cfg row env reading db h) j
  | inr other ↦ let same : db' ≡ db = ground arith in ap (λ (d : CustodyDb). worth d j) same
]

open-conserves :
    (db db' : CustodyDb) (user_id amount to now : ℕ) (b : ℤ)
    → apply_balance_delta db.accounts user_id (pos 0 -ℤ pos amount) (withdraw_meta db.next_id)
      ≡ ok (b, db'.accounts)
    → db'.transfers ≡ new_row db user_id amount to now ∷ db.transfers
    → (j : ℕ) → worth db' j ≡ worth db j
unfolding owed
open-conserves db db' user_id amount to now b paid rows =
    let new = new_row db user_id amount to now in
    worth-moved db db' user_id (pos 0 -ℤ pos amount) (withdraw_meta db.next_id) refl paid
      (λ a. rw rows (omega (int_laws, part_own new new (refl, refl, refl) refl refl)))
      (λ j ne. rw rows (omega (arith, part_other j new new (refl, refl, refl) ne)))

-- However requests and steps interleave, with rows read at any earlier time: the play balance of a player
-- together with the amounts of the withdrawals that are pending, sent or confirmed is the same in all
-- the databases of a run.
pub Run-conserved :
    {fate : Fate} {cfg : Config} {db : CustodyDb} {past : List CustodyDb} (j : ℕ)
    → Run fate cfg (db ∷ past)
    → All (λ (d : CustodyDb). worth d j ≡ worth db j) past
Run-conserved j (started db rows network) = tt
Run-conserved {cfg} j
      (requested {db} {db'} {past} active paused user_id amount wallet key day now run e) =
    let kept : worth db' j ≡ worth db j =
      elim (request-writes cfg db active paused user_id amount wallet key day now e) [
        | inl same ↦ ap (λ (d : CustodyDb). worth d j) same
        | inr (to, opened) ↦
            let (b, paid, rows) = open_transfer-pays db user_id amount to key now opened in
            open-conserves db db' user_id amount to now b paid rows j
      ] in
    (
      sym kept,
      subst (λ w. All (λ (d : CustodyDb). worth d j ≡ w) past) (sym kept) (Run-conserved j run),
    )
Run-conserved {cfg} j (stepped {db} {db'} {past} row env reading run read signed honest e) =
    let kept : worth db' j ≡ worth db j =
      step-conserves cfg row env reading db (read-Current row run read) e j in
    (
      sym kept,
      subst (λ w. All (λ (d : CustodyDb). worth d j ≡ w) past) (sym kept) (Run-conserved j run),
    )
