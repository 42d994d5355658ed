-- ===== src/Custody/Signatures/Runs/Writes.antt =====
-- The writes of apps/api/src/custody/withdrawal.service.ts against the invariant of the signatures.
use scadium.Prelude.{
  ℕ, ◌≡◌, ◌⊎◌, inl, inr, refl, sym, subst, ◌∙◌, true, false, Option, none, some, List, [], ◌∷◌, All,
  leb, arith, Option-cases, Bool-cases, Result-cases, ok,
}
use scadium.Prelude.Int.{pos}
use scadium.Ledger.{apply_balance_delta}
use scadium.Custody.{
  Transfer, pending, sent, confirmed, failed, Broadcast, CustodyDb, Config, find_transfer,
  update_transfer, unchanged, still_sent, pay_back, refund, bury, confirm, refund_meta,
}
use scadium.Custody.Signatures.{Fate, IsOut, MayLand, IsSafeRow, IsSafe}
use scadium.Custody.Signatures.Rows.{
  update-IsSafe, AllDead, dead_row, revive, same_status_eq, same_signature_eq,
}

pub pay_back-writes :
    (row : Transfer) (db : CustodyDb) {db' : CustodyDb}
    → pay_back row db ≡ ok db'
    → (db'.transfers ≡ update_transfer row.id (λ t. record t { status = failed }) db.transfers)
      × (db'.network ≡ db.network)
      × (db'.next_id ≡ db.next_id)
unfolding pay_back
pay_back-writes row db h =
    elim (Result-cases (
      apply_balance_delta db.accounts row.user_id (pos row.amount_lamports) (refund_meta row.id))) [
        | inl (paid, e) ↦ (ground arith, ground arith, ground arith)
        | inr (x, e) ↦ absurd (ground arith)
      ]

pub still_sent-holds :
    (signature : ℕ) (t : Transfer)
    → still_sent signature t ≡ true
    → (t.status ≡ sent) × (t.tx_signature ≡ some signature)
still_sent-holds signature t h = (
  same_status_eq t.status sent (ground arith),
  same_signature_eq t.tx_signature (some signature) (ground arith),
)

pub unchanged-holds :
    (row t : Transfer)
    → unchanged row t ≡ true
    → (t.status ≡ row.status) × (t.tx_signature ≡ row.tx_signature)
unchanged-holds row t h = (
  same_status_eq t.status row.status (ground arith),
  same_signature_eq t.tx_signature row.tx_signature (ground arith),
)

pub confirm-writes :
    (row : Transfer) (signature : ℕ) (slot : Option ℕ) (db : CustodyDb)
    → (confirm row signature slot db ≡ db)
      ⊎ ((t : Transfer) × (find_transfer row.id db.transfers ≡ some t)
          × (still_sent signature t ≡ true)
          × (confirm row signature slot db ≡ record db {
            transfers =
                update_transfer row.id
                  (λ x. record x { status = confirmed; slot = slot })
                  db.transfers;
          }))
unfolding confirm
confirm-writes row signature slot db = elim (Option-cases (find_transfer row.id db.transfers)) [
  | inl e ↦ inl (ground arith)
  | inr (t, e) ↦ elim (Bool-cases (still_sent signature t)) [
    | inl s ↦ inr (t, e, s, ground arith)
    | inr s ↦ inl (ground arith)
  ]
]

pub bury-writes :
    (cfg : Config) (row : Transfer) (signature : ℕ) (db : CustodyDb) {db' : CustodyDb}
    → bury cfg row signature db ≡ ok db'
    → (refund row db ≡ ok db')
      ⊎ ((db' ≡ db)
          ⊎ ((t : Transfer) × (find_transfer row.id db.transfers ≡ some t)
              × (still_sent signature t ≡ true)
              × (db' ≡ record db {
                transfers =
                    update_transfer row.id
                      (λ x. record x {
                        status = pending;
                        tx_signature = none;
                        last_valid_block_height = none;
                      })
                      db.transfers;
              })))
unfolding bury
bury-writes cfg row signature db h =
    elim (Bool-cases (leb cfg.withdraw_max_attempts row.attempts)) [
      | inl over ↦ inl (ground arith)
      | inr under ↦ elim (Option-cases (find_transfer row.id db.transfers)) [
        | inl e ↦ inr (inl (ground arith))
        | inr (t, e) ↦ elim (Bool-cases (still_sent signature t)) [
          | inl s ↦ inr (inr (t, e, s, ground arith))
          | inr s ↦ inr (inl (ground arith))
        ]
      ]
    ]

-- A row that stays out under its signature.
keep_out :
    (fate : Fate) (network : List Broadcast) (t u : Transfer) {signature : ℕ}
    → t.id ≡ u.id
    → t.tx_signature ≡ some signature
    → u.tx_signature ≡ some signature
    → All (MayLand fate t) network
    → IsOut u.status
    → All (MayLand fate u) network
keep_out fate [] t u same s s' h out = tt
keep_out fate (b ∷ bs) t u same s s' h out = (
  (λ e. elim (h.0 (e ∙ sym same)) [
    | inl dead ↦ inl dead
    | inr (o, stored) ↦ inr (out, s' ∙ sym s ∙ stored)
  ]),
  keep_out fate bs t u same s s' h.1 out,
)

module _ (fate : Fate) (db : CustodyDb) where
  pay_back-IsSafe :
      (row t : Transfer) {db' : CustodyDb}
      → IsSafe fate db
      → find_transfer row.id db.transfers ≡ some t
      → AllDead fate t db.network
      → pay_back row db ≡ ok db'
      → IsSafe fate db'
  pay_back-IsSafe row t {db'} safe found dead h =
      let (rows, network, count) = pay_back-writes row db h in
      update-IsSafe fate db db' row.id (λ x. record x { status = failed }) [] t safe found
        (λ x. refl) rows network count tt
        (record {
          single = revive fate db.network t (record t { status = failed }) refl dead;
          stored = λ s e k. cc;
          settled = λ s e k. cc;
        })

  pub refund-IsSafe :
      (row : Transfer) {db' : CustodyDb}
      → IsSafe fate db
      → ((t : Transfer)
          → find_transfer row.id db.transfers ≡ some t
          → unchanged row t ≡ true
          → AllDead fate t db.network)
      → refund row db ≡ ok db'
      → IsSafe fate db'
  unfolding refund
  refund-IsSafe row {db'} safe dead h = elim (Option-cases (find_transfer row.id db.transfers)) [
    | inl e ↦ let same : db ≡ db' = ground arith in subst (IsSafe fate) same safe
    | inr (t, e) ↦ elim (Bool-cases (unchanged row t)) [
      | inl u ↦ pay_back-IsSafe row t safe e (dead t e u) (ground arith)
      | inr u ↦ let same : db ≡ db' = ground arith in subst (IsSafe fate) same safe
    ]
  ]

  -- A row that is still sent under a dead signature has only dead broadcasts.
  dead_signature :
      (signature : ℕ) (t : Transfer)
      → IsSafeRow fate db.network t
      → t.tx_signature ≡ some signature
      → fate.lands signature ≡ false
      → AllDead fate t db.network
  dead_signature signature t safe stored dead =
      dead_row fate db.network t (λ out s e. let same : s ≡ signature = cc in rw same dead)
        safe.single

  pub confirm-IsSafe :
      (row : Transfer) (signature : ℕ) (slot : Option ℕ)
      → IsSafe fate db
      → fate.lands signature ≡ true
      → IsSafe fate (confirm row signature slot db)
  confirm-IsSafe row signature slot safe landed = elim (confirm-writes row signature slot db) [
    | inl same ↦ subst (IsSafe fate) (sym same) safe
    | inr (t, found, still, written) ↦
        let (status, stored) = still_sent-holds signature t still in
        let old = safe.rows row.id t found in
        subst (IsSafe fate) (sym written) (
          update-IsSafe fate db _ row.id (λ x. record x { status = confirmed; slot = slot }) [] t
            safe found (λ x. refl) refl refl refl tt
            (record {
              single =
                  keep_out fate db.network t (record t { status = confirmed; slot = slot }) refl
                    stored stored old.single tt;
              stored = λ s e k. cc;
              settled = λ s e k. let same : s ≡ signature = cc in rw same landed;
            }))
  ]

  pub bury-IsSafe :
      (cfg : Config) (row : Transfer) (signature : ℕ) {db' : CustodyDb}
      → IsSafe fate db
      → row.status ≡ sent
      → row.tx_signature ≡ some signature
      → fate.lands signature ≡ false
      → bury cfg row signature db ≡ ok db'
      → IsSafe fate db'
  bury-IsSafe cfg row signature {db'} safe was_sent was_stored dead h =
      elim (bury-writes cfg row signature db h) [
        | inl refunded ↦
            refund-IsSafe row safe
              (λ t found same.
                let (status, stored) = unchanged-holds row t same in
                dead_signature signature t (safe.rows row.id t found) (stored ∙ was_stored) dead)
              refunded
        | inr (inl same) ↦ subst (IsSafe fate) (sym same) safe
        | inr (inr (t, found, still, written)) ↦
            let (status, stored) = still_sent-holds signature t still in
            let reopened : Transfer = record t {
              status = pending;
              tx_signature = none;
              last_valid_block_height = none;
            } in
            subst (IsSafe fate) (sym written) (
              update-IsSafe fate db _ row.id
                (λ x. record x {
                  status = pending;
                  tx_signature = none;
                  last_valid_block_height = none;
                })
                [] t safe found (λ x. refl) refl refl refl tt
                (record {
                  single =
                      revive fate db.network t reopened refl
                        (dead_signature signature t (safe.rows row.id t found) stored dead);
                  stored = λ s e k. cc;
                  settled = λ s e k. cc;
                }))
      ]
