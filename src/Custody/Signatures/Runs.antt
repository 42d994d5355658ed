-- ===== src/Custody/Signatures/Runs.antt =====
-- The steps of apps/api/src/custody/withdrawal.service.ts against the invariant of the signatures.
pub mod Writes
use scadium.Prelude.{
  ℕ, suc, ◌+◌, ◌≤◌, ◌<◌, ◌≡◌, ◌≢◌, ◌⊎◌, inl, inr, refl, sym, subst, ◌∙◌, ap, Bool, true, false, not,
  ◌&&◌, Option, none, some, List, [], ◌∷◌, ◌++◌, All, leb, ltb, ◌==◌, if◌then◌else◌, arith,
  Option-cases, Bool-cases, Result-cases, Result, ok, err, ℕ_discrete, ◌>>=◌,
}
use scadium.Custody.{
  Transfer, Status, pending, sent, confirmed, failed, held, credited, Broadcast, CustodyDb, Config,
  Sending, Reading, find_transfer, update_transfer, guarded, same_status, same_signature, refund,
  send, bury, confirm, check, step, TransferView, is_withdrawal,
}
use scadium.Custody.Requests.{request, open_transfer, transfer_view}
use scadium.Custody.Signatures.{Fate, IsHonest, IsSigned, IsOut, MayLand, IsSafeRow, IsSafe}
use scadium.Custody.Signatures.Rows.{
  update-IsSafe, AllDead, dead_row, revive, same_status_eq, find_transfer-id,
}
use scadium.Custody.Signatures.Runs.Writes.{
  refund-IsSafe, confirm-IsSafe, bury-IsSafe, unchanged-holds,
}

abbrev pub claimable : Transfer → Transfer → Bool
claimable row t = same_status t.status pending && t.attempts == row.attempts

abbrev pub claim : Transfer → Sending → Transfer → Transfer
claim row env t = record t {
  status = sent;
  tx_signature = some env.signature;
  last_valid_block_height = some env.last_valid_block_height;
  attempts = row.attempts + 1;
}

pub send-writes :
    (cfg : Config) (row : Transfer) (env : Sending) (db : CustodyDb) {db' : CustodyDb}
    → send cfg row env db ≡ ok db'
    → (refund row db ≡ ok db')
      ⊎ ((db' ≡ db)
          ⊎ ((t : Transfer) × (find_transfer row.id db.transfers ≡ some t)
              × (t.status ≡ pending)
              × (db' ≡ record db {
                transfers = update_transfer row.id (claim row env) db.transfers;
                network = record { transfer_id = row.id; signature = env.signature } ∷ db.network;
              })))
unfolding send
send-writes cfg row env db h = elim (Bool-cases (leb cfg.withdraw_max_attempts row.attempts)) [
  | inl over ↦ inl (ground arith)
  | inr under ↦ elim (Option-cases (find_transfer row.id db.transfers)) [
    | inl e ↦ inr (inl (ground arith))
    | inr (t, e) ↦ elim (Bool-cases (claimable row t)) [
      | inr s ↦ inr (inl (ground arith))
      | inl s ↦ elim (Bool-cases env.paused) [
        | inl p ↦ inr (inl (ground arith))
        | inr p ↦
            elim (Bool-cases
              (ltb env.hot_lamports (row.amount_lamports + cfg.fee_reserve_lamports))) [
                | inl low ↦ inr (inl (ground arith))
                | inr enough ↦
                    inr (inr (t, e, same_status_eq t.status pending (ground arith), ground arith))
              ]
      ]
    ]
  ]
]

pub status_cases :
    (s : Status)
    → (s ≡ pending)
      ⊎ ((s ≡ sent) ⊎ ((s ≡ held) ⊎ ((s ≡ credited) ⊎ ((s ≡ confirmed) ⊎ (s ≡ failed)))))
status_cases held = inr (inr (inl refl))
status_cases credited = inr (inr (inr (inl refl)))
status_cases pending = inl refl
status_cases sent = inr (inl refl)
status_cases confirmed = inr (inr (inr (inr (inl refl))))
status_cases failed = inr (inr (inr (inr (inr refl))))

module _ (fate : Fate) (cfg : Config) (db : CustodyDb) where
  -- A pending row has only dead broadcasts.
  pending_dead :
      (t : Transfer) → IsSafeRow fate db.network t → t.status ≡ pending → AllDead fate t db.network
  pending_dead t safe waits =
      dead_row fate db.network t
        (λ out s e. let none_out : IsOut pending = subst IsOut waits out in absurd none_out)
        safe.single

  send-IsSafe :
      (row : Transfer) (env : Sending) {db' : CustodyDb}
      → IsSafe fate db
      → row.status ≡ pending
      → IsSigned fate env
      → send cfg row env db ≡ ok db'
      → IsSafe fate db'
  send-IsSafe row env {db'} safe waits signed h = elim (send-writes cfg row env db h) [
    | inl refunded ↦
        refund-IsSafe fate db row safe
          (λ t found same.
            pending_dead t (safe.rows row.id t found) ((unchanged-holds row t same).0 ∙ waits))
          refunded
    | inr (inl same) ↦ subst (IsSafe fate) (sym same) safe
    | inr (inr (t, found, open_row, written)) ↦
        let old = safe.rows row.id t found in
        subst (IsSafe fate) (sym written) (
          update-IsSafe fate db _ row.id (claim row env)
            (record { transfer_id = row.id; signature = env.signature } ∷ []) t safe found
            (λ x. refl) refl refl refl (refl, tt)
            (record {
              single = (
                λ e. inr (tt, refl),
                revive fate db.network t (claim row env t) refl (pending_dead t old open_row),
              );
              stored = λ s e k.
                  let same : env.signature ≡ s = cc in
                  ap some signed ∙ ap (λ x. some (fate.expiry x)) same;
              settled = λ s e k. cc;
            }))
  ]

  check-IsSafe :
      (row : Transfer) (reading : Reading) {db' : CustodyDb}
      → IsSafe fate db
      → row.status ≡ sent
      → ((s : ℕ) → row.tx_signature ≡ some s → row.last_valid_block_height ≡ some (fate.expiry s))
      → ((s : ℕ) → row.tx_signature ≡ some s → IsHonest fate cfg s reading)
      → check cfg row reading db ≡ ok db'
      → IsSafe fate db'
  unfolding check
  check-IsSafe row reading {db'} safe was_sent height honest h =
      elim (Option-cases row.tx_signature) [
        | inl e ↦ absurd (ground arith)
        | inr (s, e) ↦
            let truth = honest s e in
            let expiry = height s e in
            elim (Bool-cases reading.state.found) [
              | inl found ↦ elim (Bool-cases reading.state.settled) [
                | inr unsettled ↦
                    let same : db ≡ db' = ground arith in subst (IsSafe fate) same safe
                | inl settled ↦ elim (Bool-cases reading.state.failed) [
                  | inr landed ↦
                      let same : confirm row s reading.state.slot db ≡ db' = ground arith in
                      subst (IsSafe fate) same (
                        confirm-IsSafe fate db row s reading.state.slot safe
                          (truth.landed found settled landed))
                  | inl dead ↦
                      bury-IsSafe fate db cfg row s safe was_sent e
                        (truth.rejected found settled dead) (ground arith)
                ]
              ]
              | inr unseen ↦
                  elim (Bool-cases
                    (leb reading.finalized (fate.expiry s + cfg.expiry_margin_blocks))) [
                      | inl early ↦
                          let same : db ≡ db' = ground arith in subst (IsSafe fate) same safe
                      | inr late ↦
                          bury-IsSafe fate db cfg row s safe was_sent e
                            (truth.expired unseen (ground arith)) (ground arith)
                    ]
            ]
      ]

  pub step-IsSafe :
      (row : Transfer) (env : Sending) (reading : Reading) {db' : CustodyDb}
      → IsSafe fate db
      → IsSigned fate env
      → ((s : ℕ)
          → row.status ≡ sent
          → row.tx_signature ≡ some s
          → row.last_valid_block_height ≡ some (fate.expiry s))
      → ((s : ℕ) → row.tx_signature ≡ some s → IsHonest fate cfg s reading)
      → step cfg row env reading db ≡ ok db'
      → IsSafe fate db'
  unfolding step
  step-IsSafe row env reading {db'} safe signed height honest h =
      elim (Bool-cases (is_withdrawal row.kind)) [
        | inr other ↦ let same : db ≡ db' = ground arith in subst (IsSafe fate) same safe
        | inl own ↦ elim (status_cases row.status) [
          | inl waits ↦ send-IsSafe row env safe waits signed (ground arith)
          | inr (inl out) ↦
              check-IsSafe row reading safe out (λ s. height s out) honest (ground arith)
          | inr (inr stays) ↦ let same : db ≡ db' = ground arith in subst (IsSafe fate) same safe
        ]
      ]
