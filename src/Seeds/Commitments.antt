-- ===== src/Seeds/Commitments.antt =====
-- The commitments of apps/api/src/fairness/seed-manager.service.ts.
use scadium.Prelude.{
  ℕ, ◌≡◌, refl, sym, ◌∙◌, ap, subst, inl, inr, Bool, false, some, arith, Option-cases, ok, Table,
  put, ℕ_discrete,
}
use scadium.Fair.Hash.{Text, Crypto}
use scadium.Seeds.{
  SeedRow, ActivePairView, Draws, commit_server_seed, mint_row, row_or_new, set_client_seed,
  Revealed, rotate_server_seed, consume_nonce, trim,
}

-- The published hashes are the commitments of the secret seeds.
pub record IsCommitted (crypto : Crypto) (row : SeedRow) : Type 0 where
  pub active : row.server_seed_hash ≡ commit_server_seed crypto row.server_seed
  pub next : row.next_server_seed_hash ≡ commit_server_seed crypto row.next_server_seed

abbrev pub AllCommitted : Crypto → Table SeedRow → Type 0
AllCommitted crypto seeds = (u : ℕ) (row : SeedRow) → seeds u ≡ some row → IsCommitted crypto row

row_or_new-IsCommitted :
    (crypto : Crypto) (draws : Draws) (seeds : Table SeedRow) (u : ℕ)
    → AllCommitted crypto seeds
    → IsCommitted crypto (row_or_new crypto draws (seeds u))
unfolding mint_row
row_or_new-IsCommitted crypto draws seeds u h = elim (Option-cases (seeds u)) [
  | inl e ↦ rw e (record { active = refl; next = refl })
  | inr (row, e) ↦ rw e (h u row e)
]

AllCommitted-put :
    (crypto : Crypto) (seeds : Table SeedRow) (u : ℕ) (row : SeedRow)
    → AllCommitted crypto seeds
    → IsCommitted crypto row
    → AllCommitted crypto (put u row seeds)
AllCommitted-put crypto seeds u row h c v q e = elim (ℕ_discrete u v) [
  | yes same ↦ let here : row ≡ q = ground arith in subst (IsCommitted crypto) here c
  | no other ↦ h v q (ground arith)
]

-- The operations on the seeds that go through, each with what it hands out to a bet.
pub data Step (crypto : Crypto) : Table SeedRow → Table SeedRow → Type 0 where
  consumed :
      {seeds : Table SeedRow} (draws : Draws) (u : ℕ)
      → Step crypto seeds (consume_nonce crypto draws seeds u).1
  renamed :
      {seeds seeds' : Table SeedRow} (draws : Draws) (u : ℕ) (client_seed : Text)
      {v : ActivePairView}
      → set_client_seed crypto draws seeds u client_seed ≡ ok (v, seeds')
      → Step crypto seeds seeds'
  rotated :
      {seeds seeds' : Table SeedRow} (draws : Draws) (u : ℕ) (active : Bool) (fresh : Text)
      {v : Revealed}
      → rotate_server_seed crypto draws seeds u active fresh ≡ ok (v, seeds')
      → Step crypto seeds seeds'

pub data Run (crypto : Crypto) : Table SeedRow → Table SeedRow → Type 0 where
  rest : {seeds : Table SeedRow} → Run crypto seeds seeds
  next : {a b c : Table SeedRow} → Run crypto a b → Step crypto b c → Run crypto a c

rename-row :
    (crypto : Crypto) (draws : Draws) (seeds : Table SeedRow) (u : ℕ) (client_seed : Text)
    {v : ActivePairView} {seeds' : Table SeedRow}
    → set_client_seed crypto draws seeds u client_seed ≡ ok (v, seeds')
    → seeds'
      ≡ put u
          (record (row_or_new crypto draws (seeds u)) { client_seed = trim client_seed; nonce = 0 })
          seeds
unfolding set_client_seed
rename-row crypto draws seeds u client_seed h = ground arith

pub rotate-row :
    (crypto : Crypto) (draws : Draws) (seeds : Table SeedRow) (u : ℕ) (active : Bool) (fresh : Text)
    {v : Revealed} {seeds' : Table SeedRow}
    → rotate_server_seed crypto draws seeds u active fresh ≡ ok (v, seeds')
    → let row = row_or_new crypto draws (seeds u) in
      (active ≡ false)
      × (v.revealed_server_seed ≡ row.server_seed)
      × (v.server_seed_hash ≡ row.next_server_seed_hash)
      × (seeds'
          ≡ put u
              (record row {
                server_seed = row.next_server_seed;
                server_seed_hash = row.next_server_seed_hash;
                next_server_seed = fresh;
                next_server_seed_hash = commit_server_seed crypto fresh;
                nonce = 0;
              })
              seeds)
unfolding rotate_server_seed
rotate-row crypto draws seeds u active fresh h = ground arith

Step-AllCommitted :
    {crypto : Crypto} {a b : Table SeedRow}
    → Step crypto a b
    → AllCommitted crypto a
    → AllCommitted crypto b
unfolding consume_nonce
Step-AllCommitted {crypto} {a} (consumed draws u) h =
    let c = row_or_new-IsCommitted crypto draws a u h in
    AllCommitted-put crypto a u _ h (record { active = c.active; next = c.next })
Step-AllCommitted {crypto} {a} (renamed draws u client_seed e) h =
    let c = row_or_new-IsCommitted crypto draws a u h in
    subst (AllCommitted crypto) (sym (rename-row crypto draws a u client_seed e))
      (AllCommitted-put crypto a u _ h (record { active = c.active; next = c.next }))
Step-AllCommitted {crypto} {a} (rotated draws u active fresh e) h =
    let c = row_or_new-IsCommitted crypto draws a u h in
    let (idle, revealed, promoted, same) = rotate-row crypto draws a u active fresh e in
    subst (AllCommitted crypto) (sym same)
      (AllCommitted-put crypto a u _ h (record { active = c.next; next = refl }))

-- Every run of consumptions, renamings and rotations keeps each published hash the commitment of the seed
-- behind it.
pub Run-AllCommitted :
    {crypto : Crypto} {a b : Table SeedRow}
    → Run crypto a b
    → AllCommitted crypto a
    → AllCommitted crypto b
Run-AllCommitted rest h = h
Run-AllCommitted (next run step) h = Step-AllCommitted step (Run-AllCommitted run h)

-- A rotation that goes through, after any run that began with committed rows, happens with no round in
-- progress, reveals a seed whose commitment is the hash that was published for it, and makes active
-- the hash that was published as the next one.
pub rotate_server_seed-reveals :
    {crypto : Crypto} {a seeds seeds' : Table SeedRow} (draws : Draws) (u : ℕ) (active : Bool)
    (fresh : Text) {v : Revealed} (row : SeedRow)
    → AllCommitted crypto a
    → Run crypto a seeds
    → seeds u ≡ some row
    → rotate_server_seed crypto draws seeds u active fresh ≡ ok (v, seeds')
    → (active ≡ false)
      × (commit_server_seed crypto v.revealed_server_seed ≡ row.server_seed_hash)
      × (v.server_seed_hash ≡ row.next_server_seed_hash)
rotate_server_seed-reveals {crypto} {a} {seeds} draws u active fresh row h run found e =
    let c = Run-AllCommitted run h u row found in
    let (idle, revealed, promoted, same) = rotate-row crypto draws seeds u active fresh e in
    let here : row_or_new crypto draws (seeds u) ≡ row = rw found refl in
    (
      idle,
      ap (commit_server_seed crypto) (revealed ∙ ap (λ (r : SeedRow). r.server_seed) here)
          ∙ sym c.active,
      promoted ∙ ap (λ (r : SeedRow). r.next_server_seed_hash) here,
    )
