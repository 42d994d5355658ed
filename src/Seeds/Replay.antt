-- ===== src/Seeds/Replay.antt =====
-- `setClientSeed` of apps/api/src/fairness/seed-manager.service.ts with the seed that is already set.
use scadium.Prelude.{ℕ, ◌≤◌, ◌≡◌, refl, ◌∙◌, some, length, arith, ok, Table, put}
use scadium.Fair.Hash.{Text, Crypto}
use scadium.Seeds.{
  SeedRow, ActivePairView, Draws, set_client_seed, advance, context, consume_nonce, trim, view,
}

pub consume_nonce_found :
    (crypto : Crypto) (draws : Draws) (seeds : Table SeedRow) (u : ℕ) (row : SeedRow)
    → seeds u ≡ some row
    → (((consume_nonce crypto draws seeds u).0 ≡ context (advance row))
        × ((consume_nonce crypto draws seeds u).1 u ≡ some (advance row)))
unfolding consume_nonce
consume_nonce_found crypto draws seeds u row found = (rw found refl, ground (arith, found))

set_client_seed_found :
    (crypto : Crypto) (draws : Draws) (seeds : Table SeedRow) (u : ℕ) (row : SeedRow)
    (client_seed : Text)
    → seeds u ≡ some row
    → trim client_seed ≡ client_seed
    → 1 ≤ length client_seed
    → length client_seed ≤ 64
    → (v : ActivePairView) × (seeds' : Table SeedRow) × (set_client_seed crypto draws seeds u
          client_seed
        ≡ ok (v, seeds'))
      × (seeds' u ≡ some (record row { client_seed = client_seed; nonce = 0 }))
unfolding set_client_seed
set_client_seed_found crypto draws seeds u row client_seed found clean some_units few =
    let renamed : SeedRow = record row { client_seed = client_seed; nonce = 0 } in
    (view renamed, put u renamed seeds, ground (arith, found, clean), ground arith)

-- After a bet of a user whose nonce is at 0, setting the client seed that is already set makes the next
-- bet come from the very same server seed, client seed and nonce, whose outcome the user has seen.
pub set_client_seed-replays :
    (crypto : Crypto) (draws : Draws) (seeds : Table SeedRow) (u : ℕ) (row : SeedRow)
    → seeds u ≡ some row
    → row.nonce ≡ 0
    → trim row.client_seed ≡ row.client_seed
    → 1 ≤ length row.client_seed
    → length row.client_seed ≤ 64
    → let (first, after_bet) = consume_nonce crypto draws seeds u in
      (v : ActivePairView) × (after_rename : Table SeedRow) × (set_client_seed crypto draws
          after_bet u row.client_seed
        ≡ ok (v, after_rename))
      × ((consume_nonce crypto draws after_rename u).0 ≡ first)
set_client_seed-replays crypto draws seeds u row found fresh clean some_units few =
    let (first, after_bet) = consume_nonce_found crypto draws seeds u row found in
    let (v, renamed, done, row_is) =
      set_client_seed_found crypto draws (consume_nonce crypto draws seeds u).1 u (advance row)
        row.client_seed after_bet clean some_units few in
    let (second, after_second) = consume_nonce_found crypto draws renamed u _ row_is in
    (v, renamed, done, second ∙ ground (arith, first, fresh))
