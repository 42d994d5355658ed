-- ===== src/Custody/Signatures.antt =====
-- What may have gone out for a withdrawal of apps/api/src/custody/withdrawal.service.ts: the invariant.
pub mod Rows
pub mod Runs
pub mod Opened
pub mod Payouts
use scadium.Prelude.{ℕ, ◌+◌, ◌<◌, ◌≡◌, ◌⊎◌, Bool, true, false, Option, some, List, All}
use scadium.Custody.{
  Transfer, Status, Broadcast, CustodyDb, Config, Sending, Reading, find_transfer,
}

-- What the chain will have done in the end: whether a signature lands, and the height at which the
-- blockhash that it signs expires.
pub record Fate : Type 0 where
  pub lands : ℕ → Bool
  pub expiry : ℕ → ℕ

-- A read of a signature tells the truth about it: a settled status stays, and a signature that is unseen once
-- the finalized height is past its expiry and the margin never lands.
pub record IsHonest (fate : Fate) (cfg : Config) (signature : ℕ) (reading : Reading) : Type 0 where
  pub landed :
      reading.state.found ≡ true
      → reading.state.settled ≡ true
      → reading.state.failed ≡ false
      → fate.lands signature ≡ true
  pub rejected :
      reading.state.found ≡ true
      → reading.state.settled ≡ true
      → reading.state.failed ≡ true
      → fate.lands signature ≡ false
  pub expired :
      reading.state.found ≡ false
      → fate.expiry signature + cfg.expiry_margin_blocks < reading.finalized
      → fate.lands signature ≡ false

-- The height that comes with a signed transfer is that of its blockhash.
abbrev pub IsSigned : Fate → Sending → Type 0
IsSigned fate env = env.last_valid_block_height ≡ fate.expiry env.signature

-- A status under which the stored signature may land.
abbrev pub IsOut : Status → Type 0
IsOut Status.sent = Unit
IsOut Status.confirmed = Unit
IsOut s = ⊥

-- A broadcast of a transfer is dead, or is the one that its row stores.
abbrev pub MayLand : Fate → Transfer → Broadcast → Type 0
MayLand fate t b =
    b.transfer_id ≡ t.id
    → (fate.lands b.signature ≡ false) ⊎ (IsOut t.status × (t.tx_signature ≡ some b.signature))

-- A row against all that went out.
pub record IsSafeRow (fate : Fate) (network : List Broadcast) (t : Transfer) : Type 0 where
  pub single : All (MayLand fate t) network
  pub stored :
      (s : ℕ)
      → t.status ≡ Status.sent
      → t.tx_signature ≡ some s
      → t.last_valid_block_height ≡ some (fate.expiry s)
  pub settled :
      (s : ℕ) → t.status ≡ Status.confirmed → t.tx_signature ≡ some s → fate.lands s ≡ true

pub record IsSafe (fate : Fate) (db : CustodyDb) : Type 0 where
  pub rows :
      (id : ℕ) (t : Transfer) → find_transfer id db.transfers ≡ some t → IsSafeRow fate db.network t
  pub numbered : (id : ℕ) (t : Transfer) → find_transfer id db.transfers ≡ some t → id < db.next_id
  pub sent_of : All (λ (b : Broadcast). b.transfer_id < db.next_id) db.network
