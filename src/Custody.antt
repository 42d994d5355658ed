-- ===== src/Custody.antt =====
-- apps/api/src/custody/withdrawal.service.ts: withdrawals of deposited funds to the player's own wallet.
-- The chain is a parameter: what it answers to a read is an argument of the step that reads it. A
-- wallet address and a signature are numbers; the free text of `error` is left out.
pub mod Requests
pub mod Signatures
pub mod Money
mod Tests
use scadium.Prelude.{
  ℕ, suc, ◌+◌, ◌-◌, ◌≤◌, ◌≡◌, Bool, true, false, not, ◌&&◌, ◌||◌, Option, none, some, List, [], ◌∷◌,
  leb, ltb, ◌==◌, if◌then◌else◌, Result, ok, err, ◌>>=◌, ◌>>◌, raise_if, or_raise, bad_request,
  unavailable, forbidden, conflict, missing_row, Check, Table, put,
}
use scadium.Prelude.Int.{ℤ, pos, ◌-ℤ◌}
use scadium.Prelude.Counting.{includes}
use scadium.Ledger.{Accounts, Meta, Currency, apply_balance_delta}

pub data Kind : Type 0 where
  deposit withdrawal : Kind

pub data Status : Type 0 where
  held credited pending sent confirmed failed : Status

-- The row `CustodyTransfer`; a withdrawal always has its user.
pub record Transfer : Type 0 where
  pub id : ℕ
  pub kind : Kind
  pub status : Status
  pub user_id : ℕ
  pub wallet : ℕ
  pub amount_lamports : ℕ
  pub tx_signature : Option ℕ
  pub slot : Option ℕ
  pub last_valid_block_height : Option ℕ
  pub attempts : ℕ
  pub created_at : ℕ

-- A signed transfer that was handed to the network.
pub record Broadcast : Type 0 where
  pub transfer_id : ℕ
  pub signature : ℕ

-- The columns of a user that a request reads.
pub record Holder : Type 0 where
  pub funded : Bool
  pub wallet_address : ℕ
  pub linked_wallets : List ℕ

-- The answer of the API, which a retry with the same key gets again.
pub record TransferView : Type 0 where
  pub id : ℕ
  pub kind : Kind
  pub status : Status
  pub amount_lamports : ℕ
  pub wallet : ℕ
  pub tx_signature : Option ℕ
  pub created_at : ℕ

pub record CustodyDb : Type 0 where
  pub accounts : Accounts
  pub holders : Table Holder
  pub transfers : List Transfer
  pub keys : ℕ → ℕ → Option (Option TransferView)
  pub network : List Broadcast
  pub next_id : ℕ

pub record Config : Type 0 where
  pub min_withdraw_lamports : ℕ
  pub max_withdraw_lamports : ℕ
  pub daily_withdraw_lamports : ℕ
  pub fee_reserve_lamports : ℕ
  pub withdraw_max_attempts : ℕ
  pub expiry_margin_blocks : ℕ

unfoldable pub same_status : Status → Status → Bool
same_status held held = true
same_status credited credited = true
same_status pending pending = true
same_status sent sent = true
same_status confirmed confirmed = true
same_status failed failed = true
same_status a b = false

unfoldable pub same_signature : Option ℕ → Option ℕ → Bool
same_signature none none = true
same_signature (some a) (some b) = a == b
same_signature a b = false

abbrev pub is_withdrawal : Kind → Bool
is_withdrawal deposit = false
is_withdrawal withdrawal = true

-- `findUnique` by id.
unfoldable pub find_transfer : ℕ → List Transfer → Option Transfer
find_transfer id [] = none
find_transfer id (t ∷ ts) = if t.id == id then some t else find_transfer id ts

-- `updateMany` on one id under a guard: whether a row matched, and the rows after it.
abbrev pub guarded : (Transfer → Bool) → Option Transfer → Bool
guarded guard none = false
guarded guard (some t) = guard t

unfoldable pub update_transfer : ℕ → (Transfer → Transfer) → List Transfer → List Transfer
update_transfer id change [] = []
update_transfer id change (t ∷ ts) =
    if t.id == id then change t ∷ ts else t ∷ update_transfer id change ts

abbrev pub refund_meta : ℕ → Meta
refund_meta id = record {
  reason = "custody_withdraw_refund";
  ref_type = "CustodyTransfer";
  ref_id = some id;
  currency = Currency.jeton;
  max_balance = none;
}

abbrev pub withdraw_meta : ℕ → Meta
withdraw_meta id = record (refund_meta id) { reason = "custody_withdraw" }

-- The writes of `refund` once its guard has matched.
unfoldable pub pay_back : Transfer → CustodyDb → Result CustodyDb
pay_back row db = do
  paid ← apply_balance_delta db.accounts row.user_id (pos row.amount_lamports) (refund_meta row.id)
  ok (record db {
    accounts = paid.1;
    transfers = update_transfer row.id (λ t. record t { status = failed }) db.transfers;
  })

-- The row is still as it was read.
abbrev pub unchanged : Transfer → Transfer → Bool
unchanged row t = same_status t.status row.status && same_signature t.tx_signature row.tx_signature

-- `refund`, for a row as it was read before.
unfoldable pub refund : Transfer → CustodyDb → Result CustodyDb
refund row db =
    if guarded (unchanged row) (find_transfer row.id db.transfers) then pay_back row db else ok db

-- What `send` finds outside of the database.
pub record Sending : Type 0 where
  pub paused : Bool
  pub active : Bool
  pub hot_lamports : ℕ
  pub signature : ℕ
  pub last_valid_block_height : ℕ

-- `send`: the signature is stored under a guard, and only then broadcast.
unfoldable pub send : Config → Transfer → Sending → CustodyDb → Result CustodyDb
send cfg row env db =
    if leb cfg.withdraw_max_attempts row.attempts
    then refund row db
    else if env.paused
    then ok db
    else if not env.active
    then err unavailable
    else if ltb env.hot_lamports (row.amount_lamports + cfg.fee_reserve_lamports)
    then ok db
    else if guarded (λ t. same_status t.status pending && t.attempts == row.attempts)
        (find_transfer row.id db.transfers)
    then ok (record db {
      transfers =
          update_transfer row.id
            (λ t. record t {
              status = sent;
              tx_signature = some env.signature;
              last_valid_block_height = some env.last_valid_block_height;
              attempts = row.attempts + 1;
            })
            db.transfers;
      network = record { transfer_id = row.id; signature = env.signature } ∷ db.network;
    })
    else ok db

-- `signatureState`, and the finalized height that was read before it.
pub record SignatureState : Type 0 where
  pub found : Bool
  pub failed : Bool
  pub settled : Bool
  pub slot : Option ℕ

pub record Reading : Type 0 where
  pub finalized : ℕ
  pub state : SignatureState

-- The compare-and-set of a row that is still sent under the signature that was read.
abbrev pub still_sent : ℕ → Transfer → Bool
still_sent signature t = same_status t.status sent && same_signature t.tx_signature (some signature)

-- A signature that is dead: the row is refunded or opened again.
unfoldable pub bury : Config → Transfer → ℕ → CustodyDb → Result CustodyDb
bury cfg row signature db =
    if leb cfg.withdraw_max_attempts row.attempts
    then refund row db
    else if guarded (still_sent signature) (find_transfer row.id db.transfers)
    then ok (record db {
      transfers =
          update_transfer row.id
            (λ t. record t {
              status = pending;
              tx_signature = none;
              last_valid_block_height = none;
            })
            db.transfers;
    })
    else ok db

unfoldable pub confirm : Transfer → ℕ → Option ℕ → CustodyDb → CustodyDb
confirm row signature slot db =
    if guarded (still_sent signature) (find_transfer row.id db.transfers)
    then record db {
      transfers =
          update_transfer row.id (λ t. record t { status = confirmed; slot = slot }) db.transfers;
    }
    else db

-- `check`
unfoldable pub check : Config → Transfer → Reading → CustodyDb → Result CustodyDb
check cfg row reading db = elim row.tx_signature [
  | none ↦ err missing_row
  | some signature ↦
      if reading.state.found
      then (if not reading.state.settled
          then ok db
          else if not reading.state.failed
          then ok (confirm row signature reading.state.slot db)
          else bury cfg row signature db)
      else elim row.last_valid_block_height [
        | none ↦ err missing_row
        | some height ↦
            if leb reading.finalized (height + cfg.expiry_margin_blocks)
            then ok db
            else bury cfg row signature db
      ]
]

-- `step`, for a row as it was read; the database is the one that its write meets.
unfoldable pub step : Config → Transfer → Sending → Reading → CustodyDb → Result CustodyDb
step cfg row sending reading db = if not (is_withdrawal row.kind) then ok db else elim row.status [
  | pending ↦ send cfg row sending db
  | sent ↦ check cfg row reading db
  | held ↦ ok db
  | credited ↦ ok db
  | confirmed ↦ ok db
  | failed ↦ ok db
]
