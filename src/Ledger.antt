-- ===== src/Ledger.antt =====
-- apps/api/src/prisma/apply-balance-delta.ts: the one place where a balance of a user changes.
pub mod Moves
pub mod Worth
pub mod Invariant
pub mod Limits
mod Tests
use Prim.Native.String.{String}
use scadium.Prelude.{
  ℕ, suc, ◌≡◌, Bool, true, false, Option, none, some, List, [], ◌∷◌, ◌&&◌, not, ◌==◌, if◌then◌else◌,
  Result, ok, err, ◌>>=◌, Error, bad_request, missing_row, Check, Table, put, or_raise,
}
use scadium.Prelude.Int.{ℤ, pos, negsuc, ◌+ℤ◌, ◌-ℤ◌, ltb_ℤ, leb_ℤ}

pub data Currency : Type 0 where
  jeton scad scad_staked usds scad_vault : Currency

-- The columns of the `User` row that the settlements read and write.
pub record User : Type 0 where
  pub banned : Bool
  pub play_balance_lamports : ℤ
  pub scadium_balance : ℤ
  pub scadium_staked : ℤ
  pub usds_balance : ℤ
  pub scadium_vault : ℤ
  pub total_wagered : ℕ
  pub total_won : ℕ
  pub total_lost : ℕ
  pub games_played : ℕ
  pub biggest_win : ℕ

pub record LedgerRow : Type 0 where
  pub user_id : ℕ
  pub currency : Currency
  pub delta : ℤ
  pub reason : String
  pub ref_type : String
  pub ref_id : Option ℕ
  pub balance_after : ℤ

-- The tables `User` and `BalanceLedger`, the ledger newest first.
pub record Accounts : Type 0 where
  pub users : Table User
  pub ledger : List LedgerRow

pub record Meta : Type 0 where
  pub reason : String
  pub ref_type : String
  pub ref_id : Option ℕ
  pub currency : Currency
  pub max_balance : Option ℤ

-- `BALANCE_COLUMN`: the column of each currency, read and written.
unfoldable pub balance : Currency → User → ℤ
balance jeton u = u.play_balance_lamports
balance scad u = u.scadium_balance
balance scad_staked u = u.scadium_staked
balance usds u = u.usds_balance
balance scad_vault u = u.scadium_vault

unfoldable pub set_balance : Currency → ℤ → User → User
set_balance jeton b u = record u { play_balance_lamports = b }
set_balance scad b u = record u { scadium_balance = b }
set_balance scad_staked b u = record u { scadium_staked = b }
set_balance usds b u = record u { usds_balance = b }
set_balance scad_vault b u = record u { scadium_vault = b }

-- `updateMany` and `update` with `{ increment: delta }`, on the row that is there.
increment : Currency → ℤ → ℕ → User → Accounts → Accounts
increment c delta id u a = record a {
  users = put id (set_balance c (balance c u +ℤ delta) u) a.users;
}

-- A debit matches a user who is not banned and whose balance covers it.
unfoldable pub debit : Accounts → ℕ → ℤ → Currency → Result Accounts
unfolding increment
debit a id delta c = elim (a.users id) [
  | none ↦ err (bad_request Check.insufficient_balance)
  | some u ↦
      if not u.banned && leb_ℤ (pos 0 -ℤ delta) (balance c u)
      then ok (increment c delta id u a)
      else err (bad_request Check.insufficient_balance)
]

-- A credit under a cap matches a balance that stays within it.
unfoldable pub credit : Accounts → ℕ → ℤ → Meta → Result Accounts
unfolding increment
credit a id delta meta = elim meta.max_balance [
  | none ↦ elim (a.users id) [
    | none ↦ err missing_row
    | some u ↦ ok (increment meta.currency delta id u a)
  ]
  | some cap ↦ elim (a.users id) [
    | none ↦ err (bad_request Check.balance_cap)
    | some u ↦
        if leb_ℤ (balance meta.currency u) (cap -ℤ delta)
        then ok (increment meta.currency delta id u a)
        else err (bad_request Check.balance_cap)
  ]
]

-- The three branches on the sign of `delta`.
unfoldable pub move : Accounts → ℕ → ℤ → Meta → Result Accounts
move a id delta meta =
    if ltb_ℤ delta (pos 0)
    then debit a id delta meta.currency
    else if ltb_ℤ (pos 0) delta
    then credit a id delta meta
    else ok a

-- The read back of the balance, and the ledger row in the same transaction.
unfoldable pub record_move : Accounts → ℕ → ℤ → Meta → Result (ℤ × Accounts)
record_move a id delta meta = do
  user ← or_raise (a.users id) missing_row
  let balance_after = balance meta.currency user
  let row : LedgerRow = record {
    user_id = id;
    currency = meta.currency;
    delta = delta;
    reason = meta.reason;
    ref_type = meta.ref_type;
    ref_id = meta.ref_id;
    balance_after = balance_after;
  }
  ok (balance_after, record a { ledger = row ∷ a.ledger })

unfoldable pub apply_balance_delta : Accounts → ℕ → ℤ → Meta → Result (ℤ × Accounts)
apply_balance_delta a id delta meta = do a' ← move a id delta meta; record_move a' id delta meta

-- `deriveBalance`: the sum of a user's deltas, whatever their currency.
unfoldable pub derive_balance : List LedgerRow → ℕ → ℤ
derive_balance [] id = pos 0
derive_balance (r ∷ rows) id =
    let rest = derive_balance rows id in if r.user_id == id then r.delta +ℤ rest else rest
