-- ===== src/Vault/Service.antt =====
-- apps/api/src/vault/vault.service.ts: deposits into a term pool and withdrawals from a position.
pub mod Positions
pub mod Backing
pub mod Sound
pub mod Money
use scadium.Prelude.{
  ℕ, ◌+◌, ◌-◌, ◌*◌, ◌/◌, ◌≡◌, Bool, true, false, not, ◌&&◌, Option, none, some, List, [], ◌∷◌, leb,
  ltb, ◌==◌, if◌then◌else◌, Result, ok, err, ◌>>=◌, ◌>>◌, raise_if, or_raise, bad_request,
  not_found, missing_row, Check, Table, put,
}
use scadium.Prelude.Int.{ℤ, pos, ◌+ℤ◌, ◌-ℤ◌}
use scadium.Ledger.{Accounts, Meta, Currency, apply_balance_delta}
use scadium.Vault.Shares.{
  ray, min_deposit_scad_base, shares_for_deposit, assets_for_shares, apply_accrual,
  early_exit_penalty,
}

-- The row `VaultPool`.
pub record Pool : Type 0 where
  pub active : Bool
  pub term_days : ℕ
  pub weight_bps : ℕ
  pub apr_bps : ℕ
  pub index_ray : ℕ
  pub total_assets : ℤ
  pub total_shares : ℕ

-- The row `VaultPosition`; times are milliseconds.
pub record Position : Type 0 where
  pub id : ℕ
  pub user_id : ℕ
  pub pool_id : ℕ
  pub shares : ℕ
  pub principal : ℕ
  pub matures_at : ℕ

pub data EventKind : Type 0 where
  deposited withdrawn early_exit accrued : EventKind

-- The row `VaultEvent`.
pub record VaultEvent : Type 0 where
  pub user_id : Option ℕ
  pub pool_id : ℕ
  pub kind : EventKind
  pub assets_delta : ℤ
  pub shares_delta : ℤ
  pub penalty_assets : ℕ
  pub index_ray_after : ℕ

-- The tables that the service works on; `next_id` stands for the ids that the database generates.
pub record VaultDb : Type 0 where
  pub accounts : Accounts
  pub pools : Table Pool
  pub positions : List Position
  pub events : List VaultEvent
  pub next_id : ℕ

-- `findUnique`, `update` and `delete` by id.
unfoldable pub find_position : ℕ → List Position → Option Position
find_position id [] = none
find_position id (p ∷ ps) = if p.id == id then some p else find_position id ps

unfoldable pub replace_position : ℕ → Position → List Position → List Position
replace_position id q [] = []
replace_position id q (p ∷ ps) = if p.id == id then q ∷ ps else p ∷ replace_position id q ps

unfoldable pub delete_position : ℕ → List Position → List Position
delete_position id [] = []
delete_position id (p ∷ ps) = if p.id == id then ps else p ∷ delete_position id ps

abbrev pub vault_meta : Currency → ℕ → Bool → Meta
vault_meta currency ref early = record {
  reason = if early then "vault_early_exit" else "vault_withdraw";
  ref_type = "VaultEvent";
  ref_id = some ref;
  currency = currency;
  max_balance = none;
}

abbrev pub deposit_meta : Currency → ℕ → Meta
deposit_meta currency ref = record (vault_meta currency ref false) { reason = "vault_deposit" }

-- The pool after a deposit: shares are minted at the current price.
unfoldable pub mint : Pool → ℕ → ℕ → Pool
mint pool amount shares = record pool {
  total_assets = pool.total_assets +ℤ pos amount;
  total_shares = pool.total_shares + shares;
}

abbrev pub day_ms : ℕ
day_ms = 86400000

-- `deposit`
unfoldable pub deposit : VaultDb → ℕ → ℕ → ℕ → ℕ → Result VaultDb
unfolding mint
deposit db user_id pool_id amount now = do
  raise_if (ltb amount min_deposit_scad_base) (bad_request Check.deposit_too_small)
  pool ← or_raise (db.pools pool_id) not_found
  raise_if (not pool.active) not_found
  let shares = shares_for_deposit amount pool.index_ray
  raise_if (leb shares 0) (bad_request Check.deposit_too_small)
  debited ←
      apply_balance_delta db.accounts user_id (pos 0 -ℤ pos amount)
        (deposit_meta Currency.scad pool_id)
  credited ←
      apply_balance_delta debited.1 user_id (pos amount) (deposit_meta Currency.scad_vault pool_id)
  let position : Position = record {
    id = db.next_id;
    user_id = user_id;
    pool_id = pool_id;
    shares = shares;
    principal = amount;
    matures_at = now + pool.term_days * day_ms;
  }
  let event : VaultEvent = record {
    user_id = some user_id;
    pool_id = pool_id;
    kind = deposited;
    assets_delta = pos amount;
    shares_delta = pos shares;
    penalty_assets = 0;
    index_ray_after = pool.index_ray;
  }
  ok (record {
    accounts = credited.1;
    pools = put pool_id (mint pool amount shares) db.pools;
    positions = position ∷ db.positions;
    events = event ∷ db.events;
    next_id = db.next_id + 1;
  })

-- The amounts of a withdrawal, as the service computes them before it writes.
pub record Exit : Type 0 where
  pub gross : ℕ
  pub penalty : ℕ
  pub net : ℕ
  pub principal_portion : ℕ

unfoldable pub exit_amounts : Pool → Position → ℕ → Bool → Exit
exit_amounts pool position burned early =
    let gross = assets_for_shares burned pool.index_ray in
    let penalty = if early then early_exit_penalty gross else 0 in
    record {
      gross = gross;
      penalty = penalty;
      net = gross - penalty;
      principal_portion =
          if burned == position.shares
          then position.principal
          else position.principal * burned / position.shares;
    }

-- The pool after a withdrawal: the penalty stays and raises the price of the shares that are left; the
-- last shares out reset the pool.
unfoldable pub burn : Pool → ℕ → Exit → Pool
burn pool burned exit =
    if leb pool.total_shares burned
    then record pool { total_shares = 0; total_assets = pos 0; index_ray = ray }
    else record pool {
      total_shares = pool.total_shares - burned;
      total_assets = pool.total_assets -ℤ pos exit.net;
      index_ray = apply_accrual pool.index_ray (pool.total_shares - burned) exit.penalty;
    }

-- The credit of the net amount, if there is one.
unfoldable pub pay_out : Accounts → ℕ → ℕ → Meta → Result Accounts
pay_out accounts user_id net meta =
    if leb net 0
    then ok accounts
    else do paid ← apply_balance_delta accounts user_id (pos net) meta; ok paid.1

-- The position after a withdrawal.
unfoldable pub shrink : Position → ℕ → Exit → List Position → List Position
shrink position burned exit positions =
    if leb position.shares burned
    then delete_position position.id positions
    else replace_position position.id
        (record position {
          shares = position.shares - burned;
          principal = position.principal - exit.principal_portion;
        })
        positions

-- `withdraw`; `none` burns the whole position.
unfoldable pub withdraw : VaultDb → ℕ → ℕ → Option ℕ → ℕ → Result VaultDb
withdraw db user_id position_id shares now = do
  position ← or_raise (find_position position_id db.positions) not_found
  raise_if (not (position.user_id == user_id)) not_found
  let burned : ℕ = elim shares [ none ↦ position.shares | some s ↦ s ]
  raise_if (leb burned 0) (bad_request Check.shares_range)
  raise_if (ltb position.shares burned) (bad_request Check.shares_range)
  pool ← or_raise (db.pools position.pool_id) missing_row
  let early = ltb now position.matures_at
  let exit = exit_amounts pool position burned early
  debited ←
      apply_balance_delta db.accounts user_id (pos 0 -ℤ pos exit.principal_portion)
        (vault_meta Currency.scad_vault position_id early)
  paid ← pay_out debited.1 user_id exit.net (vault_meta Currency.scad position_id early)
  let after = burn pool burned exit
  let event : VaultEvent = record {
    user_id = some user_id;
    pool_id = position.pool_id;
    kind = if early then early_exit else withdrawn;
    assets_delta = pos 0 -ℤ pos exit.net;
    shares_delta = pos 0 -ℤ pos burned;
    penalty_assets = exit.penalty;
    index_ray_after = after.index_ray;
  }
  ok (record {
    accounts = paid;
    pools = put position.pool_id after db.pools;
    positions = shrink position burned exit db.positions;
    events = event ∷ db.events;
    next_id = db.next_id;
  })
