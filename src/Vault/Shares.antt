-- ===== src/Vault/Shares.antt =====
-- The share price of a vault pool: packages/shared/src/constants.ts. Amounts are bigints of at least 0.
pub mod Price
use scadium.Prelude.{ℕ, ◌+◌, ◌-◌, ◌*◌, ◌/◌, Bool, ◌||◌, leb, if◌then◌else◌}
use scadium.Prelude.Int.{ℤ, pos, negsuc}

-- `VAULT.RAY`, and `VAULT.INITIAL_INDEX_RAY`, which is the same number.
abbrev pub ray : ℕ
ray = 1000000000000000000

abbrev pub early_exit_penalty_bps : ℕ
early_exit_penalty_bps = 1000

abbrev pub min_deposit_scad_base : ℕ
min_deposit_scad_base = 1000000000

abbrev pub yield_ngr_bps : ℕ
yield_ngr_bps = 800

abbrev pub min_accrual_scad_base : ℕ
min_accrual_scad_base = 1000000

-- `sharesForDeposit`
unfoldable pub shares_for_deposit : ℕ → ℕ → ℕ
shares_for_deposit assets index_ray =
    if leb assets 0 || leb index_ray 0 then 0 else assets * ray / index_ray

-- `assetsForShares`
unfoldable pub assets_for_shares : ℕ → ℕ → ℕ
assets_for_shares shares index_ray =
    if leb shares 0 || leb index_ray 0 then 0 else shares * index_ray / ray

-- `applyAccrual`
unfoldable pub apply_accrual : ℕ → ℕ → ℕ → ℕ
apply_accrual index_ray total_shares yield_assets =
    if leb total_shares 0 || leb yield_assets 0
    then index_ray
    else index_ray + yield_assets * ray / total_shares

-- `earlyExitPenalty`
unfoldable pub early_exit_penalty : ℕ → ℕ
early_exit_penalty assets = if leb assets 0 then 0 else assets * early_exit_penalty_bps / 10000

-- `vaultYieldSliceLamports`; the net gaming revenue may be negative.
unfoldable pub vault_yield_slice_lamports : ℤ → ℕ
vault_yield_slice_lamports (pos ngr) = if leb ngr 0 then 0 else ngr * yield_ngr_bps / 10000
vault_yield_slice_lamports (negsuc n) = 0

-- `lamportsToScadBase`: 10 ^ 9 / 0.1 base units a dollar, 10000000 lamports a dollar.
unfoldable pub lamports_to_scad_base : ℕ → ℕ
lamports_to_scad_base lamports = if leb lamports 0 then 0 else lamports * 10000000000 / 10000000
