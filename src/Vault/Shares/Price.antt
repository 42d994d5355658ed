-- ===== src/Vault/Shares/Price.antt =====
-- The rounding of the share price of packages/shared/src/constants.ts.
use native.Mathlib.Nat.{div-mul-le_self, lt-div-mul-add}
use scadium.Prelude.{ℕ, zero, suc, ◌+◌, ◌*◌, ◌≤◌, ◌<◌, arith}
use scadium.Vault.Shares.{
  ray, shares_for_deposit, assets_for_shares, apply_accrual, early_exit_penalty,
}

pub assets_for_shares-mul :
    (shares index_ray : ℕ) → assets_for_shares shares index_ray * ray ≤ shares * index_ray
unfolding assets_for_shares
assets_for_shares-mul shares index_ray = ground (arith, div-mul-le_self (shares * index_ray) ray)

pub shares_for_deposit-mul :
    (assets index_ray : ℕ) → shares_for_deposit assets index_ray * index_ray ≤ assets * ray
unfolding shares_for_deposit
shares_for_deposit-mul assets index_ray = ground (arith, div-mul-le_self (assets * ray) index_ray)

-- The growth of the index, times the shares, is no more than the yield.
pub apply_accrual-mul :
    (index_ray total_shares yield_assets : ℕ)
    → total_shares * apply_accrual index_ray total_shares yield_assets
      ≤ total_shares * index_ray + yield_assets * ray
unfolding apply_accrual
apply_accrual-mul index_ray total_shares yield_assets =
    grind (arith, div-mul-le_self (yield_assets * ray) total_shares)

pub early_exit_penalty-le : (assets : ℕ) → early_exit_penalty assets * 10 ≤ assets
unfolding early_exit_penalty
early_exit_penalty-le assets = ground arith

assets_for_shares-lt :
    (shares index_ray : ℕ) → shares * index_ray < (assets_for_shares shares index_ray + 1) * ray
unfolding assets_for_shares
assets_for_shares-lt zero index_ray = omega arith
assets_for_shares-lt (suc shares) zero = omega arith
assets_for_shares-lt (suc shares) (suc i) = ground arith

shares_for_deposit-lt :
    (assets index_ray : ℕ)
    → 0 < index_ray
    → assets * ray < (shares_for_deposit assets index_ray + 1) * index_ray
unfolding shares_for_deposit
shares_for_deposit-lt assets index_ray h =
    grind (arith, lt-div-mul-add {a = assets * ray} {b = index_ray} h)

-- A deposit valued at the price it was made at is worth no more than was paid in, and what the rounding
-- keeps back is less than the price of one share, plus one base unit.
pub assets_for_shares-shares_for_deposit :
    (assets index_ray : ℕ)
    → 0 < index_ray
    → (assets_for_shares (shares_for_deposit assets index_ray) index_ray ≤ assets)
      × (assets * ray
          < (assets_for_shares (shares_for_deposit assets index_ray) index_ray + 1) * ray
            + index_ray)
assets_for_shares-shares_for_deposit assets index_ray h =
    let s = shares_for_deposit assets index_ray in
    let back = assets_for_shares-mul s index_ray in
    let minted = shares_for_deposit-mul assets index_ray in
    let above = assets_for_shares-lt s index_ray in
    let short = shares_for_deposit-lt assets index_ray h in
    (omega (arith, back, minted), omega (arith, above, short))

-- The price never falls by an accrual.
pub apply_accrual_mono :
    (index_ray total_shares yield_assets : ℕ)
    → index_ray ≤ apply_accrual index_ray total_shares yield_assets
unfolding apply_accrual
apply_accrual_mono index_ray total_shares yield_assets = ground arith
