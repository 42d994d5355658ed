-- ===== src/Vault/Accrual/Stale.antt =====
-- What happens to a pool of apps/api/src/vault/vault-accrual.service.ts that a deposit changes between
-- the read of the pools and the transaction that credits them.
use scadium.Prelude.{ℕ, ◌+◌, ◌*◌, ◌/◌, ◌≤◌, ◌<◌, ◌≡◌, arith}
use scadium.Prelude.Int.{pos, ◌+ℤ◌, pos_part, pos_part-+ℤ, ◌≤ℤ◌}
use native.Mathlib.Nat.{lt-div-mul-add}
use scadium.Vault.Shares.{ray, apply_accrual}
use scadium.Vault.Service.{Pool, mint}
use scadium.Vault.Service.Backing.{IsBacked}
use scadium.Vault.Accrual.{credit_pool}

-- The numbers behind it: an index that rises by what the old shares are owed, on more shares.
too_dear :
    (shares index assets minted amount gain rise : ℕ)
    → shares * index ≡ assets * ray
    → minted * index ≡ amount * ray
    → gain * ray < rise * shares + shares
    → shares ≤ minted * rise
    → ¬ ((shares + minted) * (index + rise) ≤ (assets + amount + gain) * ray)
too_dear shares index assets minted amount gain rise full exact close many covered =
    omega (arith, full, exact, close, many, covered)

apply_accrual_some :
    (index shares gain : ℕ)
    → 0 < shares
    → 0 < gain
    → apply_accrual index shares gain ≡ index + gain * ray / shares
unfolding apply_accrual
apply_accrual_some index shares gain h k = ground arith

-- A pool whose assets cover its shares exactly, that a deposit at the exact price joins after the pools
-- were read, is no longer backed once the accrual is written, when the rise of the price on the new
-- shares is at least one unit for each old share: the new shares gain what only the old ones were owed.
pub credit_pool_stale :
    (p : Pool) (minted amount gain : ℕ)
    → 0 < p.total_shares
    → 0 < gain
    → pos 0 ≤ℤ p.total_assets
    → p.total_shares * p.index_ray ≡ pos_part p.total_assets * ray
    → minted * p.index_ray ≡ amount * ray
    → p.total_shares ≤ minted * (gain * ray / p.total_shares)
    → ¬ (IsBacked (credit_pool p (mint p amount minted) gain))
unfolding credit_pool mint
credit_pool_stale p minted amount gain some_shares some_gain nonneg full exact many b =
    let (first, nonneg') = pos_part-+ℤ p.total_assets amount nonneg in
    let (second, nonneg'') = pos_part-+ℤ (p.total_assets +ℤ pos amount) gain nonneg' in
    too_dear p.total_shares p.index_ray (pos_part p.total_assets) minted amount gain
      (gain * ray / p.total_shares) full exact (lt-div-mul-add some_shares) many
      (rw (apply_accrual_some p.index_ray p.total_shares gain some_shares some_gain, second, first)
        at b.covered)
