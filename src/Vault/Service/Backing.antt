-- ===== src/Vault/Service/Backing.antt =====
-- The assets of a pool against its shares: apps/api/src/vault/vault.service.ts.
use scadium.Prelude.{ℕ, ◌+◌, ◌-◌, ◌*◌, ◌≤◌, ◌<◌, ◌≡◌, ap, Bool, leb, arith, Bool-cases, inl, inr}
use scadium.Prelude.Int.{pos, ◌≤ℤ◌, pos_part, pos_part-+ℤ, pos_part--ℤ}
use scadium.Vault.Shares.{ray, shares_for_deposit, assets_for_shares}
use scadium.Vault.Shares.Price.{
  assets_for_shares-mul, shares_for_deposit-mul, apply_accrual-mul, apply_accrual_mono,
  early_exit_penalty-le,
}
use scadium.Vault.Service.{Pool, Position, exit_amounts, mint, burn}

-- The assets of a pool cover its shares at the current price.
pub record IsBacked (pool : Pool) : Type 0 where
  pub priced : 0 < pool.index_ray
  pub nonneg : pos 0 ≤ℤ pool.total_assets
  pub covered : pool.total_shares * pool.index_ray ≤ pos_part pool.total_assets * ray

pub mint-IsBacked :
    (pool : Pool) (amount : ℕ)
    → IsBacked pool
    → IsBacked (mint pool amount (shares_for_deposit amount pool.index_ray))
unfolding mint
mint-IsBacked pool amount b =
    let (value, nonneg) = pos_part-+ℤ pool.total_assets amount b.nonneg in
    record {
      priced = b.priced;
      nonneg = nonneg;
      covered = omega (arith, value, b.covered, shares_for_deposit-mul amount pool.index_ray);
    }

-- The price of the shares that are left, after `burned` of `total` leave with `gross - penalty`.
left_covered :
    (total index assets burned gross penalty : ℕ)
    → burned ≤ total
    → gross * ray ≤ burned * index
    → penalty ≤ gross
    → total * index ≤ assets * ray
    → (gross - penalty ≤ assets)
      × ((total - burned) * index + penalty * ray ≤ (assets - (gross - penalty)) * ray)
left_covered total index assets burned gross penalty h value small covered =
    let split : total * index ≡ (total - burned) * index + burned * index =
      omega (arith, ap (λ (t : ℕ). t * index) (whole total burned h)) in
    (omega (arith, split), omega (arith, split))
  where
    whole : (total burned : ℕ) → burned ≤ total → total ≡ total - burned + burned
    whole total burned h = omega arith

exit_penalty-le :
    (pool : Pool) (position : Position) (burned : ℕ) (early : Bool)
    → let exit = exit_amounts pool position burned early in
      (exit.penalty ≤ exit.gross)
      × (exit.gross ≡ assets_for_shares burned pool.index_ray)
      × (exit.net ≡ exit.gross - exit.penalty)
unfolding exit_amounts
exit_penalty-le pool position burned early =
    ground (arith, early_exit_penalty-le (assets_for_shares burned pool.index_ray))

module _ (pool : Pool) (position : Position) (burned : ℕ) (early : Bool) (b : IsBacked pool) where
  pub burn-IsBacked : IsBacked (burn pool burned (exit_amounts pool position burned early))
  unfolding burn
  burn-IsBacked = elim (Bool-cases (leb pool.total_shares burned)) [
    | inl last ↦
        rw last (record { priced = omega arith; nonneg = omega arith; covered = omega arith })
    | inr more ↦
        let exit = exit_amounts pool position burned early in
        let (small, gross, net) = exit_penalty-le pool position burned early in
        let worth = assets_for_shares-mul burned pool.index_ray in
        let within : burned ≤ pool.total_shares = ground arith in
        let (payable, left) =
          left_covered pool.total_shares pool.index_ray (pos_part pool.total_assets) burned
            exit.gross exit.penalty within (omega (arith, gross, worth)) small b.covered in
        let (value, nonneg) =
          pos_part--ℤ pool.total_assets exit.net b.nonneg (omega (arith, net, payable)) in
        let risen = apply_accrual_mono pool.index_ray (pool.total_shares - burned) exit.penalty in
        let growth = apply_accrual-mul pool.index_ray (pool.total_shares - burned) exit.penalty in
        rw more (record {
          priced = omega (arith, risen, b.priced);
          nonneg = nonneg;
          covered = omega (arith, growth, left, value, net);
        })
  ]

  -- What a withdrawal pays never exceeds what the pool holds.
  pub burn-payable :
      burned ≤ pool.total_shares
      → (exit_amounts pool position burned early).net ≤ pos_part pool.total_assets
  burn-payable within =
      let exit = exit_amounts pool position burned early in
      let (small, gross, net) = exit_penalty-le pool position burned early in
      let worth = assets_for_shares-mul burned pool.index_ray in
      omega (
        arith,
        net,
        (left_covered pool.total_shares pool.index_ray (pos_part pool.total_assets) burned
            exit.gross exit.penalty within (omega (arith, gross, worth)) small b.covered).0,
      )
