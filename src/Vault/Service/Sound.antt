-- ===== src/Vault/Service/Sound.antt =====
-- The invariant of the vault, over deposits and withdrawals: apps/api/src/vault/vault.service.ts.
use scadium.Prelude.{
  ℕ, ◌+◌, ◌-◌, ◌*◌, ◌≤◌, ◌<◌, ◌≡◌, refl, Bool, Option, none, some, ◌∷◌, ltb, arith, ok, put,
  Option-cases, inl, inr, ℕ_discrete,
}
use scadium.Prelude.Int.{pos_part}
use scadium.Vault.Shares.{shares_for_deposit}
use scadium.Vault.Shares.Price.{apply_accrual_mono}
use scadium.Vault.Service.{
  Pool, Position, VaultDb, Exit, exit_amounts, mint, burn, deposit, withdraw, find_position, shrink,
}
use scadium.Vault.Service.Backing.{IsBacked, mint-IsBacked, burn-IsBacked, burn-payable}
use scadium.Vault.Service.Positions.{
  sum_shares, find_position-id, find_position-le, sum_shares-shrink,
}

-- What a deposit that goes through has written.
record Deposited (db db' : VaultDb) (pool_id amount : ℕ) (pool : Pool) (position : Position)
    : Type 0 where
  found : db.pools pool_id ≡ some pool
  pools : db'.pools ≡ put pool_id (mint pool amount position.shares) db.pools
  positions : db'.positions ≡ position ∷ db.positions
  pool_of : position.pool_id ≡ pool_id
  minted : position.shares ≡ shares_for_deposit amount pool.index_ray

deposit-Deposited :
    (db : VaultDb) (user_id pool_id amount now : ℕ) {db' : VaultDb}
    → deposit db user_id pool_id amount now ≡ ok db'
    → (pool : Pool) × (position : Position) × Deposited db db' pool_id amount pool position
unfolding deposit
deposit-Deposited db user_id pool_id amount now h = elim (Option-cases (db.pools pool_id)) [
  | inl e ↦ absurd (ground arith)
  | inr (pool, e) ↦ (
    pool,
    record {
      id = db.next_id;
      user_id = user_id;
      pool_id = pool_id;
      shares = shares_for_deposit amount pool.index_ray;
      principal = amount;
      matures_at = now + pool.term_days * 86400000;
    },
    record {
      found = e;
      pools = ground arith;
      positions = ground arith;
      pool_of = refl;
      minted = refl;
    },
  )
]

-- What a withdrawal that goes through has written.
record Withdrawn (db db' : VaultDb) (user_id position_id now burned : ℕ) (pool : Pool)
    (position : Position) : Type 0 where
  found : find_position position_id db.positions ≡ some position
  owned : position.user_id ≡ user_id
  pool_found : db.pools position.pool_id ≡ some pool
  within : burned ≤ position.shares
  pools :
      db'.pools
      ≡ put position.pool_id
          (burn pool burned (exit_amounts pool position burned (ltb now position.matures_at)))
          db.pools
  positions :
      db'.positions
      ≡ shrink position burned
          (exit_amounts pool position burned (ltb now position.matures_at))
          db.positions

abbrev pub burned_of : Option ℕ → Position → ℕ
burned_of none position = position.shares
burned_of (some s) position = s

withdraw-Withdrawn :
    (db : VaultDb) (user_id position_id : ℕ) (shares : Option ℕ) (now : ℕ) {db' : VaultDb}
    → withdraw db user_id position_id shares now ≡ ok db'
    → (pool : Pool) × (position : Position) × Withdrawn db db' user_id position_id now
        (burned_of shares position)
        pool
        position
unfolding withdraw
withdraw-Withdrawn db user_id position_id shares now h =
    elim (Option-cases (find_position position_id db.positions)) [
      | inl e ↦ absurd (ground arith)
      | inr (position, e) ↦ elim (Option-cases (db.pools position.pool_id)) [
        | inl f ↦ absurd (ground arith)
        | inr (pool, f) ↦ (
          pool,
          position,
          record {
            found = e;
            owned = ground arith;
            pool_found = f;
            within = ground arith;
            pools = ground arith;
            positions = ground arith;
          },
        )
      ]
    ]

burn-shares :
    (pool : Pool) (burned : ℕ) (exit : Exit)
    → (burn pool burned exit).total_shares ≡ pool.total_shares - burned
unfolding burn
burn-shares pool burned exit = ground arith

-- Every pool is backed, and its shares are those of its positions.
pub record IsSound (db : VaultDb) : Type 0 where
  pub backed : (k : ℕ) (pool : Pool) → db.pools k ≡ some pool → IsBacked pool
  pub shared :
      (k : ℕ) (pool : Pool) → db.pools k ≡ some pool → pool.total_shares ≡ sum_shares k db.positions

-- Every deposit that goes through keeps the vault sound.
pub deposit-IsSound :
    (db : VaultDb) (user_id pool_id amount now : ℕ) {db' : VaultDb}
    → IsSound db
    → deposit db user_id pool_id amount now ≡ ok db'
    → IsSound db'
unfolding mint
deposit-IsSound db user_id pool_id amount now {db'} sound h =
    let (pool, position, d) = deposit-Deposited db user_id pool_id amount now h in
    let minted =
      rw (← d.minted) at (mint-IsBacked pool amount (sound.backed pool_id pool d.found)) in
    record {
      backed = λ k q e. elim (ℕ_discrete pool_id k) [
        | yes same ↦
            let here : q ≡ mint pool amount position.shares = ground (arith, d.pools) in
            rw here minted
        | no other ↦ sound.backed k q (ground (arith, d.pools))
      ];
      shared = λ k q e. elim (ℕ_discrete pool_id k) [
        | yes same ↦
            ground (arith, d.pools, d.positions, d.pool_of, sound.shared pool_id pool d.found)
        | no other ↦ ground (arith, d.pools, d.positions, d.pool_of, sound.shared k q)
      ];
    }

-- Every withdrawal that goes through keeps the vault sound.
pub withdraw-IsSound :
    (db : VaultDb) (user_id position_id : ℕ) (shares : Option ℕ) (now : ℕ) {db' : VaultDb}
    → IsSound db
    → withdraw db user_id position_id shares now ≡ ok db'
    → IsSound db'
withdraw-IsSound db user_id position_id shares now {db'} sound h =
    let (pool, position, w) = withdraw-Withdrawn db user_id position_id shares now h in
    let burned = burned_of shares position in
    let early = ltb now position.matures_at in
    let exit = exit_amounts pool position burned early in
    let burnt =
      burn-IsBacked pool position burned early (sound.backed position.pool_id pool w.pool_found) in
    let found = rw (← find_position-id position_id db.positions position w.found) at w.found in
    record {
      backed = λ k q e. elim (ℕ_discrete position.pool_id k) [
        | yes same ↦ let here : q ≡ burn pool burned exit = ground (arith, w.pools) in rw here burnt
        | no other ↦ sound.backed k q (ground (arith, w.pools))
      ];
      shared = λ k q e.
          let left = sum_shares-shrink k position burned exit db.positions found w.within in
          elim (ℕ_discrete position.pool_id k) [
            | yes same ↦
                let here : q ≡ burn pool burned exit = ground (arith, w.pools) in
                ground (
                  arith,
                  here,
                  w.positions,
                  left,
                  burn-shares pool burned exit,
                  sound.shared position.pool_id pool w.pool_found,
                  find_position-le k position_id db.positions position w.found,
                )
            | no other ↦ ground (arith, w.pools, w.positions, left, sound.shared k q)
          ];
    }

-- In a sound vault a position can always be paid: what a withdrawal of it gives is in the pool.
pub withdraw-payable :
    (db : VaultDb) (position_id burned : ℕ) (position : Position) (pool : Pool) (early : Bool)
    → IsSound db
    → find_position position_id db.positions ≡ some position
    → db.pools position.pool_id ≡ some pool
    → burned ≤ position.shares
    → (exit_amounts pool position burned early).net ≤ pos_part pool.total_assets
withdraw-payable db position_id burned position pool early sound found pool_found h =
    burn-payable pool position burned early (sound.backed position.pool_id pool pool_found) (
      ground (
        arith,
        sound.shared position.pool_id pool pool_found,
        find_position-le position.pool_id position_id db.positions position found,
      ))

-- The price of a pool's shares never falls by a withdrawal that leaves shares.
pub burn-index_mono :
    (pool : Pool) (position : Position) (burned : ℕ) (early : Bool)
    → burned < pool.total_shares
    → pool.index_ray ≤ (burn pool burned (exit_amounts pool position burned early)).index_ray
unfolding burn
burn-index_mono pool position burned early h = ground (
  arith,
  apply_accrual_mono pool.index_ray (pool.total_shares - burned)
      (exit_amounts pool position burned early).penalty,
)
