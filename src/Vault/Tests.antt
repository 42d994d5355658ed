-- ===== src/Vault/Tests.antt =====
-- Runs of the vault (apps/api/src/vault), and the theorems about it at concrete inputs.
use scadium.Prelude.{
  ◌+◌, ◌*◌, ◌<◌, ◌≤◌, ◌≡◌, refl, sym, subst, true, false, none, some, [], ◌∷◌, arith, Result, ok,
  err, Table, put,
}
use scadium.Prelude.Int.{pos, negsuc, ◌+ℤ◌, ◌-ℤ◌}
use scadium.Ledger.{
  User, Currency, balance, set_balance, apply_balance_delta, move, debit, credit, record_move,
}
use scadium.Ledger.Moves.{row_of}
use scadium.Ledger.Invariant.{IsSolvent}
use scadium.Vault.Shares.{
  ray, shares_for_deposit, assets_for_shares, apply_accrual, early_exit_penalty,
  lamports_to_scad_base, vault_yield_slice_lamports,
}
use scadium.Vault.Service.{
  Pool, Position, VaultEvent, VaultDb, EventKind, find_position, replace_position, mint, deposit,
  deposit_meta, vault_meta, exit_amounts, burn, pay_out, shrink, withdraw,
}
use scadium.Vault.Service.Backing.{IsBacked}
use scadium.Vault.Service.Sound.{IsSound, deposit-IsSound, withdraw-IsSound, withdraw-payable}
use scadium.Vault.Accrual.{
  Round, AccrualDb, read_pools, pool_yield, apr_bps_of, credit_pool, credit_one, credit_pools, plan,
  commit, accrue,
}
use scadium.Vault.Accrual.Sound.{accrue-IsSound}
use scadium.Vault.Accrual.Stale.{credit_pool_stale}
use scadium.Vault.Strategy.{
  Snapshot, plan_rebalance, investable_excess, divest_for_buffer_floor, buffer_target_assets,
  invest,
}
use scadium.Vault.Strategy.Plans.{plan_rebalance_safe, IsSafeMove}
use scadium.Vault.Shares.Price.{assets_for_shares-shares_for_deposit}

abbrev saver : User
saver = record {
  banned = false;
  play_balance_lamports = pos 0;
  scadium_balance = pos 5000000000;
  scadium_staked = pos 0;
  usds_balance = pos 0;
  scadium_vault = pos 0;
  total_wagered = 0;
  total_won = 0;
  total_lost = 0;
  games_played = 0;
  biggest_win = 0;
}

abbrev new_pool : Pool
new_pool = record {
  active = true;
  term_days = 30;
  weight_bps = 1000;
  apr_bps = 0;
  index_ray = ray;
  total_assets = pos 0;
  total_shares = 0;
}

abbrev no_rows : (A : Type 0) → Table A
no_rows A j = none

abbrev opened : VaultDb
opened = record {
  accounts = record { users = put 1 saver (no_rows User); ledger = [] };
  pools = put 3 new_pool (no_rows Pool);
  positions = [];
  events = [];
  next_id = 10;
}

abbrev saver_debited : User
saver_debited = record saver { scadium_balance = pos 3000000000 }

abbrev saver_locked : User
saver_locked = record saver_debited { scadium_vault = pos 2000000000 }

abbrev position_10 : Position
position_10 = record {
  id = 10;
  user_id = 1;
  pool_id = 3;
  shares = 2000000000;
  principal = 2000000000;
  matures_at = 2592000000;
}

abbrev deposit_event : VaultEvent
deposit_event = record {
  user_id = some 1;
  pool_id = 3;
  kind = EventKind.deposited;
  assets_delta = pos 2000000000;
  shares_delta = pos 2000000000;
  penalty_assets = 0;
  index_ray_after = ray;
}

abbrev full_pool : Pool
full_pool = record new_pool { total_assets = pos 2000000000; total_shares = 2000000000 }

abbrev locked : VaultDb
locked = record {
  accounts = record {
    users = put 1 saver_locked (put 1 saver_debited opened.accounts.users);
    ledger =
        row_of 1 (pos 2000000000) (deposit_meta Currency.scad_vault 3) (pos 2000000000)
        ∷ row_of 1 (negsuc 1999999999) (deposit_meta Currency.scad 3) (pos 3000000000)
        ∷ [];
  };
  pools = put 3 full_pool opened.pools;
  positions = position_10 ∷ [];
  events = deposit_event ∷ [];
  next_id = 11;
}

deposit_runs : deposit opened 1 3 2000000000 0 ≡ ok locked
unfolding deposit mint shares_for_deposit apply_balance_delta move debit credit record_move balance
    set_balance ◌+ℤ◌ ◌-ℤ◌
deposit_runs = refl

abbrev get_ok {ℓ} : {A : Type ℓ} → Result A → A → A
get_ok (ok a) d = a
get_ok (err e) d = d

abbrev exited : VaultDb
exited = get_ok (withdraw locked 1 10 (some 1000000000) 1000) opened

-- Half the position leaves early: a tenth of it stays, and raises the price of the other half.
abbrev after_exit : VaultDb
after_exit = record {
  accounts = record {
    users =
        put 1 (record saver { scadium_balance = pos 3900000000; scadium_vault = pos 1000000000 })
          (put 1 (record saver_debited { scadium_vault = pos 1000000000 }) locked.accounts.users);
    ledger =
        row_of 1 (pos 900000000) (vault_meta Currency.scad 10 true) (pos 3900000000)
        ∷ row_of 1 (negsuc 999999999) (vault_meta Currency.scad_vault 10 true) (pos 1000000000)
        ∷ locked.accounts.ledger;
  };
  pools =
      put 3
        (record full_pool {
          total_assets = pos 1100000000;
          total_shares = 1000000000;
          index_ray = 1100000000000000000;
        })
        locked.pools;
  positions = record position_10 { shares = 1000000000; principal = 1000000000 } ∷ [];
  events =
      record {
        user_id = some 1;
        pool_id = 3;
        kind = EventKind.early_exit;
        assets_delta = negsuc 899999999;
        shares_delta = negsuc 999999999;
        penalty_assets = 100000000;
        index_ray_after = 1100000000000000000;
      }
      ∷ locked.events;
  next_id = 11;
}

withdraw_runs : withdraw locked 1 10 (some 1000000000) 1000 ≡ ok after_exit
unfolding withdraw find_position exit_amounts burn pay_out shrink replace_position assets_for_shares
    early_exit_penalty apply_accrual apply_balance_delta move debit credit record_move balance
    set_balance ◌+ℤ◌ ◌-ℤ◌
withdraw_runs = refl

new_pool-IsBacked : IsBacked new_pool
new_pool-IsBacked = record { priced = omega arith; nonneg = omega arith; covered = omega arith }

opened-IsSound : IsSound opened
opened-IsSound = record {
  backed = λ k q e.
      let here : q ≡ new_pool = ground arith in subst IsBacked (sym here) new_pool-IsBacked;
  shared = λ k q e. ground arith;
}

opened-IsSolvent : IsSolvent opened.accounts
unfolding balance
opened-IsSolvent id c u h = ground arith

deposit-IsSound_example : IsSound locked
deposit-IsSound_example = deposit-IsSound opened 1 3 2000000000 0 opened-IsSound deposit_runs

locked-IsSound : IsSound locked
locked-IsSound = deposit-IsSound opened 1 3 2000000000 0 opened-IsSound deposit_runs

withdraw-IsSound_example : IsSound after_exit
withdraw-IsSound_example =
    withdraw-IsSound locked 1 10 (some 1000000000) 1000 locked-IsSound withdraw_runs

found_10 : find_position 10 locked.positions ≡ some position_10
unfolding find_position
found_10 = refl

withdraw-payable_example : (exit_amounts full_pool position_10 2000000000 true).net ≤ 2000000000
withdraw-payable_example =
    withdraw-payable locked 10 2000000000 position_10 full_pool true locked-IsSound found_10 refl
      (omega arith)

-- An hour with 1000 lamports of revenue pays 80000 base units, under the minimum; one with a million lamports pays 80 million.
abbrev hourly : AccrualDb
hourly = record { vault = locked; rounds = no_rows Round }

abbrev accrued_pool : Pool
accrued_pool = record full_pool {
  index_ray = 1040000000000000000;
  total_assets = pos 2080000000;
  apr_bps = 3504000;
}

abbrev after_hour : AccrualDb
after_hour = record {
  vault = record locked {
    pools = put 3 accrued_pool locked.pools;
    events =
        record {
          user_id = none;
          pool_id = 3;
          kind = EventKind.accrued;
          assets_delta = pos 80000000;
          shares_delta = pos 0;
          penalty_assets = 0;
          index_ray_after = 1040000000000000000;
        }
        ∷ locked.events;
  };
  rounds =
      put 7
        (record {
          distributed = true;
          ngr_lamports = pos 1000000;
          yield_scad = 80000000;
          pool_count = 1;
        })
        (no_rows Round);
}

accrue_runs : accrue hourly 7 3000000 2000000 (3 ∷ []) ≡ ok after_hour
unfolding accrue plan commit read_pools credit_pools credit_one credit_pool pool_yield apr_bps_of
    apply_accrual assets_for_shares lamports_to_scad_base vault_yield_slice_lamports ◌+ℤ◌
accrue_runs = refl

accrue-IsSound_example : IsSound after_hour.vault
accrue-IsSound_example =
    accrue-IsSound hourly 7 3000000 2000000 (3 ∷ []) (tt, tt) locked-IsSound refl accrue_runs

-- A pool of two shares whose yield of two units was read before two more shares joined.
abbrev small_pool : Pool
small_pool = record new_pool { total_assets = pos 2; total_shares = 2 }

credit_pool_stale_example : ¬ (IsBacked (credit_pool small_pool (mint small_pool 2 2) 2))
credit_pool_stale_example =
    credit_pool_stale small_pool 2 2 2 (omega arith) (omega arith) (omega arith) refl refl
      (omega arith)

abbrev idle : Snapshot
idle = record {
  has_strategy = true;
  total_assets = 10000000000;
  liquid = 10000000000;
  invested = 0;
}

invest_planned : plan_rebalance idle ≡ invest 8500000000
unfolding plan_rebalance investable_excess divest_for_buffer_floor buffer_target_assets
invest_planned = refl

plan_rebalance_safe_example : IsSafeMove idle (plan_rebalance idle)
plan_rebalance_safe_example = plan_rebalance_safe idle

assets_for_shares-shares_for_deposit_example :
    (assets_for_shares (shares_for_deposit 1000000007 1100000000000000000) 1100000000000000000
      ≤ 1000000007)
    × (1000000007 * ray
        < (assets_for_shares (shares_for_deposit 1000000007 1100000000000000000) 1100000000000000000
              + 1)
            * ray
          + 1100000000000000000)
assets_for_shares-shares_for_deposit_example =
    assets_for_shares-shares_for_deposit 1000000007 1100000000000000000 (omega arith)
