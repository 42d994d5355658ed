-- ===== src/Ledger/Tests.antt =====
-- Runs of apps/api/src/prisma/apply-balance-delta.ts, and the theorems about it at concrete inputs.
use scadium.Prelude.{
  ◌≡◌, refl, ◌⊎◌, ◌↔◌, true, false, none, some, [], ◌∷◌, arith, ok, err, bad_request, Check, put,
  Table,
}
use scadium.Prelude.Int.{pos, negsuc, ◌+ℤ◌, ◌-ℤ◌, ◌≤ℤ◌}
use scadium.Ledger.{
  jeton, scad, User, Accounts, Meta, balance, set_balance, move, debit, credit, record_move,
  apply_balance_delta, derive_balance,
}
use scadium.Ledger.Moves.{Applied, apply_balance_delta-Applied, row_of}
use scadium.Ledger.Invariant.{
  IsSolvent, IsProjection, latest, apply_balance_delta-IsSolvent, apply_balance_delta-IsProjection,
}
use scadium.Ledger.Limits.{apply_balance_delta_refused, derive_balance_mixes, IsDerived}

-- A player with 100 lamports to play with and 7 SCAD base units.
abbrev player : User
player = record {
  banned = false;
  play_balance_lamports = pos 100;
  scadium_balance = pos 7;
  scadium_staked = pos 0;
  usds_balance = pos 0;
  scadium_vault = pos 0;
  total_wagered = 0;
  total_won = 0;
  total_lost = 0;
  games_played = 0;
  biggest_win = 0;
}

abbrev no_users : Table User
no_users j = none

abbrev opened : Accounts
opened = record { users = put 1 player no_users; ledger = [] }

abbrev bet_meta : Meta
bet_meta = record {
  reason = "mines_bet";
  ref_type = "InstantRound";
  ref_id = none;
  currency = jeton;
  max_balance = none;
}

abbrev claim_meta : Meta
claim_meta = record bet_meta { reason = "reward"; ref_type = "RewardClaim"; currency = scad }

abbrev top_up_meta : Meta
top_up_meta = record bet_meta {
  reason = "top_up";
  ref_type = "Payment";
  max_balance = some (pos 150);
}

abbrev after_bet : Accounts
after_bet = record {
  users = put 1 (record player { play_balance_lamports = pos 70 }) opened.users;
  ledger = row_of 1 (negsuc 29) bet_meta (pos 70) ∷ [];
}

abbrev after_claim : Accounts
after_claim = record {
  users = put 1 (record player { scadium_balance = pos 12 }) opened.users;
  ledger = row_of 1 (pos 5) claim_meta (pos 12) ∷ [];
}

abbrev after_top_up : Accounts
after_top_up = record {
  users = put 1 (record player { play_balance_lamports = pos 150 }) opened.users;
  ledger = row_of 1 (pos 50) top_up_meta (pos 150) ∷ [];
}

bet_runs : apply_balance_delta opened 1 (negsuc 29) bet_meta ≡ ok (pos 70, after_bet)
unfolding apply_balance_delta move debit record_move balance set_balance ◌+ℤ◌ ◌-ℤ◌
bet_runs = refl

claim_runs : apply_balance_delta opened 1 (pos 5) claim_meta ≡ ok (pos 12, after_claim)
unfolding apply_balance_delta move credit record_move balance set_balance ◌+ℤ◌ ◌-ℤ◌
claim_runs = refl

top_up_runs : apply_balance_delta opened 1 (pos 50) top_up_meta ≡ ok (pos 150, after_top_up)
unfolding apply_balance_delta move credit record_move balance set_balance ◌+ℤ◌ ◌-ℤ◌
top_up_runs = refl

top_up_over_cap :
    apply_balance_delta opened 1 (pos 51) top_up_meta ≡ err (bad_request Check.balance_cap)
unfolding apply_balance_delta move credit record_move balance set_balance ◌+ℤ◌ ◌-ℤ◌
top_up_over_cap = refl

opened-IsSolvent : IsSolvent opened
unfolding balance
opened-IsSolvent id c u h = ground arith

opened-IsProjection : IsProjection opened
unfolding latest
opened-IsProjection id c u b found recorded = cc

opened-IsDerived : IsDerived (λ _. pos 107) opened
unfolding derive_balance balance ◌+ℤ◌
opened-IsDerived id u h = ground arith

apply_balance_delta-Applied_example :
    (u : User) × Applied opened 1 (negsuc 29) bet_meta u (pos 70) after_bet
apply_balance_delta-Applied_example =
    apply_balance_delta-Applied opened 1 (negsuc 29) bet_meta bet_runs

apply_balance_delta-IsSolvent_example : IsSolvent after_bet
apply_balance_delta-IsSolvent_example =
    apply_balance_delta-IsSolvent opened 1 (negsuc 29) bet_meta opened-IsSolvent bet_runs

apply_balance_delta-IsProjection_example : IsProjection after_bet
apply_balance_delta-IsProjection_example =
    apply_balance_delta-IsProjection opened 1 (negsuc 29) bet_meta opened-IsProjection bet_runs

apply_balance_delta_refused_example :
    (apply_balance_delta opened 1 (negsuc 100) bet_meta
      ≡ err (bad_request Check.insufficient_balance))
    ↔ ((false ≡ true) ⊎ (¬ (pos 0 -ℤ negsuc 100 ≤ℤ balance jeton player)))
apply_balance_delta_refused_example = apply_balance_delta_refused opened 1 100 bet_meta player refl

derive_balance_mixes_example :
    (u : User) × (opened.users 1 ≡ some u)
    × (balance jeton (record player { scadium_balance = pos 12 }) ≡ balance jeton u)
    × (derive_balance after_claim.ledger 1 ≡ pos 5 +ℤ derive_balance opened.ledger 1)
derive_balance_mixes_example =
    derive_balance_mixes opened 1 (pos 5) claim_meta jeton _ (λ e. cc) claim_runs refl
