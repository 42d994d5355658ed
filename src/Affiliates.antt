-- ===== src/Affiliates.antt =====
-- apps/api/src/affiliates/affiliates.service.ts and `accrue` of
-- apps/api/src/proof-of-wager/proof-of-wager.service.ts: what a settled wager adds to the volumes and to the
-- commission of the referrer, and the claim of that commission. A rate is in parts per million.
pub mod Claims
pub mod Volumes
mod Tests
use scadium.Prelude.{
  ℕ, ◌+◌, ◌-◌, ◌*◌, ◌/◌, Bool, true, false, not, ◌&&◌, ◌||◌, Option, none, some, List, [], ◌∷◌, map,
  leb, ltb, ◌==◌, if◌then◌else◌, Result, ok, err, ◌>>=◌, ◌>>◌, raise_if, bad_request, Check, Table,
}
use scadium.Prelude.Int.{pos}
use scadium.Ledger.{Accounts, Meta, Currency, apply_balance_delta}
use scadium.Rounds.{GameType, Services}

-- The columns of `User` that referrals read: the hash is none when it is empty.
pub record Member : Type 0 where
  pub referred_by_id : Option ℕ
  pub signup_ip_hash : Option ℕ
  pub is_real : Bool

-- The row `Referral`, one for each referee.
pub record Referral : Type 0 where
  pub referrer_id : ℕ
  pub referee_id : ℕ
  pub volume_lamports : ℕ
  pub commission_lamports : ℕ
  pub commission_claimed_lamports : ℕ
  pub flagged : Bool

-- The row `WagerLeaderboard`.
pub record Volume : Type 0 where
  pub period : ℕ
  pub user_id : ℕ
  pub wagered_lamports : ℕ

-- What the services of a settlement keep: `economy_enforced` is the configuration, `daily` and `weekly` are the
-- keys of the current periods.
pub record Network : Type 0 where
  pub members : Table Member
  pub referrals : List Referral
  pub volumes : List Volume
  pub economy_enforced : Bool
  pub daily : ℕ
  pub weekly : ℕ

-- `AFFILIATE`, from the highest tier on.
abbrev pub tiers : List (ℕ × ℕ)
tiers = (1000000000000, 150000) ∷ (100000000000, 120000) ∷ (10000000000, 80000) ∷ (0, 50000) ∷ []

unfoldable pub tier_from : List (ℕ × ℕ) → ℕ → ℕ
tier_from [] volume = 50000
tier_from ((threshold, rate) ∷ lower) volume =
    let rest = tier_from lower volume in if leb threshold volume then rate else rest

-- `tierCommission`
unfoldable pub tier_commission : ℕ → ℕ
tier_commission volume = tier_from tiers volume

-- `GAME_HOUSE_EDGE`
unfoldable pub edge_ppm : GameType → ℕ
edge_ppm GameType.lottery = 0
edge_ppm GameType.blackjack = 5000
edge_ppm GameType.dice = 10000
edge_ppm game = 50000

abbrev pub ppm : ℕ
ppm = 1000000

-- `referralCommission`
unfoldable pub referral_commission : ℕ → GameType → ℕ → ℕ
referral_commission stake game rate = stake * edge_ppm game * rate / (ppm * ppm)

abbrev pub real_of : Option Member → Bool
real_of none = false
real_of (some m) = m.is_real

abbrev pub same_bool : Bool → Bool → Bool
same_bool true b = b
same_bool false b = not b

-- `sharesEconomy` of apps/api/src/custody/economy.ts
unfoldable pub shares_economy : Network → ℕ → ℕ → Bool
shares_economy n referrer_id referee_id =
    not n.economy_enforced
    || same_bool (real_of (n.members referrer_id)) (real_of (n.members referee_id))

abbrev pub hash_of : Option Member → Option ℕ
hash_of none = none
hash_of (some m) = m.signup_ip_hash

-- `sameIp`
unfoldable pub same_ip : Option ℕ → Option ℕ → Bool
same_ip none b = false
same_ip (some a) none = false
same_ip (some a) (some b) = a == b

-- `aggregate` of the volumes of a referrer.
unfoldable pub referred_volume : ℕ → List Referral → ℕ
referred_volume referrer_id [] = 0
referred_volume referrer_id (r ∷ rows) =
    let rest = referred_volume referrer_id rows in
    if r.referrer_id == referrer_id then r.volume_lamports + rest else rest

-- `upsert` by the referee.
unfoldable pub upsert_referral : ℕ → ℕ → ℕ → ℕ → Bool → List Referral → List Referral
upsert_referral referrer_id referee_id stake commission same [] =
    record {
      referrer_id = referrer_id;
      referee_id = referee_id;
      volume_lamports = stake;
      commission_lamports = commission;
      commission_claimed_lamports = 0;
      flagged = same;
    }
    ∷ []
upsert_referral referrer_id referee_id stake commission same (r ∷ rows) =
    if r.referee_id == referee_id
    then record r {
      volume_lamports = r.volume_lamports + stake;
      commission_lamports = r.commission_lamports + commission;
      flagged = r.flagged || same;
    }
      ∷ rows
    else r ∷ upsert_referral referrer_id referee_id stake commission same rows

-- The commission of one wager.
unfoldable pub commission_of : Network → ℕ → ℕ → Bool → ℕ → GameType → ℕ
commission_of n referrer_id referee_id same stake game =
    if not same && shares_economy n referrer_id referee_id
    then referral_commission stake game (tier_commission (referred_volume referrer_id n.referrals))
    else 0

-- `creditReferral` for a user that someone referred.
unfoldable pub credit_referrer : Network → ℕ → ℕ → Member → ℕ → GameType → Network
credit_referrer n referrer_id referee_id referee stake game =
    let same = same_ip referee.signup_ip_hash (hash_of (n.members referrer_id)) in
    record n {
      referrals =
          upsert_referral referrer_id referee_id stake
            (commission_of n referrer_id referee_id same stake game) same n.referrals;
    }

-- `creditReferral`
unfoldable pub credit_referral : Network → ℕ → ℕ → GameType → Network
credit_referral n referee_id stake game = if stake == 0 then n else elim (n.members referee_id) [
  | none ↦ n
  | some referee ↦ elim referee.referred_by_id [
    | none ↦ n
    | some referrer_id ↦ credit_referrer n referrer_id referee_id referee stake game
  ]
]

-- `upsert` by the period and the user.
unfoldable pub upsert_volume : ℕ → ℕ → ℕ → List Volume → List Volume
upsert_volume period user_id stake [] =
    record { period = period; user_id = user_id; wagered_lamports = stake } ∷ []
upsert_volume period user_id stake (v ∷ rows) =
    if v.period == period && v.user_id == user_id
    then record v { wagered_lamports = v.wagered_lamports + stake } ∷ rows
    else v ∷ upsert_volume period user_id stake rows

-- `accrue`, which records volume and no longer credits a balance.
unfoldable pub accrue : Network → ℕ → ℕ → Network
accrue n user_id stake = if stake == 0 then n else record n {
  volumes = upsert_volume n.weekly user_id stake (upsert_volume n.daily user_id stake n.volumes);
}

-- The services of a settlement; the wager gate is one of responsible gaming.
unfoldable pub engine : (Network → Accounts → ℕ → ℕ → Result (Unit {0})) → Services Network
engine gate = record {
  assert_can_wager = gate;
  accrue = λ n accounts user_id game stake. ok (accrue n user_id stake, accounts);
  credit_referral = λ n user_id stake game. ok (credit_referral n user_id stake game);
}

-- What a row that is not flagged still owes.
abbrev pub claimable : ℕ → Referral → ℕ
claimable user_id r =
    if r.referrer_id == user_id && not r.flagged
    then r.commission_lamports - r.commission_claimed_lamports
    else 0

unfoldable pub total_claimable : ℕ → List Referral → ℕ
total_claimable user_id [] = 0
total_claimable user_id (r ∷ rows) = claimable user_id r + total_claimable user_id rows

-- The advance of the claimed marker.
abbrev pub advance : ℕ → Referral → Referral
advance user_id r =
    if ltb 0 (claimable user_id r)
    then record r { commission_claimed_lamports = r.commission_lamports }
    else r

abbrev pub claim_meta : Meta
claim_meta = record {
  reason = "affiliate_commission";
  ref_type = "Referral";
  ref_id = none;
  currency = Currency.jeton;
  max_balance = none;
}

-- `claim`
unfoldable pub claim : Network → Accounts → ℕ → Result (ℕ × Network × Accounts)
claim n accounts user_id = do
  let total = total_claimable user_id n.referrals
  raise_if (total == 0) (bad_request Check.no_commission)
  paid ← apply_balance_delta accounts user_id (pos total) claim_meta
  ok (total, record n { referrals = map (advance user_id) n.referrals }, paid.1)
