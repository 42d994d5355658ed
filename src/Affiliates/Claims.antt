-- ===== src/Affiliates/Claims.antt =====
-- The commission that apps/api/src/affiliates/affiliates.service.ts pays, over any sequence of wagers and claims.
use scadium.Ledger.Worth.{to_user}
use scadium.Prelude.{
  ℕ, ◌+◌, ◌*◌, ◌≤◌, ◌≡◌, inl, inr, refl, sym, ap, ◌∙◌, Bool, not, ◌&&◌, some, List, [], ◌∷◌, map,
  All, ltb, ◌==◌, if◌then◌else◌, arith, Bool-cases, Option-cases, ok, err, raise_if, bad_request,
  Check, >>=-eq-ok,
}
use scadium.Prelude.Int.{ℤ, pos, ◌+ℤ◌, +ℤ_parts, pos_part, neg_part}
use scadium.Ledger.{User, Accounts, Currency, balance, apply_balance_delta}
use scadium.Ledger.Moves.{apply_balance_delta-Applied, Applied-own}
use scadium.Rounds.{GameType}
use scadium.Affiliates.{
  Referral, Network, tier_commission, tier_from, edge_ppm, referral_commission, referred_volume,
  upsert_referral, commission_of, credit_referrer, credit_referral, shares_economy, same_ip,
  hash_of, accrue, claimable, total_claimable, advance, claim, claim_meta,
}

tier_commission-le : (volume : ℕ) → tier_commission volume ≤ 150000
unfolding tier_commission tier_from
tier_commission-le volume = ground arith

edge_ppm-le : (game : GameType) → edge_ppm game ≤ 50000
unfolding edge_ppm
edge_ppm-le game = ground arith

referral_commission-le :
    (stake : ℕ) (game : GameType) (rate : ℕ)
    → rate ≤ 150000
    → 400 * referral_commission stake game rate ≤ 3 * stake
unfolding referral_commission
referral_commission-le stake game rate h =
    let edge = edge_ppm-le game in
    let small : stake * edge_ppm game * rate ≤ stake * 50000 * 150000 = grind (arith, edge, h) in
    omega (arith, small)

commission_of-le :
    (n : Network) (referrer_id referee_id : ℕ) (same : Bool) (stake : ℕ) (game : GameType)
    → 400 * commission_of n referrer_id referee_id same stake game ≤ 3 * stake
unfolding commission_of
commission_of-le n referrer_id referee_id same stake game =
    elim (Bool-cases (not same && shares_economy n referrer_id referee_id)) [
      | inl earns ↦
          let rate = tier_commission (referred_volume referrer_id n.referrals) in
          rw earns (
            referral_commission-le stake game rate
              (tier_commission-le (referred_volume referrer_id n.referrals)))
      | inr nothing ↦ rw nothing (omega arith)
    ]

-- A row that owes no more than it earned, which is at most 3 in 400 of its volume.
record IsCovered (r : Referral) : Type 0 where
  claimed : r.commission_claimed_lamports ≤ r.commission_lamports
  earned : 400 * r.commission_lamports ≤ 3 * r.volume_lamports

-- What the rows of a referrer say was claimed, and earned.
unfoldable pub total_claimed : ℕ → List Referral → ℕ
total_claimed user_id [] = 0
total_claimed user_id (r ∷ rows) =
    (if r.referrer_id == user_id then r.commission_claimed_lamports else 0)
    + total_claimed user_id rows

unfoldable pub total_earned : ℕ → List Referral → ℕ
total_earned user_id [] = 0
total_earned user_id (r ∷ rows) =
    (if r.referrer_id == user_id then r.commission_lamports else 0) + total_earned user_id rows

covered-totals :
    (j : ℕ) (rows : List Referral)
    → All IsCovered rows
    → (total_claimed j rows ≤ total_earned j rows)
      × (400 * total_earned j rows ≤ 3 * referred_volume j rows)
unfolding total_claimed total_earned referred_volume
covered-totals j [] h = (omega arith, omega arith)
covered-totals j (r ∷ rows) h =
    let (less, bound) = covered-totals j rows h.1 in
    elim (Bool-cases (r.referrer_id == j)) [
      | inl own ↦ rw own (omega (arith, less, h.0.claimed), omega (arith, bound, h.0.earned))
      | inr other ↦ rw other (omega (arith, less), omega (arith, bound))
    ]

module _ (referrer_id referee_id stake commission : ℕ) (same : Bool) where
  upsert-IsCovered :
      (rows : List Referral)
      → 400 * commission ≤ 3 * stake
      → All IsCovered rows
      → All IsCovered (upsert_referral referrer_id referee_id stake commission same rows)
  unfolding upsert_referral
  upsert-IsCovered [] small h = (record { claimed = omega arith; earned = small }, tt)
  upsert-IsCovered (r ∷ rows) small h = elim (Bool-cases (r.referee_id == referee_id)) [
    | inl e ↦ rw e (
      record { claimed = omega (arith, h.0.claimed); earned = omega (arith, h.0.earned, small) },
      h.1,
    )
    | inr e ↦ rw e (h.0, upsert-IsCovered rows small h.1)
  ]

  upsert-claimed :
      (j : ℕ) (rows : List Referral)
      → total_claimed j (upsert_referral referrer_id referee_id stake commission same rows)
        ≡ total_claimed j rows
  unfolding upsert_referral total_claimed
  upsert-claimed j [] = ground arith
  upsert-claimed j (r ∷ rows) = elim (Bool-cases (r.referee_id == referee_id)) [
    | inl e ↦ rw e refl
    | inr e ↦ rw (e, upsert-claimed j rows) refl
  ]

advance-IsCovered :
    (user_id : ℕ) (rows : List Referral)
    → All IsCovered rows
    → All IsCovered (map (advance user_id) rows)
advance-IsCovered user_id [] h = tt
advance-IsCovered user_id (r ∷ rows) h = (
  elim (Bool-cases (ltb 0 (claimable user_id r))) [
    | inl e ↦ rw e (record { claimed = omega arith; earned = h.0.earned })
    | inr e ↦ rw e h.0
  ],
  advance-IsCovered user_id rows h.1,
)

advance-claimed :
    (user_id j : ℕ) (rows : List Referral)
    → All IsCovered rows
    → total_claimed j (map (advance user_id) rows)
      ≡ total_claimed j rows + to_user user_id (total_claimable user_id rows) j
unfolding total_claimed total_claimable
advance-claimed user_id j [] h = ground arith
advance-claimed user_id j (r ∷ rows) h =
    let rest = advance-claimed user_id j rows h.1 in
    let less = h.0.claimed in grind (arith, rest, less)

advance-nothing :
    (user_id : ℕ) (rows : List Referral) → total_claimable user_id (map (advance user_id) rows) ≡ 0
unfolding total_claimable
advance-nothing user_id [] = refl
advance-nothing user_id (r ∷ rows) = grind (arith, advance-nothing user_id rows)

-- What a claim writes and pays.
claim-writes :
    (n : Network) (a : Accounts) (user_id : ℕ) {total : ℕ} {n' : Network} {a' : Accounts}
    → claim n a user_id ≡ ok (total, n', a')
    → (total ≡ total_claimable user_id n.referrals)
      × (n'.referrals ≡ map (advance user_id) n.referrals)
      × ((b : ℤ) × (apply_balance_delta a user_id (pos total) claim_meta ≡ ok (b, a')))
unfolding claim
claim-writes n a user_id {total} {n'} {a'} h =
    let (u, some_due, h₁) =
      >>=-eq-ok
        (raise_if (total_claimable user_id n.referrals == 0) (bad_request Check.no_commission)) _
        h in
    let ((b, paid), done, h₂) =
      >>=-eq-ok
        (apply_balance_delta a user_id (pos (total_claimable user_id n.referrals)) claim_meta) _
        h₁ in
    let due : total ≡ total_claimable user_id n.referrals = ground arith in
    let rows : n'.referrals ≡ map (advance user_id) n.referrals = ground arith in
    let same : paid ≡ a' = ground arith in (due, rows, (b, rw (due, ← same) done))

-- Of a balance that grew by an amount, the amount.
same_gain : (b : ℤ) (m n : ℕ) → b +ℤ pos m ≡ b +ℤ pos n → m ≡ n
same_gain b m n e =
    omega (arith, +ℤ_parts b (pos m), +ℤ_parts b (pos n), ap pos_part e, ap neg_part e)

-- What a claim adds to the play balance of its user is the amount that it reports.
claim-gain :
    (n : Network) (a : Accounts) (user_id gain : ℕ) {total : ℕ} {n' : Network} {a' : Accounts}
    (u u' : User)
    → claim n a user_id ≡ ok (total, n', a')
    → a.users user_id ≡ some u
    → a'.users user_id ≡ some u'
    → balance Currency.jeton u' ≡ balance Currency.jeton u +ℤ pos gain
    → gain ≡ total
claim-gain n a user_id gain {total} u u' h before after grown =
    let (due, rows, (b, done)) = claim-writes n a user_id h in
    let (v, m) = apply_balance_delta-Applied a user_id (pos total) claim_meta done in
    let same : v ≡ u = some_eq v u (sym m.found ∙ before) in
    same_gain (balance Currency.jeton u) gain total (
      sym grown
      ∙ Applied-own m u' after
      ∙ m.after
      ∙ ap (λ x. balance Currency.jeton x +ℤ pos total) same)
  where
    some_eq : (x y : User) → some x ≡ some y → x ≡ y
    some_eq x y e = cc

-- Wagers and claims in any order; `paid` is by how much the claims have raised each user's play balance.
pub data Activity : Network → (ℕ → ℕ) → Type 0 where
  opened : (n : Network) → n.referrals ≡ [] → Activity n (λ j. 0)
  accrued :
      {n : Network} {paid : ℕ → ℕ} (user_id stake : ℕ)
      → Activity n paid
      → Activity (accrue n user_id stake) paid
  credited :
      {n : Network} {paid : ℕ → ℕ} (referee_id stake : ℕ) (game : GameType)
      → Activity n paid
      → Activity (credit_referral n referee_id stake game) paid
  claimed :
      {n n' : Network} {paid : ℕ → ℕ} (a a' : Accounts) (user_id total gain : ℕ) (u u' : User)
      → Activity n paid
      → claim n a user_id ≡ ok (total, n', a')
      → a.users user_id ≡ some u
      → a'.users user_id ≡ some u'
      → balance Currency.jeton u' ≡ balance Currency.jeton u +ℤ pos gain
      → Activity n' (λ j. paid j + to_user user_id gain j)

record IsPaid (n : Network) (paid : ℕ → ℕ) : Type 0 where
  covered : All IsCovered n.referrals
  total : (j : ℕ) → paid j ≡ total_claimed j n.referrals

credit_referral-IsPaid :
    (n : Network) (paid : ℕ → ℕ) (referee_id stake : ℕ) (game : GameType)
    → IsPaid n paid
    → IsPaid (credit_referral n referee_id stake game) paid
unfolding credit_referral credit_referrer
credit_referral-IsPaid n paid referee_id stake game h = elim (Bool-cases (stake == 0)) [
  | inl nothing ↦ rw (nothing, credit_referral) h
  | inr staked ↦ elim (Option-cases (n.members referee_id)) [
    | inl unknown ↦ rw (staked, unknown, credit_referral) h
    | inr (referee, found) ↦ elim (Option-cases referee.referred_by_id) [
      | inl alone ↦ rw (staked, found, alone, credit_referral) h
      | inr (referrer_id, referred) ↦
          let same = same_ip referee.signup_ip_hash (hash_of (n.members referrer_id)) in
          let commission = commission_of n referrer_id referee_id same stake game in
          rw (staked, found, referred, credit_referral)
            (record {
              covered =
                  upsert-IsCovered referrer_id referee_id stake commission same n.referrals
                    (commission_of-le n referrer_id referee_id same stake game) h.covered;
              total = λ j.
                  h.total j
                  ∙ sym (upsert-claimed referrer_id referee_id stake commission same j n.referrals);
            })
    ]
  ]
]

Activity-IsPaid : {n : Network} {paid : ℕ → ℕ} → Activity n paid → IsPaid n paid
unfolding accrue total_claimed
Activity-IsPaid (opened n e) = record { covered = rw e tt; total = λ j. rw e refl }
Activity-IsPaid (accrued {n} {paid} user_id stake before) =
    let h = Activity-IsPaid before in
    elim (Bool-cases (stake == 0)) [
      | inl nothing ↦ rw (nothing, accrue) h
      | inr staked ↦ rw (staked, accrue) (record { covered = h.covered; total = h.total })
    ]
Activity-IsPaid (credited {n} {paid} referee_id stake game before) =
    credit_referral-IsPaid n paid referee_id stake game (Activity-IsPaid before)
Activity-IsPaid (claimed {n} {n'} {paid} a a' user_id total gain u u' before e start end grown) =
    let h = Activity-IsPaid before in
    let (due, rows, done) = claim-writes n a user_id e in
    record {
      covered = rw rows (advance-IsCovered user_id n.referrals h.covered);
      total = λ j.
          rw (rows, claim-gain n a user_id gain u u' e start end grown ∙ due)
            (ap (λ k. k + to_user user_id (total_claimable user_id n.referrals) j) (h.total j)
              ∙ sym (advance-claimed user_id j n.referrals h.covered));
    }

-- Whatever is wagered and claimed, and in whatever order: the amount by which the claims have raised a referrer's
-- play balance is what the rows say was claimed, no more than they earned, and that is at most 3 in 400 of the volume that was referred.
pub Activity-paid :
    {n : Network} {paid : ℕ → ℕ}
    → Activity n paid
    → (j : ℕ)
    → (paid j ≡ total_claimed j n.referrals)
      × (paid j ≤ total_earned j n.referrals)
      × (400 * total_earned j n.referrals ≤ 3 * referred_volume j n.referrals)
Activity-paid {n} {paid} run j =
    let h = Activity-IsPaid run in
    let (less, bound) = covered-totals j n.referrals h.covered in
    (h.total j, omega (arith, h.total j, less), bound)

-- A claim adds the amount that it reports, and nothing else, to the play balance; a second one right after is
-- refused, whatever the accounts are by then.
pub claim-pays :
    (n : Network) (a : Accounts) (user_id : ℕ) {total : ℕ} {n' : Network} {a' : Accounts}
    (u' : User)
    → claim n a user_id ≡ ok (total, n', a')
    → a'.users user_id ≡ some u'
    → ((u : User) × (a.users user_id ≡ some u)
        × (balance Currency.jeton u' ≡ balance Currency.jeton u +ℤ pos total))
      × ((later : Accounts) → claim n' later user_id ≡ err (bad_request Check.no_commission))
unfolding claim
claim-pays n a user_id {total} {n'} {a'} u' h found =
    let (due, rows, (b, done)) = claim-writes n a user_id h in
    let (u, m) = apply_balance_delta-Applied a user_id (pos total) claim_meta done in
    let nothing : total_claimable user_id n'.referrals ≡ 0 =
      ap (total_claimable user_id) rows ∙ advance-nothing user_id n.referrals in
    ((u, m.found, Applied-own m u' found ∙ m.after), λ later. rw (nothing, claim) refl)
