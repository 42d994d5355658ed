-- ===== src/Coinflip/Guards.antt =====
-- The guards on the rows of flips: apps/api/src/games/coinflip/coinflip.service.ts.
use scadium.Prelude.{
  ℕ, ◌≡◌, inl, inr, refl, ◌∙◌, false, List, [], ◌∷◌, ◌==◌, if◌then◌else◌, arith, Bool-cases, ok,
  ◌>>=◌, raise_if, or_raise, forbidden, not_found, missing_row, unavailable, >>=-eq-ok, put,
}
use scadium.Prelude.Int.{pos, ◌-ℤ◌}
use scadium.Ledger.{Accounts, apply_balance_delta}
use scadium.Fair.Hash.{Text, Crypto}
use scadium.Fair.Derive.{derive_seed_context}
use scadium.Seeds.{Draws, SeedContext}
use scadium.Rounds.{Services, GameType, bump}
use scadium.Rounds.Stateful.{take_seed}
use scadium.Coinflip.{
  FlipStatus, Flip, FlipDb, Opponent, is_open, joinable, update_flip, guard_flip, flip_meta,
  take_other_side, settle_side, settle_sides, SideBet, payout_of, canonical_params,
}

-- No open flip has the id.
abbrev pub IsTaken : ℕ → List Flip → Type 0
IsTaken id flips = guard_flip (λ f. is_open f.status) id flips ≡ false

-- A write after which the flip is not open.
pub record Takes (change : Flip → Flip) : Type 0 where
  pub id : (f : Flip) → (change f).id ≡ f.id
  pub not_open : (f : Flip) → is_open (change f).status ≡ false

pub completed_closed : is_open FlipStatus.completed ≡ false
unfolding is_open
completed_closed = refl

pub resolving_closed : is_open FlipStatus.resolving ≡ false
unfolding is_open
resolving_closed = refl

pub cancelled_closed : is_open FlipStatus.cancelled ≡ false
unfolding is_open
cancelled_closed = refl

pub update-IsTaken :
    (id j : ℕ) (change : Flip → Flip) (flips : List Flip)
    → Takes change
    → IsTaken id flips
    → IsTaken id (update_flip j change flips)
unfolding guard_flip update_flip
update-IsTaken id j change [] takes h = h
update-IsTaken id j change (f ∷ flips) takes h = elim (Bool-cases (f.id == j)) [
  | inl e ↦ rw (e, takes.id f, takes.not_open f) (ground arith)
  | inr e ↦ rw e (ground (arith, update-IsTaken id j change flips takes))
]

pub update-closes :
    (id : ℕ) (change : Flip → Flip) (flips : List Flip)
    → Takes change
    → IsTaken id (update_flip id change flips)
unfolding guard_flip update_flip
update-closes id change [] takes = refl
update-closes id change (f ∷ flips) takes = elim (Bool-cases (f.id == id)) [
  | inl e ↦ rw (e, takes.id f, takes.not_open f, e) refl
  | inr e ↦ rw (e, e) (update-closes id change flips takes)
]

-- What is joinable is open.
pub taken-joinable :
    (now id : ℕ) (flips : List Flip) → IsTaken id flips → guard_flip (joinable now) id flips ≡ false
unfolding guard_flip joinable
taken-joinable now id [] h = refl
taken-joinable now id (f ∷ flips) h = elim (Bool-cases (f.id == id)) [
  | inl e ↦ rw e (ground arith)
  | inr e ↦ rw e (taken-joinable now id flips (ground arith))
]

pub take_other_side-flips :
    {E : Type 0} (crypto : Crypto) (draws : Draws) (game : Flip) (opponent : Opponent)
    (db : FlipDb E) {r : SeedContext × Text × FlipDb E}
    → take_other_side crypto draws game opponent db ≡ ok r
    → r.2.flips ≡ db.flips
unfolding take_other_side
take_other_side-flips crypto draws game Opponent.house db {r} h = ground arith
take_other_side-flips crypto draws game (Opponent.player user_id reserved entropy) db {r} h =
    let (joiner, here, h₁) = >>=-eq-ok (or_raise (db.accounts.users user_id) not_found) _ h in
    let (u, welcome, h₂) = >>=-eq-ok (raise_if joiner.banned forbidden) _ h₁ in
    let (debited, done, h₃) =
      >>=-eq-ok
        (apply_balance_delta db.accounts user_id (pos 0 -ℤ pos game.amount_lamports)
          (flip_meta "coinflip_stake" "CoinflipGame" game.id))
        _ h₂ in
    let taken = take_seed crypto draws db.seeds user_id reserved in
    let (seed, derived, h₄) =
      >>=-eq-ok
        (or_raise
          (derive_seed_context crypto
            (record {
              server_seed = game.server_seed;
              client_seed = taken.0.client_seed;
              nonce = taken.0.nonce;
            })
            entropy canonical_params)
          unavailable)
        _ h₃ in
    ground arith

module _ {E : Type 0} (services : Services E) where
  pub settle_side-flips :
      (game : Flip) (nonce : ℕ) (s : SideBet) (db : FlipDb E) {db' : FlipDb E}
      → settle_side services game nonce s db ≡ ok db'
      → db'.flips ≡ db.flips
  unfolding settle_side
  settle_side-flips game nonce (user_id, won) db {db'} h =
      let stake = game.amount_lamports in
      let (user, here, h₁) = >>=-eq-ok (or_raise (db.accounts.users user_id) missing_row) _ h in
      let bumped : Accounts = record db.accounts {
        users = put user_id (bump stake (payout_of services stake won) user) db.accounts.users;
      } in
      let (accrued, counted, h₂) =
        >>=-eq-ok (services.accrue db.rest bumped user_id GameType.coinflip stake) _ h₁ in
      let (paid, done, h₃) =
        >>=-eq-ok
          (if won
            then (apply_balance_delta accrued.1 user_id (pos (payout_of services stake won))
                  (flip_meta "coinflip_payout" "Bet" db.next_id)
                >>= λ r. ok r.1)
            else ok accrued.1)
          _ h₂ in
      let (rest, referred, h₄) =
        >>=-eq-ok (services.credit_referral accrued.0 user_id stake GameType.coinflip) _ h₃ in
      ground arith

  pub settle_sides-flips :
      (game : Flip) (nonce : ℕ) (sides : List SideBet) (db : FlipDb E) {db' : FlipDb E}
      → settle_sides services game nonce sides db ≡ ok db'
      → db'.flips ≡ db.flips
  unfolding settle_sides
  settle_sides-flips game nonce [] db h = ground arith
  settle_sides-flips game nonce (s ∷ sides) db h =
      let (first, settled, rest) = >>=-eq-ok (settle_side services game nonce s db) _ h in
      settle_sides-flips game nonce sides first rest ∙ settle_side-flips game nonce s db settled
