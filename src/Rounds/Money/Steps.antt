-- ===== src/Rounds/Money/Steps.antt =====
-- How the play balance of a player moves in a settlement: apps/api/src/games/instant.
use scadium.Prelude.{
  ℕ, ◌≡◌, inl, inr, refl, sym, ◌∙◌, some, ltb, arith, ok, Bool-cases, put, >>=-eq-ok,
}
use scadium.Prelude.Int.{ℤ, pos, ◌+ℤ◌, int_laws, +ℤ_zero}
use scadium.Ledger.{User, Accounts, Meta, Currency, balance, apply_balance_delta}
use scadium.Ledger.Moves.{apply_balance_delta-Applied, Applied-own}
use scadium.Rounds.{GameType, Services, pay, bump}

-- The proof of wager leaves the balances that are played with alone.
pub record KeepsPlay {E : Type 0} (services : Services E) : Type 0 where
  pub kept :
      (e : E) (a : Accounts) (user_id : ℕ) (game : GameType) (stake : ℕ) {e' : E} {a' : Accounts}
      → services.accrue e a user_id game stake ≡ ok (e', a')
      → (v : ℕ) (u' : User) → a'.users v ≡ some u'
      → (u : User) × (a.users v ≡ some u) × (balance Currency.jeton u' ≡ balance Currency.jeton u)

-- The play balance of a user moves by `delta`.
abbrev pub Moves : Accounts → Accounts → ℕ → ℤ → Type 0
Moves a a' user_id delta =
    (u' : User)
    → a'.users user_id ≡ some u'
    → (u : User) × (a.users user_id ≡ some u)
      × (balance Currency.jeton u' ≡ balance Currency.jeton u +ℤ delta)

pub delta-Moves :
    (a : Accounts) (user_id : ℕ) (delta : ℤ) (meta : Meta) {b : ℤ} {a' : Accounts}
    → meta.currency ≡ Currency.jeton
    → apply_balance_delta a user_id delta meta ≡ ok (b, a')
    → Moves a a' user_id delta
delta-Moves a user_id delta meta play h u' found =
    let (u, m) = apply_balance_delta-Applied a user_id delta meta h in
    (u, m.found, rw (← play) (Applied-own m u' found ∙ m.after))

pub Moves-trans :
    (a b c : Accounts) (user_id : ℕ) (x y : ℤ)
    → Moves a b user_id x
    → Moves b c user_id y
    → Moves a c user_id (x +ℤ y)
Moves-trans a b c user_id x y first second u'' found =
    let (u', here, after) = second u'' found in
    let (u, start, before) = first u' here in (u, start, rw (after, before) (omega int_laws))

pub pay-Moves :
    (a : Accounts) (user_id payout : ℕ) (meta : Meta) {a' : Accounts}
    → meta.currency ≡ Currency.jeton
    → pay a user_id payout meta ≡ ok a'
    → Moves a a' user_id (pos payout)
unfolding pay
pay-Moves a user_id payout meta {a'} play h = elim (Bool-cases (ltb 0 payout)) [
  | inl some_payout ↦
      let (paid, moved, last) =
        >>=-eq-ok (apply_balance_delta a user_id (pos payout) meta) _ (rw some_payout at h) in
      let same : a' ≡ paid.1 = ground arith in
      rw same (delta-Moves a user_id (pos payout) meta play moved)
  | inr no_payout ↦
      let same : a' ≡ a = ground arith in
      let zero_payout : payout ≡ 0 = ground arith in
      λ u' found. (u', rw same at found, rw zero_payout (sym (+ℤ_zero (balance Currency.jeton u'))))
]

bump-balance :
    (stake payout : ℕ) (u : User)
    → balance Currency.jeton (bump stake payout u) ≡ balance Currency.jeton u
unfolding bump balance
bump-balance stake payout u = refl

pub bump-found :
    (a : Accounts) (user_id stake payout : ℕ) (user u' : User)
    → a.users user_id ≡ some user
    → put user_id (bump stake payout user) a.users user_id ≡ some u'
    → balance Currency.jeton u' ≡ balance Currency.jeton user
bump-found a user_id stake payout user u' found h =
    let here : bump stake payout user ≡ u' = ground arith in
    rw (← here) (bump-balance stake payout user)
