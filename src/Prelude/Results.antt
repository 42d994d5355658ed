-- ===== src/Prelude/Results.antt =====
-- The exceptions that the services throw, as values, and the tables of the database.
use Prim.Native.Nat.{ℕ}
use mathlib.Core.Path.{◌≡◌, refl}
use mathlib.Core.Bool.{Bool, true, false}
use mathlib.Core.Logic.{◌⊎◌, inl, inr}
use mathlib.Core.Option.{Option, none, some}
use scadium.Prelude.Tests.{◌==◌, if◌then◌else◌}

-- One constructor for each exception class of the services; `bad_request` carries which check failed.
pub data Check : Type 0 where
  insufficient_balance balance_cap amount_range amount_not_positive mines_range cell_range : Check
  cell_revealed nothing_revealed column_range nothing_climbed nothing_guessed too_few_steps
        deposit_too_small shares_range :
      Check
  no_commission withdrawal_range foreign_wallet client_seed_length : Check
  invalid_seat private_table seat_taken already_seated not_seated hand_in_progress bets_closed :
      Check
  exposure_limit no_window no_bet not_your_turn hand_finished late_double side_bet_range : Check
  not_joinable own_flip too_many_flips not_open : Check

pub data Error : Type 0 where
  bad_request : Check → Error
  not_found conflict forbidden unavailable missing_row claim_lost : Error

-- What a service call gives: its value, or the exception it ends in.
pub data Result {ℓ} (V : Type ℓ) : Type ℓ where
  err : Error → Result V
  ok : V → Result V

infixl 5 ◌>>=◌
abbrev pub ◌>>=◌ {ℓ μ} : {V : Type ℓ} {W : Type μ} → Result V → (V → Result W) → Result W
err thrown >>= next = err thrown
ok value >>= next = next value

-- `if (test) throw e`
abbrev pub raise_if : Bool → Error → Result (Unit {0})
raise_if true e = err e
raise_if false e = ok tt

-- A check in front of the rest of a call.
infixl 5 ◌>>◌
abbrev pub ◌>>◌ {ℓ} : {W : Type ℓ} → Result (Unit {0}) → Result W → Result W
check >> rest = check >>= λ _. rest

abbrev pub or_raise {ℓ} : {A : Type ℓ} → Option A → Error → Result A
or_raise none e = err e
or_raise (some a) e = ok a

pub Result-cases {ℓ} :
    {A : Type ℓ} (r : Result A) → ((a : A) × (r ≡ ok a)) ⊎ ((e : Error) × (r ≡ err e))
Result-cases (ok a) = inl (a, refl)
Result-cases (err e) = inr (e, refl)

-- A call that goes through has had a first part that went through.
pub >>=-eq-ok {ℓ μ} :
    {V : Type ℓ} {W : Type μ} (first : Result V) (next : V → Result W) {w : W}
    → (first >>= next) ≡ ok w
    → (value : V) × (first ≡ ok value) × (next value ≡ ok w)
>>=-eq-ok (err thrown) next h = cc
>>=-eq-ok (ok value) next h = (value, refl, h)

-- A table of rows by their key.
abbrev pub Table {ℓ} : Type ℓ → Type ℓ
Table V = ℕ → Option V

abbrev pub put {ℓ} : {V : Type ℓ} → ℕ → V → Table V → Table V
put k v t j = if k == j then some v else t j

abbrev pub delete {ℓ} : {V : Type ℓ} → ℕ → Table V → Table V
delete k t j = if k == j then none else t j
