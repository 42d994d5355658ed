-- ===== src/Custody/Money/Owed.antt =====
-- What a player holds and is owed together, as apps/api/src/custody/withdrawal.service.ts moves it.
use scadium.Prelude.{
  ℕ, ◌+◌, ◌≡◌, ◌≢◌, inl, inr, ◌&&◌, Option, some, List, [], ◌∷◌, ◌==◌, if◌then◌else◌, arith,
  Bool-cases, ok,
}
use scadium.Prelude.Int.{ℤ, pos, ◌+ℤ◌}
use scadium.Ledger.{Meta, Currency, apply_balance_delta}
use scadium.Ledger.Worth.{worth_of, worth_of-moved}
use scadium.Custody.{Transfer, CustodyDb, find_transfer, update_transfer, is_withdrawal}
use scadium.Custody.Money.{is_owing}

-- What one row takes out of the balance of user `j`.
abbrev pub part : ℕ → Transfer → ℕ
part j t =
    if t.user_id == j && is_withdrawal t.kind && is_owing t.status then t.amount_lamports else 0

-- The withdrawals of user `j` that are pending, sent or confirmed.
unfoldable pub owed : ℕ → List Transfer → ℕ
owed j [] = 0
owed j (t ∷ ts) = part j t + owed j ts

-- The play balance of user `j`, and what left it for the chain.
unfoldable pub worth : CustodyDb → ℕ → Option ℤ
worth db j = worth_of (owed j db.transfers) (db.accounts.users j)

pub owed-update :
    (j id : ℕ) (change : Transfer → Transfer) (ts : List Transfer) (t : Transfer)
    → find_transfer id ts ≡ some t
    → owed j (update_transfer id change ts) + part j t ≡ owed j ts + part j (change t)
unfolding owed find_transfer update_transfer
owed-update j id change [] t h = cc
owed-update j id change (x ∷ ts) t h = elim (Bool-cases (x.id == id)) [
  | inl e ↦ let same : x ≡ t = ground arith in rw (e, same) (omega arith)
  | inr e ↦
      let found : find_transfer id ts ≡ some t = ground arith in
      rw e (omega (arith, owed-update j id change ts t found))
]

pub worth-same :
    (db db' : CustodyDb) (j : ℕ)
    → owed j db'.transfers ≡ owed j db.transfers
    → db'.accounts ≡ db.accounts
    → worth db' j ≡ worth db j
unfolding worth
worth-same db db' j rows accounts = rw (rows, accounts)

-- A movement of one balance that the rows make up for.
pub worth-moved :
    (db db' : CustodyDb) (id : ℕ) (delta : ℤ) (meta : Meta) {b : ℤ}
    → meta.currency ≡ Currency.jeton
    → apply_balance_delta db.accounts id delta meta ≡ ok (b, db'.accounts)
    → ((a : ℤ) → a +ℤ delta +ℤ pos (owed id db'.transfers) ≡ a +ℤ pos (owed id db.transfers))
    → ((j : ℕ) → j ≢ id → owed j db'.transfers ≡ owed j db.transfers)
    → (j : ℕ) → worth db' j ≡ worth db j
unfolding worth
worth-moved db db' id delta meta play h own others =
    worth_of-moved db.accounts db'.accounts id delta meta (λ j. owed j db.transfers)
      (λ j. owed j db'.transfers) play h own others
