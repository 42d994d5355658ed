-- ===== src/Blackjack/Facade/Stakes.antt =====
-- What the players have at stake on a table of apps/api/src/games/blackjack/blackjack.engine.ts.
use scadium.Prelude.{
  ℕ, ◌+◌, ◌≡◌, ◌≢◌, inl, inr, refl, Bool, true, false, some, List, [], ◌∷◌, map, All, ◌==◌,
  if◌then◌else◌, arith, Bool-cases,
}
use scadium.Blackjack.{
  Phase, Seat, TableState, stake_of, seat_at, seat_of, update_seat, delete_seat,
}
use scadium.Blackjack.Betting.{clear_bet_of}
use scadium.Blackjack.Hands.Log.{Distinct}

-- What one seat has at stake for user `j`.
abbrev pub share : ℕ → Seat → ℕ
share j s = if s.user_id == j then stake_of s.bet else 0

unfoldable pub stakes : ℕ → List Seat → ℕ
stakes j [] = 0
stakes j (s ∷ seats) = share j s + stakes j seats

-- Bets that are neither settled nor given back.
abbrev pub is_live : Phase → Bool
is_live Phase.idle = false
is_live Phase.settled = false
is_live p = true

abbrev pub live : TableState → ℕ → ℕ
live t j = if is_live t.phase then stakes j t.seats else 0

pub stakes-update :
    (j index : ℕ) (change : Seat → Seat) (seats : List Seat) (s : Seat)
    → seat_at index seats ≡ some s
    → stakes j (update_seat index change seats) + share j s ≡ stakes j seats + share j (change s)
unfolding stakes seat_at update_seat
stakes-update j index change [] s h = cc
stakes-update j index change (x ∷ seats) s h = elim (Bool-cases (x.index == index)) [
  | inl e ↦ let same : x ≡ s = ground arith in rw (e, same) (omega arith)
  | inr e ↦
      let found : seat_at index seats ≡ some s = ground arith in
      rw e (omega (arith, stakes-update j index change seats s found))
]

pub stakes-delete :
    (j index : ℕ) (seats : List Seat) (s : Seat)
    → seat_at index seats ≡ some s
    → stakes j (delete_seat index seats) + share j s ≡ stakes j seats
unfolding stakes seat_at delete_seat
stakes-delete j index [] s h = cc
stakes-delete j index (x ∷ seats) s h = elim (Bool-cases (x.index == index)) [
  | inl e ↦ let same : x ≡ s = ground arith in rw (e, same) (omega arith)
  | inr e ↦
      let found : seat_at index seats ≡ some s = ground arith in
      rw e (omega (arith, stakes-delete j index seats s found))
]

pub stakes-map :
    (j : ℕ) (change : Seat → Seat) (seats : List Seat)
    → ((s : Seat) → share j (change s) ≡ share j s)
    → stakes j (map change seats) ≡ stakes j seats
unfolding stakes
stakes-map j change [] keep = refl
stakes-map j change (s ∷ seats) keep = omega (arith, keep s, stakes-map j change seats keep)

pub stakes-cleared : (j : ℕ) (seats : List Seat) → stakes j (map clear_bet_of seats) ≡ 0
unfolding stakes
stakes-cleared j [] = refl
stakes-cleared j (s ∷ seats) = ground (arith, stakes-cleared j seats)

-- The seat of a user is the one at its index.
pub seat_of-at :
    (user_id : ℕ) (seats : List Seat) (s : Seat)
    → Distinct seats
    → seat_of user_id seats ≡ some s
    → (seat_at s.index seats ≡ some s) × (s.user_id ≡ user_id)
unfolding seat_of seat_at
seat_of-at user_id [] s d h = cc
seat_of-at user_id (x ∷ seats) s d h = elim (Bool-cases (x.user_id == user_id)) [
  | inl e ↦ let same : x ≡ s = ground arith in (rw same (ground arith), rw (← same) (ground arith))
  | inr e ↦
      let found : seat_of user_id seats ≡ some s = ground arith in
      let (at, own) = seat_of-at user_id seats s d.1 found in
      let other : s.index ≢ x.index = away x seats s d.0 at in (ground arith, own)
]
  where
    away :
        (x : Seat) (seats : List Seat) (s : Seat)
        → All (λ (y : Seat). y.index ≢ x.index) seats
        → seat_at s.index seats ≡ some s
        → s.index ≢ x.index
    away x [] s ne h = cc
    away x (y ∷ seats) s ne h = elim (Bool-cases (y.index == s.index)) [
      | inl e ↦ let same : y ≡ s = ground arith in rw (← same) ne.0
      | inr e ↦ away x seats s ne.1 (ground arith)
    ]
