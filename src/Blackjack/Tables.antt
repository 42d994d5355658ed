-- ===== src/Blackjack/Tables.antt =====
-- The seats of a table over the calls of apps/api/src/games/blackjack/blackjack.engine.ts.
pub mod Steps
pub mod Changes
pub mod Hands
pub mod Runs
use scadium.Prelude.{
  ℕ, ◌+◌, ◌≡◌, ◌≢◌, inl, inr, refl, sym, subst, ap, ◌∙◌, Bool, true, false, not, Option, none, some,
  List, [], ◌∷◌, ◌++◌, map, All, ◌==◌, leb, if◌then◌else◌, arith, Bool-cases, Option-cases,
}
use scadium.Blackjack.{
  Phase, Seat, SeatBet, TableState, has_bet, seat_at, seat_of, update_seat, delete_seat,
  filter_seats, insert_seat, sort_seats, betting_seats,
}
use scadium.Blackjack.Hands.Log.{Distinct}
use scadium.Blackjack.Facade.Stakes.{share, stakes}
use scadium.Blackjack.Facade.Bets.{IsTable}

-- No two seats share an index or a user.
abbrev pub Other : Seat → Seat → Type 0
Other s x = (x.index ≢ s.index) × (x.user_id ≢ s.user_id)

abbrev pub Apart : List Seat → Type 0
Apart [] = Unit
Apart (s ∷ seats) = All (Other s) seats × Apart seats

abbrev pub NoBet : Seat → Type 0
NoBet s = s.bet ≡ none

pub record IsSound (t : TableState) : Type 0 where
  pub apart : Apart t.seats
  pub clear : t.phase ≡ Phase.idle → All NoBet t.seats

-- Seats that leave, or change without moving.
pub data Shrinks : List Seat → List Seat → Type 0 where
  none_left : Shrinks [] []
  kept :
      {seats seats' : List Seat} (s s' : Seat)
      → s'.index ≡ s.index
      → s'.user_id ≡ s.user_id
      → Shrinks seats seats'
      → Shrinks (s ∷ seats) (s' ∷ seats')
  gone : {seats seats' : List Seat} (s : Seat) → Shrinks seats seats' → Shrinks (s ∷ seats) seats'

Shrinks-Other :
    (s s' : Seat) {seats seats' : List Seat}
    → s'.index ≡ s.index
    → s'.user_id ≡ s.user_id
    → Shrinks seats seats'
    → All (Other s) seats
    → All (Other s') seats'
Shrinks-Other s s' e f none_left h = tt
Shrinks-Other s s' e f (kept x x' g k rest) h =
    ((rw (e, g) h.0.0, rw (f, k) h.0.1), Shrinks-Other s s' e f rest h.1)
Shrinks-Other s s' e f (gone x rest) h = Shrinks-Other s s' e f rest h.1

pub Shrinks-Apart : {seats seats' : List Seat} → Shrinks seats seats' → Apart seats → Apart seats'
Shrinks-Apart none_left h = tt
Shrinks-Apart (kept s s' e f rest) h = (Shrinks-Other s s' e f rest h.0, Shrinks-Apart rest h.1)
Shrinks-Apart (gone s rest) h = Shrinks-Apart rest h.1

pub Shrinks-same : (seats : List Seat) → Shrinks seats seats
Shrinks-same [] = none_left
Shrinks-same (s ∷ seats) = kept s s refl refl (Shrinks-same seats)

-- A change of a seat that keeps its place.
pub record KeepsPlace (change : Seat → Seat) : Type 0 where
  pub index : (s : Seat) → (change s).index ≡ s.index
  pub user : (s : Seat) → (change s).user_id ≡ s.user_id

pub map-Shrinks :
    (change : Seat → Seat) (seats : List Seat)
    → KeepsPlace change
    → Shrinks seats (map change seats)
map-Shrinks change [] keeps = none_left
map-Shrinks change (s ∷ seats) keeps =
    kept s (change s) (keeps.index s) (keeps.user s) (map-Shrinks change seats keeps)

pub update-Shrinks :
    (index : ℕ) (change : Seat → Seat) (seats : List Seat)
    → KeepsPlace change
    → Shrinks seats (update_seat index change seats)
unfolding update_seat
update-Shrinks index change [] keeps = none_left
update-Shrinks index change (s ∷ seats) keeps = elim (Bool-cases (s.index == index)) [
  | inl e ↦ rw e (kept s (change s) (keeps.index s) (keeps.user s) (Shrinks-same seats))
  | inr e ↦ rw e (kept s s refl refl (update-Shrinks index change seats keeps))
]

pub delete-Shrinks : (index : ℕ) (seats : List Seat) → Shrinks seats (delete_seat index seats)
unfolding delete_seat
delete-Shrinks index [] = none_left
delete-Shrinks index (s ∷ seats) = elim (Bool-cases (s.index == index)) [
  | inl e ↦ rw e (gone s (Shrinks-same seats))
  | inr e ↦ rw e (kept s s refl refl (delete-Shrinks index seats))
]

pub filter-Shrinks :
    (test : Seat → Bool) (seats : List Seat) → Shrinks seats (filter_seats test seats)
unfolding filter_seats
filter-Shrinks test [] = none_left
filter-Shrinks test (s ∷ seats) = elim (Bool-cases (test s)) [
  | inl e ↦ rw e (kept s s refl refl (filter-Shrinks test seats))
  | inr e ↦ rw e (gone s (filter-Shrinks test seats))
]

-- A seat with a free index, for a user who has none.
pub Apart-append_one :
    (seats : List Seat) (s : Seat)
    → Apart seats
    → seat_at s.index seats ≡ none
    → seat_of s.user_id seats ≡ none
    → Apart (seats ++ s ∷ [])
unfolding seat_at seat_of
Apart-append_one [] s h free new = (tt, tt)
Apart-append_one (x ∷ seats) s h free new = elim (Bool-cases (x.index == s.index)) [
  | inl e ↦ absurd (ground arith)
  | inr e ↦ elim (Bool-cases (x.user_id == s.user_id)) [
    | inl f ↦ absurd (ground arith)
    | inr f ↦ (
      append_other x seats s h.0 (ground arith),
      Apart-append_one seats s h.1 (ground arith) (ground arith),
    )
  ]
]
  where
    append_other :
        (x : Seat) (seats : List Seat) (s : Seat)
        → All (Other x) seats
        → Other x s
        → All (Other x) (seats ++ s ∷ [])
    append_other x [] s h o = (o, tt)
    append_other x (y ∷ seats) s h o = (h.0, append_other x seats s h.1 o)

Apart-Distinct : (seats : List Seat) → Apart seats → Distinct seats
Apart-Distinct [] h = tt
Apart-Distinct (s ∷ seats) h = (indices s seats h.0, Apart-Distinct seats h.1)
  where
    indices :
        (s : Seat) (seats : List Seat)
        → All (Other s) seats
        → All (λ (x : Seat). x.index ≢ s.index) seats
    indices s [] h = tt
    indices s (x ∷ seats) h = (h.0.0, indices s seats h.1)

Apart-single :
    (index : ℕ) (seats : List Seat) (s : Seat)
    → Apart seats
    → seat_at index seats ≡ some s
    → seat_of s.user_id seats ≡ some s
unfolding seat_at seat_of
Apart-single index [] s h at = cc
Apart-single index (x ∷ seats) s h at = elim (Bool-cases (x.index == index)) [
  | inl e ↦ let same : x ≡ s = ground arith in rw same (ground arith)
  | inr e ↦
      let found : seat_at index seats ≡ some s = ground arith in
      let other : s.user_id ≢ x.user_id = away index x seats s h.0 found in
      let rest = Apart-single index seats s h.1 found in ground arith
]
  where
    away :
        (index : ℕ) (x : Seat) (seats : List Seat) (s : Seat)
        → All (Other x) seats
        → seat_at index seats ≡ some s
        → s.user_id ≢ x.user_id
    away index x [] s h at = cc
    away index x (y ∷ seats) s h at = elim (Bool-cases (y.index == index)) [
      | inl e ↦ let same : y ≡ s = ground arith in rw (← same) h.0.1
      | inr e ↦ away index x seats s h.1 (ground arith)
    ]

NoBet-stakes : (j : ℕ) (seats : List Seat) → All NoBet seats → stakes j seats ≡ 0
unfolding stakes
NoBet-stakes j [] h = refl
NoBet-stakes j (s ∷ seats) h =
    let nothing : share j s ≡ 0 = rw h.0 (ground arith) in
    omega (arith, nothing, NoBet-stakes j seats h.1)

pub IsSound-IsTable : (t : TableState) → IsSound t → IsTable t
IsSound-IsTable t h = record {
  distinct = Apart-Distinct t.seats h.apart;
  single = λ index s at. Apart-single index t.seats s h.apart at;
  idle_clear = λ idle j. NoBet-stakes j t.seats (h.clear idle);
}
