-- ===== src/Prelude/Counting.antt =====
-- How often a number stands in a list; `Array.prototype.includes` and the numeric `sort`.
use Prim.Native.Nat.{ℕ, zero, suc, ◌+◌, ◌≤◌, ◌<◌}
use mathlib.Core.Path.{◌≡◌, refl}
use mathlib.Core.Logic.{◌↔◌}
use mathlib.Core.Bool.{Bool, true, false, ◌||◌}
use native.Mathlib.Decide.{ℕ_discrete}
use mathlib.Core.List.{List, [], ◌∷◌}
use native.Mathlib.Omega.{arith}
use scadium.Prelude.Tests.{◌==◌, leb, ltb, if◌then◌else◌}
use scadium.Prelude.Lists.{length, set, get_or, take}

-- 1 for a true test, 0 for a false one.
abbrev pub bit : Bool → ℕ
bit true = 1
bit false = 0

unfoldable pub count : ℕ → List ℕ → ℕ
count a [] = 0
count a (x ∷ xs) = bit (x == a) + count a xs

unfoldable pub includes : List ℕ → ℕ → Bool
includes [] a = false
includes (x ∷ xs) a = x == a || includes xs a

pub includes-count : (xs : List ℕ) (a : ℕ) → (includes xs a ≡ true) ↔ (0 < count a xs)
unfolding includes count
includes-count [] a = (λ h. cc, λ h. absurd (omega arith))
includes-count (x ∷ xs) a =
    (λ h. ground (arith, includes-count xs a), λ h. ground (arith, includes-count xs a))

-- A write in range takes one item out and puts one in.
pub count-set :
    (a : ℕ) (xs : List ℕ) (i v : ℕ)
    → i < length xs
    → count a (set xs i v) + bit (get_or xs i 0 == a) ≡ count a xs + bit (v == a)
unfolding count
count-set a [] i v h = absurd (omega arith)
count-set a (x ∷ xs) zero v h = omega arith
count-set a (x ∷ xs) (suc i) v h = omega (arith, count-set a xs i v)

pub count-take-le : (a n : ℕ) (xs : List ℕ) → count a (take n xs) ≤ count a xs
unfolding count
count-take-le a zero xs = omega arith
count-take-le a (suc n) [] = omega arith
count-take-le a (suc n) (x ∷ xs) = omega (arith, count-take-le a n xs)

insert_sorted : ℕ → List ℕ → List ℕ
insert_sorted x [] = x ∷ []
insert_sorted x (y ∷ ys) = if leb x y then x ∷ y ∷ ys else y ∷ insert_sorted x ys

-- `sort((a, b) => a - b)`
unfoldable pub sort : List ℕ → List ℕ
unfolding insert_sorted
sort [] = []
sort (x ∷ xs) = insert_sorted x (sort xs)

count-insert_sorted :
    (a x : ℕ) (xs : List ℕ) → count a (insert_sorted x xs) ≡ bit (x == a) + count a xs
unfolding count insert_sorted
count-insert_sorted a x [] = refl
count-insert_sorted a x (y ∷ ys) = ground (arith, count-insert_sorted a x ys)

pub count-sort : (a : ℕ) (xs : List ℕ) → count a (sort xs) ≡ count a xs
unfolding count sort
count-sort a [] = refl
count-sort a (x ∷ xs) = ground (arith, count-insert_sorted a x (sort xs), count-sort a xs)

length-insert_sorted : (x : ℕ) (xs : List ℕ) → length (insert_sorted x xs) ≡ suc (length xs)
unfolding insert_sorted
length-insert_sorted x [] = refl
length-insert_sorted x (y ∷ ys) = ground (arith, length-insert_sorted x ys)

pub length-sort : (xs : List ℕ) → length (sort xs) ≡ length xs
unfolding sort
length-sort [] = refl
length-sort (x ∷ xs) = ground (arith, length-insert_sorted x (sort xs), length-sort xs)

-- Ascending, each item at least `b`.
abbrev pub AscendsFrom : ℕ → List ℕ → Type 0
AscendsFrom b [] = Unit
AscendsFrom b (x ∷ xs) = (b ≤ x) × AscendsFrom x xs

AscendsFrom-mono : {a b : ℕ} (xs : List ℕ) → a ≤ b → AscendsFrom b xs → AscendsFrom a xs
AscendsFrom-mono [] h s = tt
AscendsFrom-mono (x ∷ xs) h s = (omega arith, s.1)

insert_sorted-AscendsFrom :
    (b x : ℕ) (xs : List ℕ) → b ≤ x → AscendsFrom b xs → AscendsFrom b (insert_sorted x xs)
unfolding insert_sorted
insert_sorted-AscendsFrom b x [] h s = (h, tt)
insert_sorted-AscendsFrom b x (y ∷ ys) h s = ground (arith, insert_sorted-AscendsFrom y x ys)

pub sort-AscendsFrom : (xs : List ℕ) → AscendsFrom 0 (sort xs)
unfolding sort
sort-AscendsFrom [] = tt
sort-AscendsFrom (x ∷ xs) =
    insert_sorted-AscendsFrom 0 x (sort xs) (omega arith) (sort-AscendsFrom xs)

-- The sum of `f` below `n`.
abbrev pub total : (ℕ → ℕ) → ℕ → ℕ
total f zero = 0
total f (suc n) = f n + total f n

pub total-add : (f g : ℕ → ℕ) (n : ℕ) → total (λ a. f a + g a) n ≡ total f n + total g n
total-add f g zero = refl
total-add f g (suc n) = omega (arith, total-add f g n)

total-bit : (x n : ℕ) → total (λ a. bit (x == a)) n ≡ bit (ltb x n)
total-bit x zero = ground arith
total-bit x (suc n) = ground (arith, total-bit x n)

total_zero : (n : ℕ) → total (λ a. 0) n ≡ 0
total_zero zero = refl
total_zero (suc n) = omega (arith, total_zero n)

bit_below : (x n : ℕ) → x < n → bit (ltb x n) ≡ 1
bit_below x n h = ground arith

-- A list of numbers below `n` is as long as its counts add up to.
pub total-count :
    (n : ℕ) (xs : List ℕ)
    → ((a : ℕ) → 0 < count a xs → a < n)
    → total (λ a. count a xs) n ≡ length xs
unfolding count
total-count n [] h = total_zero n
total-count n (x ∷ xs) h =
    let below : x < n = h x (ground arith) in
    omega (
      arith,
      total-add (λ a. bit (x == a)) (λ a. count a xs) n,
      total-bit x n,
      bit_below x n below,
      total-count n xs (λ a k. h a (omega arith)),
    )

total-le : (f : ℕ → ℕ) (n : ℕ) → ((a : ℕ) → f a ≤ 1) → total f n ≤ n
total-le f zero h = omega arith
total-le f (suc n) h = omega (arith, h n, total-le f n h)

-- What is at most 1 below `n` and adds up to `n` is 1 everywhere below it.
pub total_full :
    (f : ℕ → ℕ) (n : ℕ) → ((a : ℕ) → f a ≤ 1) → n ≤ total f n → (a : ℕ) → a < n → f a ≡ 1
total_full f zero h k a below = absurd (omega arith)
total_full f (suc n) h k a below = elim (ℕ_discrete n a) [
  | yes same ↦ rw (← same) (omega (arith, h n, total-le f n h))
  | no other ↦ total_full f n h (omega (arith, h n)) a (omega arith)
]
