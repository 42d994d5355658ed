-- ===== src/Lottery/Settlement.antt =====
-- Where the pool of a lottery round goes (apps/api/src/games/lottery/lottery.settlement.ts).
use native.Mathlib.Nat.{div-mul-le_self}
use scadium.Prelude.{
  ℕ, ◌+◌, ◌-◌, ◌*◌, ◌/◌, ◌≤◌, ◌≡◌, refl, List, [], ◌∷◌, ltb, if◌then◌else◌, arith,
}
use scadium.Lottery.{
  sum, lottery_pool_split, split_bracket_prizes, per_winners, rollovers, head_count, tail_counts,
}

-- What the winners of all brackets are paid together.
abbrev pub paid : List ℕ → List ℕ → ℕ
paid [] counts = 0
paid (each ∷ rest) counts = each * head_count counts + paid rest (tail_counts counts)

bracket_exact :
    (slice count : ℕ)
    → (if ltb 0 count then slice / count else 0) * count
        + (if ltb 0 count then slice - slice / count * count else slice)
      ≡ slice
bracket_exact slice count = ground (arith, div-mul-le_self slice count)

brackets_exact :
    (slices counts : List ℕ)
    → paid (per_winners slices counts) counts + sum (rollovers slices counts) ≡ sum slices
unfolding per_winners rollovers
brackets_exact [] counts = refl
brackets_exact (slice ∷ slices) counts =
    omega
      (arith, bracket_exact slice (head_count counts), brackets_exact slices (tail_counts counts))

split_within : (total : ℕ) → let s = lottery_pool_split total in s.burn + sum s.brackets ≤ total
unfolding lottery_pool_split
split_within total = omega arith

-- No base unit of a pool is lost or made: what is burned, what the winners are paid and what rolls into the
-- next round are the pool exactly, whatever the numbers of winners are.
pub split_bracket_prizes-conserves :
    (total_pool : ℕ) (counts : List ℕ)
    → let s = split_bracket_prizes total_pool counts in
      s.burn + paid s.per_winner counts + s.next_rollover ≡ total_pool
unfolding split_bracket_prizes
split_bracket_prizes-conserves total_pool counts =
    let split = lottery_pool_split total_pool in
    omega (arith, brackets_exact split.brackets counts, split_within total_pool)
