-- ===== src/Vault/Service/Positions.antt =====
-- The shares of the positions of a pool (apps/api/src/vault/vault.service.ts).
use scadium.Prelude.{ℕ, ◌+◌, ◌-◌, ◌≤◌, ◌≡◌, some, List, [], ◌∷◌, ◌==◌, if◌then◌else◌, arith}
use scadium.Vault.Service.{Position, find_position, replace_position, delete_position, shrink, Exit}

-- The shares of one position, if it is in the pool.
abbrev pub shares_in : ℕ → Position → ℕ
shares_in k p = if p.pool_id == k then p.shares else 0

abbrev pub sum_shares : ℕ → List Position → ℕ
sum_shares k [] = 0
sum_shares k (p ∷ ps) = shares_in k p + sum_shares k ps

pub find_position-id :
    (id : ℕ) (ps : List Position) (p : Position) → find_position id ps ≡ some p → p.id ≡ id
unfolding find_position
find_position-id id [] p h = cc
find_position-id id (x ∷ ps) p h = ground (arith, find_position-id id ps p)

pub find_position-le :
    (k id : ℕ) (ps : List Position) (p : Position)
    → find_position id ps ≡ some p
    → shares_in k p ≤ sum_shares k ps
unfolding find_position
find_position-le k id [] p h = cc
find_position-le k id (x ∷ ps) p h = ground (arith, find_position-le k id ps p)

sum_shares-delete :
    (k id : ℕ) (ps : List Position) (p : Position)
    → find_position id ps ≡ some p
    → sum_shares k (delete_position id ps) + shares_in k p ≡ sum_shares k ps
unfolding find_position delete_position
sum_shares-delete k id [] p h = cc
sum_shares-delete k id (x ∷ ps) p h = ground (arith, sum_shares-delete k id ps p)

sum_shares-replace :
    (k id : ℕ) (ps : List Position) (p q : Position)
    → find_position id ps ≡ some p
    → sum_shares k (replace_position id q ps) + shares_in k p ≡ sum_shares k ps + shares_in k q
unfolding find_position replace_position
sum_shares-replace k id [] p q h = cc
sum_shares-replace k id (x ∷ ps) p q h = ground (arith, sum_shares-replace k id ps p q)

-- A withdrawal takes exactly the burned shares out of the position's pool.
pub sum_shares-shrink :
    (k : ℕ) (p : Position) (burned : ℕ) (exit : Exit) (ps : List Position)
    → find_position p.id ps ≡ some p
    → burned ≤ p.shares
    → sum_shares k (shrink p burned exit ps) + (if p.pool_id == k then burned else 0)
      ≡ sum_shares k ps
unfolding shrink
sum_shares-shrink k p burned exit ps found h =
    let q : Position = record p {
      shares = p.shares - burned;
      principal = p.principal - exit.principal_portion;
    } in
    ground (arith, sum_shares-delete k p.id ps p found, sum_shares-replace k p.id ps p q found)
