-- ===== src/Custody/Signatures/Rows.antt =====
-- One write on a row of apps/api/src/custody/withdrawal.service.ts against the invariant of the signatures.
use scadium.Prelude.{
  ℕ, ◌<◌, ◌≡◌, ◌≢◌, ◌⊎◌, inl, inr, sym, subst, ◌∙◌, true, false, Option, some, List, [], ◌∷◌, ◌++◌,
  All, ◌==◌, arith, Bool-cases, ℕ_discrete,
}
use scadium.Custody.{
  Transfer, Status, Broadcast, CustodyDb, find_transfer, update_transfer, same_status,
  same_signature,
}
use scadium.Custody.Signatures.{Fate, IsOut, MayLand, IsSafeRow, IsSafe}

pub find_transfer-id :
    (id : ℕ) (ts : List Transfer) (t : Transfer) → find_transfer id ts ≡ some t → t.id ≡ id
unfolding find_transfer
find_transfer-id id [] t h = cc
find_transfer-id id (x ∷ ts) t h = ground (arith, find_transfer-id id ts t)

pub find_transfer-update :
    (id j : ℕ) (change : Transfer → Transfer) (ts : List Transfer)
    → ((t : Transfer) → (change t).id ≡ t.id)
    → (t u : Transfer) → find_transfer id ts ≡ some t
    → find_transfer j (update_transfer id change ts) ≡ some u
    → ((id ≡ j) × (u ≡ change t)) ⊎ ((id ≢ j) × (find_transfer j ts ≡ some u))
unfolding find_transfer update_transfer
find_transfer-update id j change [] keeps t u h k = cc
find_transfer-update id j change (x ∷ ts) keeps t u h k = elim (Bool-cases (x.id == id)) [
  | inl e ↦ elim (ℕ_discrete id j) [
    | yes same ↦ inl (same, ground (arith, keeps x))
    | no other ↦ inr (other, ground (arith, keeps x))
  ]
  | inr e ↦ elim (Bool-cases (x.id == j)) [
    | inl f ↦ inr (ground arith, ground arith)
    | inr f ↦ elim (find_transfer-update id j change ts keeps t u (ground arith) (ground arith)) [
      | inl s ↦ inl s
      | inr (other, found) ↦ inr (other, ground arith)
    ]
  ]
]

spread :
    (fate : Fate) (id : ℕ) (u : Transfer) (extra network : List Broadcast)
    → All (λ (b : Broadcast). b.transfer_id ≡ id) extra
    → id ≢ u.id
    → All (MayLand fate u) network
    → All (MayLand fate u) (extra ++ network)
spread fate id u [] network own ne h = h
spread fate id u (b ∷ bs) network own ne h =
    (λ e. absurd (ne (sym own.0 ∙ e)), spread fate id u bs network own.1 ne h)

spread_numbers :
    (id n : ℕ) (extra network : List Broadcast)
    → All (λ (b : Broadcast). b.transfer_id ≡ id) extra
    → id < n
    → All (λ (b : Broadcast). b.transfer_id < n) network
    → All (λ (b : Broadcast). b.transfer_id < n) (extra ++ network)
spread_numbers id n [] network own h k = k
spread_numbers id n (b ∷ bs) network own h k =
    (omega (arith, own.0), spread_numbers id n bs network own.1 h k)

-- A write on one row, with what it broadcasts, keeps the invariant if it keeps it on that row.
pub update-IsSafe :
    (fate : Fate) (db db' : CustodyDb) (id : ℕ) (change : Transfer → Transfer)
    (extra : List Broadcast) (t : Transfer)
    → IsSafe fate db
    → find_transfer id db.transfers ≡ some t
    → ((x : Transfer) → (change x).id ≡ x.id)
    → db'.transfers ≡ update_transfer id change db.transfers
    → db'.network ≡ extra ++ db.network
    → db'.next_id ≡ db.next_id
    → All (λ (b : Broadcast). b.transfer_id ≡ id) extra
    → IsSafeRow fate (extra ++ db.network) (change t)
    → IsSafe fate db'
update-IsSafe fate db db' id change extra t safe found keeps rows network count own here = record {
  rows = λ j u k.
      subst (λ n. IsSafeRow fate n u) (sym network)
        (elim (find_transfer-update id j change db.transfers keeps t u found (rw rows at k)) [
          | inl (same, e) ↦ subst (IsSafeRow fate (extra ++ db.network)) (sym e) here
          | inr (other, before) ↦
              let old = safe.rows j u before in
              record {
                single =
                    spread fate id u extra db.network own
                      (λ e. other (e ∙ find_transfer-id j db.transfers u before)) old.single;
                stored = old.stored;
                settled = old.settled;
              }
        ]);
  numbered = λ j u k.
      subst (λ n. j < n) (sym count)
        (elim (find_transfer-update id j change db.transfers keeps t u found (rw rows at k)) [
          | inl (same, e) ↦ rw (← same) (safe.numbered id t found)
          | inr (other, before) ↦ safe.numbered j u before
        ]);
  sent_of =
      subst (λ n. All (λ (b : Broadcast). b.transfer_id < n) db'.network) (sym count)
        (subst (All (λ (b : Broadcast). b.transfer_id < db.next_id)) (sym network) (
          spread_numbers id db.next_id extra db.network own (safe.numbered id t found)
            safe.sent_of));
}

pub same_status_eq : (a b : Status) → same_status a b ≡ true → a ≡ b
unfolding same_status
same_status_eq a b h = ground arith

pub same_signature_eq : (a b : Option ℕ) → same_signature a b ≡ true → a ≡ b
unfolding same_signature
same_signature_eq a b h = ground arith

-- On a row that is not out, or whose stored signature is dead, everything that was broadcast is dead.
abbrev pub AllDead : Fate → Transfer → List Broadcast → Type 0
AllDead fate t network =
    All (λ (b : Broadcast). b.transfer_id ≡ t.id → fate.lands b.signature ≡ false) network

pub dead_row :
    (fate : Fate) (network : List Broadcast) (t : Transfer)
    → (IsOut t.status → (s : ℕ) → t.tx_signature ≡ some s → fate.lands s ≡ false)
    → All (MayLand fate t) network
    → AllDead fate t network
dead_row fate [] t h k = tt
dead_row fate (b ∷ bs) t h k = (
  (λ e. elim (k.0 e) [ inl dead ↦ dead | inr (out, stored) ↦ h out b.signature stored ]),
  dead_row fate bs t h k.1,
)

-- A row may go to any status that is not out once all its broadcasts are dead.
pub revive :
    (fate : Fate) (network : List Broadcast) (t u : Transfer)
    → t.id ≡ u.id
    → AllDead fate t network
    → All (MayLand fate u) network
revive fate [] t u same h = tt
revive fate (b ∷ bs) t u same h = ((λ e. inl (h.0 (e ∙ sym same))), revive fate bs t u same h.1)
