-- ===== src/Fair/Tickets/Ranges.antt =====
-- Who wins a ticket: packages/fair/src/jackpot.ts and engine-draw.ts against the shares of the pot; and
-- the ranges of the single draws.
use scadium.Prelude.{
  ℕ, zero, suc, ◌+◌, ◌-◌, ◌*◌, ◌≤◌, ◌<◌, ◌≡◌, ◌∙◌, ◌↔◌, List, [], ◌∷◌, length, take, map, get_or,
  ltb, leb, if◌then◌else◌, none, some, All, All-get_or, arith, length-map,
}
use scadium.Fair.Hash.{Text, Crypto, HasDigests}
use scadium.Fair.Floats.{
  IsFloat, float_one, scale, scale-lt, floats_from_hmac, floats_from_hmac_lem,
}
use scadium.Fair.Tickets.{
  ranges_from, find_range, jackpot_winner_index, weighted_from, weighted_winner_index, plinko_drop,
  sum, wheel_spin, hilo_sequence,
}

find_range-ge :
    (ticket i cursor : ℕ) (amounts : List ℕ) (j : ℕ)
    → find_range ticket i (ranges_from cursor amounts) ≡ some j
    → i ≤ j
unfolding find_range ranges_from
find_range-ge ticket i cursor [] j h = cc
find_range-ge ticket i cursor (a ∷ amounts) j h =
    ground (arith, find_range-ge ticket (i + 1) (cursor + a) amounts j)

-- What holds of the entry at `k` if it wins, and the other way round.
abbrev Owns : ℕ → ℕ → List ℕ → ℕ → Type 0
Owns ticket cursor amounts k =
    (cursor + sum (take k amounts) ≤ ticket) × (ticket < cursor + sum (take (suc k) amounts))

find_range-Owns :
    (ticket i cursor : ℕ) (amounts : List ℕ) (k j : ℕ)
    → j ≡ i + k
    → k < length amounts
    → cursor ≤ ticket
    → find_range ticket i (ranges_from cursor amounts) ≡ some j
    → Owns ticket cursor amounts k
unfolding find_range ranges_from
find_range-Owns ticket i cursor [] k j at h past e = absurd (omega arith)
find_range-Owns ticket i cursor (a ∷ amounts) zero j at h past e =
    ground (arith, find_range-ge ticket (i + 1) (cursor + a) amounts j)
find_range-Owns ticket i cursor (a ∷ amounts) (suc k) j at h past e =
    ground
      (arith, find_range-Owns ticket (i + 1) (cursor + a) amounts k j (omega arith) (omega arith))

Owns-find_range :
    (ticket i cursor : ℕ) (amounts : List ℕ) (k : ℕ)
    → k < length amounts
    → Owns ticket cursor amounts k
    → find_range ticket i (ranges_from cursor amounts) ≡ some (i + k)
unfolding find_range ranges_from
Owns-find_range ticket i cursor [] k h o = absurd (omega arith)
Owns-find_range ticket i cursor (a ∷ amounts) zero h o = ground arith
Owns-find_range ticket i cursor (a ∷ amounts) (suc k) h o =
    let ih = Owns-find_range ticket (i + 1) (cursor + a) amounts k (omega arith) (omega arith) in
    let next : i + 1 + k ≡ i + suc k = omega arith in ground (arith, ih, next)

find_range-lt :
    (ticket i cursor : ℕ) (amounts : List ℕ) (j : ℕ)
    → find_range ticket i (ranges_from cursor amounts) ≡ some j
    → j < i + length amounts
unfolding find_range ranges_from
find_range-lt ticket i cursor [] j h = cc
find_range-lt ticket i cursor (a ∷ amounts) j h =
    ground (arith, find_range-lt ticket (i + 1) (cursor + a) amounts j)

-- Entry `k` wins a ticket exactly when the ticket lies in the range that its stake bought: from the
-- sum of the stakes before it, as wide as its own.
pub jackpot_winner_index_lem :
    (amounts : List ℕ) (ticket k : ℕ)
    → k < length amounts
    → (jackpot_winner_index amounts ticket ≡ some k)
      ↔ ((sum (take k amounts) ≤ ticket) × (ticket < sum (take (suc k) amounts)))
unfolding jackpot_winner_index
jackpot_winner_index_lem amounts ticket k h = (
  λ e.
      let o = find_range-Owns ticket 0 0 amounts k k (omega arith) h (omega arith) e in
      (omega (arith, o.0), omega (arith, o.1)),
  λ o. Owns-find_range ticket 0 0 amounts k h (omega arith, omega arith) ∙ ground arith,
)

weighted_from_lem :
    (ticket last i cursor : ℕ) (weights : List ℕ)
    → cursor ≤ ticket
    → find_range ticket i (ranges_from cursor weights) ≡ (
        if ltb ticket (cursor + sum weights)
        then some (weighted_from ticket last cursor i weights)
        else none)
unfolding find_range ranges_from weighted_from
weighted_from_lem ticket last i cursor [] h = ground arith
weighted_from_lem ticket last i cursor (w ∷ weights) h =
    ground (arith, weighted_from_lem ticket last (i + 1) (cursor + w) weights)

-- The engine's draw and the jackpot's name the same winner for every ticket of the pot.
pub weighted_winner_index-jackpot_winner_index :
    (weights : List ℕ) (ticket : ℕ)
    → ticket < sum weights
    → jackpot_winner_index weights ticket ≡ some (weighted_winner_index ticket weights)
unfolding weighted_winner_index jackpot_winner_index
weighted_winner_index-jackpot_winner_index weights ticket h =
    weighted_from_lem ticket (length weights - 1) 0 0 weights (omega arith) ∙ ground arith

module _ (crypto : Crypto) (digests : HasDigests crypto) (server_seed client_seed : Text)
    (nonce : ℕ) where
  -- A spin names one of the wheel's segments, and the guard on its upper end is never needed.
  pub wheel_spin_lem :
      (segments : ℕ)
      → 0 < segments
      → (wheel_spin crypto server_seed client_seed nonce segments < segments)
        × (wheel_spin crypto server_seed client_seed nonce segments
            ≡ scale (get_or (floats_from_hmac crypto server_seed client_seed nonce 1) 0 0) segments)
  unfolding wheel_spin
  wheel_spin_lem segments h =
      let u = get_or (floats_from_hmac crypto server_seed client_seed nonce 1) 0 0 in
      let is_float =
        All-get_or IsFloat _ 0 0 (omega arith)
          (floats_from_hmac_lem crypto digests server_seed client_seed nonce 1).1 in
      ground (arith, scale-lt u segments is_float h)

  sum-bits-le :
      (fs : List ℕ) → sum (map (λ f. if leb float_one (f * 2) then 1 else 0) fs) ≤ length fs
  sum-bits-le [] = omega arith
  sum-bits-le (f ∷ fs) = ground (arith, sum-bits-le fs)

  -- A plinko ball takes one turn a row, and its bin is one of `rows + 1`.
  pub plinko_drop_lem :
      (rows : ℕ)
      → let (path, bin) = plinko_drop crypto server_seed client_seed nonce rows in
        (length path ≡ rows) × (bin ≤ rows)
  unfolding plinko_drop
  plinko_drop_lem rows =
      let fs = floats_from_hmac crypto server_seed client_seed nonce rows in
      let size = (floats_from_hmac_lem crypto digests server_seed client_seed nonce rows).0 in
      (length-map fs _ ∙ size, omega (arith, sum-bits-le fs, size))

  scale-cards : (fs : List ℕ) → All IsFloat fs → All (λ c. c < 52) (map (λ f. scale f 52) fs)
  scale-cards [] h = tt
  scale-cards (f ∷ fs) h = (scale-lt f 52 h.0 (omega arith), scale-cards fs h.1)

  -- A hi-lo sequence has as many cards as asked for, each one of the 52.
  pub hilo_sequence_lem :
      (count : ℕ)
      → (length (hilo_sequence crypto server_seed client_seed nonce count) ≡ count)
        × All (λ c. c < 52) (hilo_sequence crypto server_seed client_seed nonce count)
  unfolding hilo_sequence
  hilo_sequence_lem count =
      let fs = floats_from_hmac crypto server_seed client_seed nonce count in
      let (size, floats) =
        floats_from_hmac_lem crypto digests server_seed client_seed nonce count in
      (length-map fs _ ∙ size, scale-cards fs floats)
