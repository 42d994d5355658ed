-- ===== src/Fair/Floats.antt =====
-- packages/fair/src/floats.ts: the stream of uniform floats. A float is its numerator over 2 ^ 32; a
-- double holds each of them, and each product with a small integer below, exactly.
use native.Mathlib.Nat.{div-lt_iff_lt-mul}
use scadium.Prelude.{
  ℕ, zero, suc, ◌+◌, ◌*◌, ◌/◌, ◌≤◌, ◌<◌, ◌≡◌, List, [], ◌∷◌, ◌++◌, arith, length, take, All,
  length-append, length-take, All-append, All-take,
}
use scadium.Fair.Hash.{Text, Crypto, HasDigests, IsByte, build_message, append_index}

abbrev pub float_one : ℕ
float_one = 4294967296

abbrev pub IsFloat : ℕ → Type 0
IsFloat u = u < float_one

-- The inner loop over a block: four bytes a float, in base 256.
unfoldable pub block_floats : List ℕ → List ℕ
block_floats (a ∷ b ∷ c ∷ d ∷ rest) = (((a * 256 + b) * 256 + c) * 256 + d) ∷ block_floats rest
block_floats _ = []

-- The blocks of `floatStream` from `block` on, as many as the fuel.
unfoldable pub float_stream : Crypto → Text → Text → ℕ → ℕ → ℕ → List ℕ
float_stream crypto server_seed client_seed nonce zero block = []
float_stream crypto server_seed client_seed nonce (suc fuel) block =
    block_floats (crypto.hmac server_seed (append_index (build_message client_seed nonce) block))
    ++ float_stream crypto server_seed client_seed nonce fuel (block + 1)

-- A block holds at least one float, so `count` blocks are enough.
unfoldable pub floats_from_hmac : Crypto → Text → Text → ℕ → ℕ → List ℕ
floats_from_hmac crypto server_seed client_seed nonce count =
    take count (float_stream crypto server_seed client_seed nonce count 0)

-- `Math.floor(u * n)`
unfoldable pub scale : ℕ → ℕ → ℕ
scale u n = u * n / float_one

pub scale-lt : (u n : ℕ) → IsFloat u → 0 < n → scale u n < n
unfolding scale
scale-lt u n h p = (div-lt_iff_lt-mul (omega arith)).1 (grind arith)

block_floats-length : (bs : List ℕ) → 4 ≤ length bs → 1 ≤ length (block_floats bs)
unfolding block_floats
block_floats-length [] h = absurd (omega arith)
block_floats-length (a ∷ []) h = absurd (omega arith)
block_floats-length (a ∷ b ∷ []) h = absurd (omega arith)
block_floats-length (a ∷ b ∷ c ∷ []) h = absurd (omega arith)
block_floats-length (a ∷ b ∷ c ∷ d ∷ rest) h = omega arith

block_floats-IsFloat : (bs : List ℕ) → All IsByte bs → All IsFloat (block_floats bs)
unfolding block_floats
block_floats-IsFloat [] h = tt
block_floats-IsFloat (a ∷ []) h = tt
block_floats-IsFloat (a ∷ b ∷ []) h = tt
block_floats-IsFloat (a ∷ b ∷ c ∷ []) h = tt
block_floats-IsFloat (a ∷ b ∷ c ∷ d ∷ rest) h = (omega arith, block_floats-IsFloat rest h.1.1.1.1)

module _ (crypto : Crypto) (digests : HasDigests crypto) (server_seed client_seed : Text)
    (nonce : ℕ) where
  float_stream-length :
      (fuel block : ℕ)
      → fuel ≤ length (float_stream crypto server_seed client_seed nonce fuel block)
  unfolding float_stream
  float_stream-length zero block = omega arith
  float_stream-length (suc fuel) block =
      let message = append_index (build_message client_seed nonce) block in
      let digest = crypto.hmac server_seed message in
      omega (
        arith,
        length-append (block_floats digest)
            (float_stream crypto server_seed client_seed nonce fuel (block + 1)),
        block_floats-length digest (omega (arith, digests.hmac-length server_seed message)),
        float_stream-length fuel (block + 1),
      )

  float_stream-IsFloat :
      (fuel block : ℕ) → All IsFloat (float_stream crypto server_seed client_seed nonce fuel block)
  unfolding float_stream
  float_stream-IsFloat zero block = tt
  float_stream-IsFloat (suc fuel) block =
      All-append IsFloat _ _
        (block_floats-IsFloat _
          (digests.hmac-bytes server_seed (append_index (build_message client_seed nonce) block)))
        (float_stream-IsFloat fuel (block + 1))

  -- `floatsFromHmac` gives as many floats as asked for, each in [0, 1).
  pub floats_from_hmac_lem :
      (count : ℕ)
      → (length (floats_from_hmac crypto server_seed client_seed nonce count) ≡ count)
        × All IsFloat (floats_from_hmac crypto server_seed client_seed nonce count)
  unfolding floats_from_hmac
  floats_from_hmac_lem count = (
    omega (
      arith,
      length-take count (float_stream crypto server_seed client_seed nonce count 0),
      float_stream-length count 0,
    ),
    All-take IsFloat count _ (float_stream-IsFloat count 0),
  )
