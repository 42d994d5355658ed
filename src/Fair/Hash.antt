-- ===== src/Fair/Hash.antt =====
-- packages/fair/src/hash.ts, over the digests of `node:crypto`, which are a parameter.
use scadium.Prelude.{
  ℕ, zero, suc, ◌+◌, ◌*◌, ◌/◌, ◌%◌, ◌<◌, ◌≡◌, refl, List, [], ◌∷◌, ◌++◌, arith, ltb, length, All,
  if◌then◌else◌, ◌-◌, sym, ap, ◌∙◌, inl, inr, Bool-cases,
}

-- A text as the bytes of its UTF-8 encoding.
abbrev pub Text : Type 0
Text = List ℕ

-- `createHmac('sha256', key).update(message)` and `createHash('sha256').update(input)`, as bytes.
pub record Crypto : Type 0 where
  pub hmac : Text → Text → List ℕ
  pub hash : Text → List ℕ

abbrev pub IsByte : ℕ → Type 0
IsByte b = b < 256

-- What the derivations rely on: a digest is 32 bytes.
pub record HasDigests (crypto : Crypto) : Type 0 where
  pub hmac-length : (key message : Text) → length (crypto.hmac key message) ≡ 32
  pub hmac-bytes : (key message : Text) → All IsByte (crypto.hmac key message)
  pub hash-length : (input : Text) → length (crypto.hash input) ≡ 32
  pub hash-bytes : (input : Text) → All IsByte (crypto.hash input)

-- `.digest('hex')` as the values of its hex characters.
unfoldable pub to_hex : List ℕ → List ℕ
to_hex [] = []
to_hex (b ∷ bs) = b / 16 ∷ b % 16 ∷ to_hex bs

-- `parseInt(hex, 16)` and `BigInt('0x' + hex)`.
unfoldable pub parse_hex : ℕ → List ℕ → ℕ
parse_hex acc [] = acc
parse_hex acc (d ∷ ds) = parse_hex (acc * 16 + d) ds

-- The decimal digits of a number, as template literals print it.
decimal_digits : ℕ → ℕ → Text
decimal_digits zero n = []
decimal_digits (suc fuel) n =
    let rest = decimal_digits fuel (n / 10) in
    if ltb n 10 then (48 + n) ∷ [] else rest ++ (48 + n % 10) ∷ []

unfoldable pub decimal : ℕ → Text
unfolding decimal_digits
decimal n = decimal_digits (suc n) n

-- `hmacSha256(serverSeed, message)`, in hex.
unfoldable pub hmac_sha256 : Crypto → Text → Text → List ℕ
hmac_sha256 crypto server_seed message = to_hex (crypto.hmac server_seed message)

-- `${clientSeed}:${nonce}`
unfoldable pub build_message : Text → ℕ → Text
build_message client_seed nonce = client_seed ++ b':' ∷ decimal nonce

-- `${message}:${i}`
unfoldable pub append_index : Text → ℕ → Text
append_index message i = message ++ b':' ∷ decimal i

undigits : ℕ → Text → ℕ
undigits acc [] = acc
undigits acc (c ∷ cs) = undigits (acc * 10 + (c - 48)) cs

undigits-append : (acc : ℕ) (xs ys : Text) → undigits acc (xs ++ ys) ≡ undigits (undigits acc xs) ys
unfolding undigits
undigits-append acc [] ys = refl
undigits-append acc (x ∷ xs) ys = undigits-append (acc * 10 + (x - 48)) xs ys

undigits-decimal_digits : (fuel n : ℕ) → n < fuel → undigits 0 (decimal_digits fuel n) ≡ n
unfolding undigits decimal_digits
undigits-decimal_digits zero n h = absurd (omega arith)
undigits-decimal_digits (suc fuel) n h = elim (Bool-cases (ltb n 10)) [
  | inl small ↦ rw small (omega arith)
  | inr large ↦
      rw (large, undigits-append 0 (decimal_digits fuel (n / 10)) ((48 + n % 10) ∷ []))
        (rw (undigits-decimal_digits fuel (n / 10) (ground arith)) (omega arith))
]

-- Two numbers that print alike are equal.
pub decimal-injective : (m n : ℕ) → decimal m ≡ decimal n → m ≡ n
unfolding decimal
decimal-injective m n h =
    sym (undigits-decimal_digits (suc m) m (omega arith))
    ∙ ap (undigits 0) h
    ∙ undigits-decimal_digits (suc n) n (omega arith)

append-injective : (xs ys zs : Text) → xs ++ ys ≡ xs ++ zs → ys ≡ zs
append-injective [] ys zs h = h
append-injective (x ∷ xs) ys zs h = append-injective xs ys zs cc

-- No two nonces of one client seed give one message.
pub build_message-injective :
    (client_seed : Text) (m n : ℕ)
    → build_message client_seed m ≡ build_message client_seed n
    → m ≡ n
unfolding build_message
build_message-injective client_seed m n h =
    decimal-injective m n
      (cc (append-injective client_seed (b':' ∷ decimal m) (b':' ∷ decimal n) h))

-- Nor do two indices of one message.
pub append_index-injective :
    (message : Text) (i j : ℕ) → append_index message i ≡ append_index message j → i ≡ j
unfolding append_index
append_index-injective message i j h =
    decimal-injective i j (cc (append-injective message (b':' ∷ decimal i) (b':' ∷ decimal j) h))
