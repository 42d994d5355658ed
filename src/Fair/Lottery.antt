-- ===== src/Fair/Lottery.antt =====
-- packages/fair/src/lottery.ts: the entropy, the winning digits and the matching of tickets.
pub mod Matching
use scadium.Prelude.{
  ℕ, zero, suc, ◌+◌, ◌-◌, ◌*◌, ◌/◌, ◌%◌, ◌^◌, ◌<◌, ◌≡◌, Bool, true, false, List, [], ◌∷◌, ◌++◌,
  take, length, replicate, min, ltb, ◌==◌, if◌then◌else◌, Option, none, some, get_elem?,
}
use scadium.Fair.Hash.{Text, Crypto}

abbrev pub lottery_digits : ℕ
lottery_digits = 6

abbrev pub lottery_digit_max : ℕ
lottery_digit_max = 10

abbrev pub lottery_ticket_offset : ℕ
lottery_ticket_offset = 1000000

-- `padClientSeed32`: the first 32 bytes, zero-padded.
unfoldable pub pad_client_seed_32 : Text → List ℕ
pad_client_seed_32 client_seed =
    let copied = take 32 client_seed in copied ++ replicate (32 - length copied) 0

-- `writeUInt32LE(nonce >>> 0)`
unfoldable pub u32_le : ℕ → List ℕ
u32_le nonce =
    let w = nonce % 2 ^ 32 in w % 256 ∷ w / 256 % 256 ∷ w / 65536 % 256 ∷ w / 16777216 % 256 ∷ []

-- The lengths that `lotteryFinalEntropy` throws on.
pub data EntropyError : Type 0 where
  client_seed_length slot_hash_length : EntropyError

pub data Entropy : Type 0 where
  entropy : List ℕ → Entropy
  failed : EntropyError → Entropy

unfoldable pub lottery_final_entropy : Crypto → Text → List ℕ → List ℕ → ℕ → Entropy
unfolding u32_le
lottery_final_entropy crypto server_seed client_seed_32 slot_hash nonce =
    if length client_seed_32 == 32
    then if length slot_hash == 32
      then entropy (crypto.hash (server_seed ++ (slot_hash ++ (client_seed_32 ++ u32_le nonce))))
      else failed slot_hash_length
    else failed client_seed_length

-- `getBigUint64(0, false)`: the first eight bytes, big-endian.
abbrev pub big_endian : ℕ → List ℕ → ℕ
big_endian acc [] = acc
big_endian acc (b ∷ bs) = big_endian (acc * 256 + b) bs

-- `roll(finalEntropy, tag)`
unfoldable pub roll : Crypto → List ℕ → List ℕ → ℕ
roll crypto final_entropy tag = big_endian 0 (take 8 (crypto.hash (final_entropy ++ tag)))

-- The digits from position `i` on, `left` more.
unfoldable pub draw_digits : Crypto → List ℕ → ℕ → ℕ → List ℕ
draw_digits crypto final_entropy i zero = []
draw_digits crypto final_entropy i (suc left) =
    roll crypto final_entropy (0x64 ∷ i ∷ []) % lottery_digit_max
    ∷ draw_digits crypto final_entropy (i + 1) left

-- The loop of `encodeLotteryNumber`.
unfoldable pub digits_value : ℕ → List ℕ → ℕ
digits_value value [] = value
digits_value value (d ∷ digits) = digits_value (value * 10 + d) digits

-- `encodeLotteryNumber`; `none` is the exception on a wrong number of digits.
unfoldable pub encode_lottery_number : List ℕ → Option ℕ
unfolding digits_value
encode_lottery_number digits =
    if length digits == lottery_digits
    then some (lottery_ticket_offset + digits_value 0 digits)
    else none

-- `lotteryDraw`, from the entropy on.
unfoldable pub lottery_draw : Crypto → List ℕ → List ℕ × Option ℕ
unfolding draw_digits
lottery_draw crypto final_entropy =
    let digits = draw_digits crypto final_entropy 0 lottery_digits in
    (digits, encode_lottery_number digits)

-- `ticketDigits[i] !== drawDigits[i]`, where a missing digit is `undefined`.
abbrev pub same_digit : Option ℕ → Option ℕ → Bool
same_digit none none = true
same_digit none (some d) = false
same_digit (some c) none = false
same_digit (some c) (some d) = c == d

-- The loop of `lotteryLeadingMatch` from position `i` on, `left` more.
unfoldable pub match_from : List ℕ → List ℕ → ℕ → ℕ → ℕ → ℕ
match_from ticket draw matched i zero = matched
match_from ticket draw matched i (suc left) =
    let rest = match_from ticket draw (matched + 1) (i + 1) left in
    if same_digit (get_elem? ticket i) (get_elem? draw i) then rest else matched

-- `lotteryLeadingMatch`
unfoldable pub lottery_leading_match : List ℕ → List ℕ → ℕ
unfolding match_from
lottery_leading_match ticket draw = match_from ticket draw 0 0 lottery_digits

-- `lotteryBracket`
unfoldable pub lottery_bracket : ℕ → Option ℕ
lottery_bracket match_len =
    if ltb match_len 1 then none else some (min match_len lottery_digits - 1)
