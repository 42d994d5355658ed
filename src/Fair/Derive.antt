-- ===== src/Fair/Derive.antt =====
-- packages/fair/src/derive.ts: the folding of on-chain entropy into a server seed. The canonical text of the game
-- parameters is an argument.
use scadium.Prelude.{
  ℕ, Option, none, some, List, [], ◌∷◌, ◌++◌, length, ◌==◌, if◌then◌else◌, ◌&&◌, ltb, ◌+◌,
}
use scadium.Fair.Hash.{Text, Crypto, to_hex}
use scadium.Fair.Lottery.{u32_le, pad_client_seed_32}

-- `.digest('hex')`, as the bytes of its characters.
unfoldable pub hex_text : List ℕ → Text
hex_text [] = []
hex_text (d ∷ ds) = (if ltb d 10 then 48 + d else 87 + d) ∷ hex_text ds

-- `gameParamsHash`, of the sorted lines of the parameters.
unfoldable pub game_params_hash : Crypto → Text → List ℕ
game_params_hash crypto canonical = crypto.hash canonical

-- `rngEntropy`; `none` is the error on a length other than 32.
unfoldable pub rng_entropy : Crypto → Text → List ℕ → List ℕ → ℕ → List ℕ → Option (List ℕ)
rng_entropy crypto server_seed client_seed_32 slot_hash nonce params_hash =
    if length client_seed_32 == 32 && length slot_hash == 32 && length params_hash == 32
    then some
        (crypto.hash (server_seed ++ slot_hash ++ client_seed_32 ++ u32_le nonce ++ params_hash))
    else none

-- What a game is derived from.
pub record Seed : Type 0 where
  pub server_seed : Text
  pub client_seed : Text
  pub nonce : ℕ

-- `deriveSeedContext`
unfoldable pub derive_seed_context : Crypto → Seed → Option (List ℕ) → Text → Option Seed
derive_seed_context crypto seed none canonical = some seed
derive_seed_context crypto seed (some entropy) canonical =
    elim (rng_entropy crypto seed.server_seed (pad_client_seed_32 seed.client_seed) entropy
      seed.nonce (game_params_hash crypto canonical)) [
        | none ↦ none
        | some folded ↦ some (record seed { server_seed = hex_text (to_hex folded) })
      ]
