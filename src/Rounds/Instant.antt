-- ===== src/Rounds/Instant.antt =====
-- apps/api/src/games/instant/instant-settle.ts: a bet that is settled at once.
use scadium.Prelude.{
  ℕ, ◌*◌, ◌/◌, none, leb, ltb, if◌then◌else◌, Result, ◌>>=◌, ◌>>◌, raise_if, bad_request, Check,
}
use scadium.Prelude.Int.{pos, ◌-ℤ◌}
use scadium.Ledger.{apply_balance_delta}
use scadium.Fair.Hash.{Crypto}
use scadium.Fair.Derive.{Seed}
use scadium.Seeds.{Draws}
use scadium.Rounds.{GameType, Bet, Services, RoundDb, round_meta, settle}
use scadium.Rounds.Stateful.{Anchor, take_seed, fold_seed}

-- The payout of an outcome.
unfoldable pub instant_payout : ℕ → ℕ → ℕ
instant_payout amount multiplier = if ltb 0 multiplier then amount * multiplier / 100 else 0

module _ {E S P R : Type 0} where
  -- `settleInstantBet`; `resolve` gives the multiplier of a seed.
  unfoldable pub settle_instant_bet :
      Crypto
      → Draws
      → Services E
      → RoundDb E S P R
      → ℕ
      → GameType
      → ℕ
      → Anchor
      → (Seed → ℕ)
      → Result (RoundDb E S P R)
  settle_instant_bet crypto draws services db user_id game amount anchor resolve = do
    raise_if (leb amount 0) (bad_request Check.amount_not_positive)
    services.assert_can_wager db.rest db.accounts user_id amount
    debited ←
        apply_balance_delta db.accounts user_id (pos 0 -ℤ pos amount)
          (round_meta game "_bet" "Bet" none)
    let taken = take_seed crypto draws db.seeds user_id anchor.reserved
    seed ← fold_seed crypto taken.0 anchor
    let multiplier = resolve seed
    let payout = instant_payout amount multiplier
    let bet : Bet = record {
      id = db.next_id;
      user_id = user_id;
      game_type = game;
      amount_lamports = amount;
      payout_lamports = payout;
      multiplier = multiplier;
      is_won = ltb amount payout;
      nonce = seed.nonce;
    }
    settle services (record db { accounts = debited.1; seeds = taken.1 }) user_id game amount payout
        (round_meta game "_settle" "Bet" none) bet
