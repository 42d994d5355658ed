-- ===== src/Rounds/Stateful/Single.antt =====
-- The rounds of a user that are in progress: apps/api/src/games/instant/stateful-round.ts.
use scadium.Prelude.{
  ℕ, ◌+◌, ◌≤◌, ◌≡◌, refl, sym, subst, false, none, some, List, [], ◌∷◌, leb, arith, Result, ok,
  raise_if, conflict, >>=-eq-ok,
}
use scadium.Prelude.Int.{pos, ◌-ℤ◌}
use scadium.Prelude.Counting.{bit}
use scadium.Ledger.{apply_balance_delta}
use scadium.Fair.Hash.{Crypto}
use scadium.Fair.Derive.{Seed}
use scadium.Seeds.{Draws}
use scadium.Rounds.{GameType, game_index, Round, Services, RoundDb, round_meta}
use scadium.Rounds.Stateful.{
  Built, StepResult, Anchor, is_current, any_current, find_round, replace_round, take_seed,
  fold_seed, open_round, start_stateful_round, advance_stateful_round,
}
use scadium.Rounds.Stateful.Once.{find_round-id, step-row, advance-Advanced}

module _ {S P R : Type 0} where
  -- How many rounds of a user and a game are in progress.
  abbrev pub in_progress : ℕ → GameType → List (Round S P R) → ℕ
  in_progress user_id game [] = 0
  in_progress user_id game (r ∷ rs) = bit (is_current user_id game r) + in_progress user_id game rs

  abbrev pub IsSingle : List (Round S P R) → Type 0
  IsSingle rounds = (user_id : ℕ) (game : GameType) → in_progress user_id game rounds ≤ 1

  none_current :
      (user_id : ℕ) (game : GameType) (rounds : List (Round S P R))
      → any_current user_id game rounds ≡ false
      → in_progress user_id game rounds ≡ 0
  unfolding any_current
  none_current user_id game [] h = refl
  none_current user_id game (r ∷ rs) h = ground (arith, none_current user_id game rs)

  same_key :
      (u v : ℕ) (g k : GameType) (rounds : List (Round S P R))
      → u ≡ v
      → game_index g ≡ game_index k
      → in_progress u g rounds ≡ in_progress v k rounds
  same_key u v g k [] e f = refl
  same_key u v g k (r ∷ rs) e f = ground (arith, same_key u v g k rs e f)

  in_progress-replace :
      (u : ℕ) (g : GameType) (id : ℕ) (r q : Round S P R) (rounds : List (Round S P R))
      → find_round id rounds ≡ some r
      → in_progress u g (replace_round id q rounds) + bit (is_current u g r)
        ≡ in_progress u g rounds + bit (is_current u g q)
  unfolding find_round replace_round
  in_progress-replace u g id r q [] h = cc
  in_progress-replace u g id r q (x ∷ rs) h = ground (arith, in_progress-replace u g id r q rs)

module _ {E S P R : Type 0} where
  -- What a start that goes through has added to the rounds.
  start-rounds :
      (crypto : Crypto) (draws : Draws) (services : Services E) (db : RoundDb E S P R) (user_id : ℕ)
      (game : GameType) (stake : ℕ) (anchor : Anchor) (build : Seed → Built S P)
      {db' : RoundDb E S P R}
      → start_stateful_round crypto draws services db user_id game stake anchor build ≡ ok db'
      → (round : Round S P R) × (any_current user_id game db.rounds ≡ false)
        × (db'.rounds ≡ round ∷ db.rounds)
        × (round.user_id ≡ user_id)
        × (round.game_type ≡ game)
  unfolding start_stateful_round
  start-rounds crypto draws services db user_id game stake anchor build h =
      let (a, positive, h₁) = >>=-eq-ok (raise_if (leb stake 0) _) _ h in
      let (b, allowed, h₂) =
        >>=-eq-ok (services.assert_can_wager db.rest db.accounts user_id stake) _ h₁ in
      let (c, idle, h₃) = >>=-eq-ok (raise_if (any_current user_id game db.rounds) conflict) _ h₂ in
      let (debited, moved, h₄) =
        >>=-eq-ok
          (apply_balance_delta db.accounts user_id (pos 0 -ℤ pos stake)
            (round_meta game "_bet" "InstantRound" none))
          _ h₃ in
      let (seed, folded, h₅) =
        >>=-eq-ok
          (fold_seed crypto (take_seed crypto draws db.seeds user_id anchor.reserved).0 anchor) _
          h₄ in
      (
        open_round db.next_id user_id game stake
            (take_seed crypto draws db.seeds user_id anchor.reserved).0 seed (build seed),
        ground arith,
        ground arith,
        refl,
        refl,
      )

  -- A start that goes through leaves every user with at most one round of each game in progress, when they
  -- had at most one before.
  pub start-IsSingle :
      (crypto : Crypto) (draws : Draws) (services : Services E) (db : RoundDb E S P R) (user_id : ℕ)
      (game : GameType) (stake : ℕ) (anchor : Anchor) (build : Seed → Built S P)
      {db' : RoundDb E S P R}
      → IsSingle db.rounds
      → start_stateful_round crypto draws services db user_id game stake anchor build ≡ ok db'
      → IsSingle db'.rounds
  start-IsSingle crypto draws services db user_id game stake anchor build single h u g =
      let (round, idle, rounds, own, kind) =
        start-rounds crypto draws services db user_id game stake anchor build h in
      subst (λ (rs : List (Round S P R)). in_progress u g rs ≤ 1) (sym rounds)
        (ground (
          arith,
          single u g,
          none_current user_id game db.rounds idle,
          same_key user_id u game g db.rounds,
          own,
          kind,
        ))

  -- An advance that goes through keeps every user to at most one round of each game in progress.
  pub advance-IsSingle :
      (services : Services E) (db : RoundDb E S P R) (user_id round_id : ℕ) (game : GameType)
      (apply : Round S P R → Result (StepResult S P R)) {db' : RoundDb E S P R}
      → IsSingle db.rounds
      → advance_stateful_round services db user_id round_id game apply ≡ ok db'
      → IsSingle db'.rounds
  advance-IsSingle services db user_id round_id game apply {db'} single h u g =
      let a = advance-Advanced services db user_id round_id game apply h in
      let (q, rounds, same, own, kind, ends) = step-row services db db' a.round a.step a.written in
      let here = find_round-id round_id db.rounds a.round a.found in
      let moved = in_progress-replace u g a.round.id a.round q db.rounds (rw (← here) at a.found) in
      subst (λ (rs : List (Round S P R)). in_progress u g rs ≤ 1) (sym rounds)
        (ground (arith, single u g, moved, own, kind, a.open_round))
