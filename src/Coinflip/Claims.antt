-- ===== src/Coinflip/Claims.antt =====
-- What takes a flip of apps/api/src/games/coinflip/coinflip.service.ts, and what happens to it later.
use scadium.Prelude.{
  ℕ, ◌≡◌, ◌≢◌, inl, inr, refl, subst, ◌∙◌, Bool, false, not, ◌&&◌, ◌||◌, none, some, ◌∷◌, ltb, leb,
  ◌==◌, arith, Bool-cases, Option-cases, ok, err, ◌>>=◌, raise_if, or_raise, bad_request, forbidden,
  not_found, Check, >>=-eq-ok,
}
use scadium.Prelude.Int.{pos, ◌-ℤ◌}
use scadium.Ledger.{apply_balance_delta}
use scadium.Fair.Hash.{Text, Crypto}
use scadium.Seeds.{Draws}
use scadium.Rounds.{Services}
use scadium.Coinflip.{
  Side, FlipStatus, Flip, FlipDb, Opponent, is_open, joinable, find_flip, update_flip, guard_flip,
  flip_meta, cancel_open_flip, take_other_side, settle_sides, human_sides, resolve, completed_flip,
  coinflip_result, same_side,
}
use scadium.Coinflip.Commands.{
  place_flip, new_flip, count_open, min_flip_lamports, max_flip_lamports, max_open_per_user,
}
use scadium.Coinflip.Guards.{
  IsTaken, Takes, completed_closed, resolving_closed, cancelled_closed, update-IsTaken,
  update-closes, taken-joinable, take_other_side-flips, settle_sides-flips,
}

module _ {E : Type 0} (services : Services E) where
  -- What takes a flip: its resolution, or its cancellation.
  pub data Taking (id : ℕ) (db db' : FlipDb E) : Type 0 where
    resolved :
        (crypto : Crypto) (draws : Draws) (now : ℕ) (game : Flip) (opponent : Opponent)
        → game.id ≡ id
        → resolve services crypto draws now game opponent db ≡ ok db'
        → Taking id db db'
    cancelled_now : cancel_open_flip id db ≡ ok (some db') → Taking id db db'

  -- What happens later: new flips with ids of their own, and further takings.
  pub data Later (id : ℕ) (db : FlipDb E) : FlipDb E → Type 0 where
    no_more : Later id db db
    then_taken :
        {db' db'' : FlipDb E} (other : ℕ)
        → Later id db db'
        → Taking other db' db''
        → Later id db db''
    then_placed :
        {db' db'' : FlipDb E} (server_seed : Text) (now user_id : ℕ) (side : Side) (amount : ℕ)
        (vs_house : Bool) (game : Flip)
        → Later id db db'
        → db'.next_id ≢ id
        → place_flip services server_seed now db' user_id side amount vs_house ≡ ok (game, db'')
        → Later id db db''

  resolve-IsTaken :
      (crypto : Crypto) (draws : Draws) (now : ℕ) (game : Flip) (opponent : Opponent)
      (db : FlipDb E) {db' : FlipDb E}
      → resolve services crypto draws now game opponent db ≡ ok db'
      → ((j : ℕ) → IsTaken j db.flips → IsTaken j db'.flips) × IsTaken game.id db'.flips
  unfolding resolve
  resolve-IsTaken crypto draws now game opponent db {db'} h =
      let claimed : FlipDb E = record db {
        flips = update_flip game.id (λ f. record f { status = FlipStatus.resolving }) db.flips;
      } in
      let (u, free, h₁) =
        >>=-eq-ok
          (raise_if (not (guard_flip (joinable now) game.id db.flips))
            (bad_request Check.not_joinable))
          _ h in
      let (taken, side_taken, h₂) =
        >>=-eq-ok (take_other_side crypto draws game opponent claimed) _ h₁ in
      let result = coinflip_result crypto taken.1 taken.0.client_seed taken.0.nonce in
      let (settled, paid, h₃) =
        >>=-eq-ok
          (settle_sides services game taken.0.nonce
            (human_sides game opponent (same_side result game.creator_side)) taken.2)
          _ h₂ in
      let final = completed_flip services game opponent result taken.0 in
      let flips : db'.flips ≡ update_flip game.id final settled.flips = ground arith in
      let kept : settled.flips ≡ claimed.flips =
        settle_sides-flips services game taken.0.nonce
          (human_sides game opponent (same_side result game.creator_side)) taken.2 paid
        ∙ take_other_side-flips crypto draws game opponent claimed side_taken in
      let ends : Takes final = record { id = λ f. refl; not_open = λ f. completed_closed } in
      let starts : Takes (λ f. record f { status = FlipStatus.resolving }) = record {
        id = λ f. refl;
        not_open = λ f. resolving_closed;
      } in
      (
        λ j taken_before.
            rw (flips, kept)
              (update-IsTaken j game.id final claimed.flips ends (
                update-IsTaken j game.id (λ f. record f { status = FlipStatus.resolving }) db.flips
                  starts taken_before)),
        rw (flips, kept) (update-closes game.id final claimed.flips ends),
      )

  cancel-IsTaken :
      (id : ℕ) (db : FlipDb E) {db' : FlipDb E}
      → cancel_open_flip id db ≡ ok (some db')
      → ((j : ℕ) → IsTaken j db.flips → IsTaken j db'.flips) × IsTaken id db'.flips
  unfolding cancel_open_flip
  cancel-IsTaken id db {db'} h =
      elim (Bool-cases (guard_flip (λ f. is_open f.status) id db.flips)) [
        | inr closed ↦ absurd (ground arith)
        | inl still_open ↦ elim (Option-cases (find_flip id db.flips)) [
          | inl missing ↦ absurd (ground arith)
          | inr (game, found) ↦
              let meta = flip_meta "refund" "CoinflipGame" id in
              let change : Flip → Flip = λ f. record f { status = FlipStatus.cancelled } in
              let shown : (apply_balance_delta db.accounts game.creator_id
                      (pos game.amount_lamports) meta
                    >>= λ paid. ok (
                        some (record db {
                          accounts = paid.1;
                          flips = update_flip id change db.flips;
                        })))
                  ≡ ok (some db') =
                rw (still_open, found) at h in
              let (paid, done, rest) =
                >>=-eq-ok
                  (apply_balance_delta db.accounts game.creator_id (pos game.amount_lamports) meta)
                  _ shown in
              let flips : db'.flips ≡ update_flip id change db.flips = ground arith in
              let ends : Takes change = record {
                id = λ f. refl;
                not_open = λ f. cancelled_closed;
              } in
              (
                λ j taken. rw flips (update-IsTaken j id change db.flips ends taken),
                rw flips (update-closes id change db.flips ends),
              )
        ]
      ]

  Taking-IsTaken :
      (id : ℕ) (db db' : FlipDb E)
      → Taking id db db'
      → ((j : ℕ) → IsTaken j db.flips → IsTaken j db'.flips) × IsTaken id db'.flips
  Taking-IsTaken id db db' (resolved crypto draws now game opponent same h) =
      let (others, own) = resolve-IsTaken crypto draws now game opponent db h in
      (others, subst (λ k. IsTaken k db'.flips) same own)
  Taking-IsTaken id db db' (cancelled_now h) = cancel-IsTaken id db h

  place_flip-IsTaken :
      (server_seed : Text) (now : ℕ) (db : FlipDb E) (user_id : ℕ) (side : Side) (amount : ℕ)
      (vs_house : Bool) (id : ℕ) {game : Flip} {db' : FlipDb E}
      → place_flip services server_seed now db user_id side amount vs_house ≡ ok (game, db')
      → db.next_id ≢ id
      → IsTaken id db.flips
      → IsTaken id db'.flips
  unfolding place_flip guard_flip
  place_flip-IsTaken server_seed now db user_id side amount vs_house id {game} {db'} h fresh taken =
      let (u, in_range, h₁) =
        >>=-eq-ok
          (raise_if (ltb amount min_flip_lamports || ltb max_flip_lamports amount)
            (bad_request Check.amount_range))
          _ h in
      let (v, may, h₂) =
        >>=-eq-ok (services.assert_can_wager db.rest db.accounts user_id amount) _ h₁ in
      let (user, here, h₃) = >>=-eq-ok (or_raise (db.accounts.users user_id) not_found) _ h₂ in
      let (w, welcome, h₄) = >>=-eq-ok (raise_if user.banned forbidden) _ h₃ in
      let (x, room, h₅) =
        >>=-eq-ok
          (raise_if (not vs_house && leb max_open_per_user (count_open user_id db.flips))
            (bad_request Check.too_many_flips))
          _ h₄ in
      let (debited, done, h₆) =
        >>=-eq-ok
          (apply_balance_delta db.accounts user_id (pos 0 -ℤ pos amount)
            (flip_meta "coinflip_stake" "CoinflipGame" db.next_id))
          _ h₅ in
      let new = new_flip db.next_id user_id side amount server_seed vs_house now in
      let flips : db'.flips ≡ new ∷ db.flips = ground arith in
      let other : (db.next_id == id) ≡ false = ground arith in rw (flips, other) taken

  Later-IsTaken :
      (id : ℕ) (db : FlipDb E) {db' : FlipDb E}
      → IsTaken id db.flips
      → Later id db db'
      → IsTaken id db'.flips
  Later-IsTaken id db taken no_more = taken
  Later-IsTaken id db taken (then_taken {db'} {db''} other before last) =
      (Taking-IsTaken other db' db'' last).0 id (Later-IsTaken id db taken before)
  Later-IsTaken id db taken
        (then_placed {db'} {db''} server_seed now user_id side amount vs_house game before fresh
          h) =
      place_flip-IsTaken server_seed now db' user_id side amount vs_house id h fresh
        (Later-IsTaken id db taken before)

  -- A flip is resolved or cancelled once: after either goes through, and whatever else is created, joined, played
  -- against the house, cancelled or expired, each further resolution of it is refused before it moves
  -- anything, and each further cancellation finds it no longer open and refunds nothing.
  pub Taking-once :
      (id : ℕ) (db db' : FlipDb E) {db'' : FlipDb E}
      → Taking id db db'
      → Later id db' db''
      → ((crypto : Crypto) (draws : Draws) (now : ℕ) (game : Flip) (opponent : Opponent)
          → resolve services crypto draws now (record game { id = id }) opponent db''
            ≡ err (bad_request Check.not_joinable))
        × (cancel_open_flip id db'' ≡ ok none)
  unfolding resolve cancel_open_flip
  Taking-once id db db' {db''} first later =
      let closed = Later-IsTaken id db' (Taking-IsTaken id db db' first).1 later in
      (
        λ crypto draws now game opponent. rw (taken-joinable now id db''.flips closed) refl,
        rw (closed, cancel_open_flip) refl,
      )
