-- ===== src/Coinflip/Locked.antt =====
-- The stakes that open flips of apps/api/src/games/coinflip/coinflip.service.ts hold for their creators.
use scadium.Ledger.Worth.{to_user}
use scadium.Prelude.{
  ℕ, ◌+◌, ◌≡◌, inl, inr, refl, ap, ◌∙◌, Bool, true, not, ◌&&◌, ◌||◌, Option, none, some, List, [],
  ◌∷◌, ltb, leb, ◌==◌, if◌then◌else◌, arith, Bool-cases, Option-cases, Result-cases, ok, ◌>>=◌,
  raise_if, or_raise, bad_request, forbidden, not_found, Check, >>=-eq-ok,
}
use scadium.Prelude.Int.{ℤ, pos, ◌-ℤ◌, int_laws}
use scadium.Ledger.{apply_balance_delta}
use scadium.Ledger.Worth.{worth_of, worth_of-moved}
use scadium.Fair.Hash.{Text}
use scadium.Rounds.{Services}
use scadium.Coinflip.{
  Side, FlipStatus, Flip, FlipDb, is_open, find_flip, update_flip, guard_flip, flip_meta,
  cancel_open_flip,
}
use scadium.Coinflip.Commands.{
  place_flip, new_flip, count_open, min_flip_lamports, max_flip_lamports, max_open_per_user, cancel,
  expire_flips,
}

-- What one flip holds of user `j`.
abbrev pub held : ℕ → Flip → ℕ
held j f = if f.creator_id == j && is_open f.status then f.amount_lamports else 0

unfoldable pub locked : ℕ → List Flip → ℕ
locked j [] = 0
locked j (f ∷ flips) = held j f + locked j flips

-- The play balance of a user, and what the user's open flips hold.
unfoldable pub worth : {E : Type 0} → FlipDb E → ℕ → Option ℤ
worth db j = worth_of (locked j db.flips) (db.accounts.users j)

locked-cancelled :
    (j id : ℕ) (flips : List Flip) (game : Flip)
    → find_flip id flips ≡ some game
    → guard_flip (λ f. is_open f.status) id flips ≡ true
    → locked j (update_flip id (λ f. record f { status = FlipStatus.cancelled }) flips)
        + to_user game.creator_id game.amount_lamports j
      ≡ locked j flips
unfolding locked find_flip guard_flip update_flip is_open
locked-cancelled j id [] game found still_open = cc
locked-cancelled j id (f ∷ flips) game found still_open = elim (Bool-cases (f.id == id)) [
  | inl e ↦
      let same : f ≡ game = ground arith in
      let waits : is_open game.status ≡ true = rw (← same) (ground arith) in
      rw (e, same) (grind (arith, waits))
  | inr e ↦ rw e (grind (arith, locked-cancelled j id flips game (ground arith) (ground arith)))
]

cancel_open_flip-conserves :
    {E : Type 0} (id : ℕ) (db : FlipDb E) {db' : FlipDb E}
    → cancel_open_flip id db ≡ ok (some db')
    → (j : ℕ) → worth db' j ≡ worth db j
unfolding cancel_open_flip worth
cancel_open_flip-conserves id db {db'} h =
    elim (Bool-cases (guard_flip (λ f. is_open f.status) id db.flips)) [
      | inr closed ↦ absurd (ground arith)
      | inl still_open ↦ elim (Option-cases (find_flip id db.flips)) [
        | inl missing ↦ absurd (ground arith)
        | inr (game, found) ↦
            let meta = flip_meta "refund" "CoinflipGame" id in
            let n = game.amount_lamports in
            let change : Flip → Flip = λ f. record f { status = FlipStatus.cancelled } in
            let shown : (apply_balance_delta db.accounts game.creator_id (pos n) meta >>= λ paid.
            ok (some (record db { accounts = paid.1; flips = update_flip id change db.flips })))
                ≡ ok (some db') =
              rw (still_open, found) at h in
            let (paid, done, rest) =
              >>=-eq-ok (apply_balance_delta db.accounts game.creator_id (pos n) meta) _ shown in
            let same : db'
                ≡ record db { accounts = paid.1; flips = update_flip id change db.flips } =
              ground arith in
            let less = λ (j : ℕ). locked-cancelled j id db.flips game found still_open in
            let own : locked game.creator_id (update_flip id change db.flips) + n
                ≡ locked game.creator_id db.flips =
              grind (arith, less game.creator_id) in
            rw same (
              worth_of-moved db.accounts paid.1 game.creator_id (pos n) meta
                (λ j. locked j db.flips) (λ j. locked j (update_flip id change db.flips)) refl done
                (λ x. omega (int_laws, own)) (λ j ne. grind (arith, less j, ne)))
      ]
    ]

expire_flips-conserves :
    {E : Type 0} (ids : List ℕ) (db : FlipDb E) (j : ℕ) → worth (expire_flips ids db) j ≡ worth db j
unfolding expire_flips
expire_flips-conserves [] db j = refl
expire_flips-conserves (id ∷ ids) db j = elim (Result-cases (cancel_open_flip id db)) [
  | inr (e, failed) ↦ rw (failed, expire_flips) refl
  | inl (none, closed) ↦ rw (closed, expire_flips) (expire_flips-conserves ids db j)
  | inl (some db', done) ↦
      rw (done, expire_flips)
        (expire_flips-conserves ids db' j ∙ cancel_open_flip-conserves id db done j)
]

cancel-conserves :
    {E : Type 0} (db : FlipDb E) (user_id id : ℕ) {db' : FlipDb E}
    → cancel db user_id id ≡ ok db'
    → (j : ℕ) → worth db' j ≡ worth db j
unfolding cancel
cancel-conserves db user_id id {db'} h =
    let (game, found, h₁) = >>=-eq-ok (or_raise (find_flip id db.flips) not_found) _ h in
    let (u, own, h₂) = >>=-eq-ok (raise_if (not (game.creator_id == user_id)) forbidden) _ h₁ in
    let (cancelled, done, h₃) = >>=-eq-ok (cancel_open_flip game.id db) _ h₂ in
    elim (Option-cases cancelled) [
      | inl closed ↦ absurd (ground arith)
      | inr (next, e) ↦
          let same : next ≡ db' = ground arith in
          cancel_open_flip-conserves game.id db (done ∙ ap ok (e ∙ ap some same))
    ]

module _ {E : Type 0} (services : Services E) where
  place_flip-conserves :
      (server_seed : Text) (now : ℕ) (db : FlipDb E) (user_id : ℕ) (side : Side) (amount : ℕ)
      (vs_house : Bool) {game : Flip} {db' : FlipDb E}
      → place_flip services server_seed now db user_id side amount vs_house ≡ ok (game, db')
      → (j : ℕ) → worth db' j ≡ worth db j
  unfolding place_flip worth locked is_open
  place_flip-conserves server_seed now db user_id side amount vs_house {game} {db'} h =
      let (u, in_range, h₁) =
        >>=-eq-ok
          (raise_if (ltb amount min_flip_lamports || ltb max_flip_lamports amount)
            (bad_request Check.amount_range))
          _ h in
      let (v, may, h₂) =
        >>=-eq-ok (services.assert_can_wager db.rest db.accounts user_id amount) _ h₁ in
      let (user, here, h₃) = >>=-eq-ok (or_raise (db.accounts.users user_id) not_found) _ h₂ in
      let (w, welcome, h₄) = >>=-eq-ok (raise_if user.banned forbidden) _ h₃ in
      let (x, room, h₅) =
        >>=-eq-ok
          (raise_if (not vs_house && leb max_open_per_user (count_open user_id db.flips))
            (bad_request Check.too_many_flips))
          _ h₄ in
      let meta = flip_meta "coinflip_stake" "CoinflipGame" db.next_id in
      let (debited, done, h₆) =
        >>=-eq-ok (apply_balance_delta db.accounts user_id (pos 0 -ℤ pos amount) meta) _ h₅ in
      let new = new_flip db.next_id user_id side amount server_seed vs_house now in
      let flips : db'.flips ≡ new ∷ db.flips = ground arith in
      let accounts : db'.accounts ≡ debited.1 = ground arith in
      let own : locked user_id (new ∷ db.flips) ≡ amount + locked user_id db.flips = grind arith in
      rw (flips, accounts)
        (worth_of-moved db.accounts debited.1 user_id (pos 0 -ℤ pos amount) meta
          (λ j. locked j db.flips) (λ j. locked j (new ∷ db.flips)) refl done
          (λ b. omega (int_laws, own)) (λ j ne. grind (arith, ne)))

  -- A step that parks a stake or gives one back.
  pub data Parking (db : FlipDb E) : FlipDb E → Type 0 where
    placed :
        {db' : FlipDb E} (server_seed : Text) (now user_id : ℕ) (side : Side) (amount : ℕ)
        (vs_house : Bool) (game : Flip)
        → place_flip services server_seed now db user_id side amount vs_house ≡ ok (game, db')
        → Parking db db'
    withdrawn : {db' : FlipDb E} (user_id id : ℕ) → cancel db user_id id ≡ ok db' → Parking db db'
    expired : (ids : List ℕ) → Parking db (expire_flips ids db)

  -- Placing a flip, cancelling one, and the sweep of stale ones leave the play balance and the stakes held by
  -- open flips, added up, as they were for every user.
  pub Parking-conserves : (db db' : FlipDb E) → Parking db db' → (j : ℕ) → worth db' j ≡ worth db j
  Parking-conserves db db' (placed server_seed now user_id side amount vs_house game h) =
      place_flip-conserves server_seed now db user_id side amount vs_house h
  Parking-conserves db db' (withdrawn user_id id h) = cancel-conserves db user_id id h
  Parking-conserves db _ (expired ids) = λ j. expire_flips-conserves ids db j
