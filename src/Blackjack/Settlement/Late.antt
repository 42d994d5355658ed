-- ===== src/Blackjack/Settlement/Late.antt =====
-- A settlement of apps/api/src/games/blackjack/blackjack.engine.ts whose transaction runs, or runs again, after
-- the next round has opened.
use scadium.Prelude.{
  ℕ, ◌≡◌, ◌≢◌, inl, inr, refl, sym, ap, ◌∙◌, Bool, true, false, not, Option, some, List, [], ◌∷◌,
  map, ◌==◌, arith, Bool-cases, Option-cases, ok, raise_if, or_raise, missing_row, claim_lost,
  >>=-eq-ok,
}
use scadium.Rounds.{Services}
use scadium.Blackjack.{
  Phase, SeatBet, Seat, TableState, RoundRow, bet_total, same_phase, seat_of, update_round,
  write_state, persist_betting_stakes,
}
use scadium.Blackjack.Betting.{
  Opening, place_bet, accept_bet, start_betting, put_bet, open_betting, clear_bet_of, swap_exposure,
}
use scadium.Blackjack.Settlement.{BlackjackDb, settle_tx, is_open_round}
use scadium.Blackjack.Settlement.Once.{pay_seats-rounds, update-closes}

-- A write to another row, or one that leaves `endedAt` alone, leaves a round open.
update-elsewhere :
    (id other : ℕ) (change : RoundRow → RoundRow) (rows : List RoundRow)
    → other ≢ id
    → ((r : RoundRow) → (change r).id ≡ r.id)
    → is_open_round id (update_round other change rows) ≡ is_open_round id rows
unfolding is_open_round update_round
update-elsewhere id other change [] ne same = refl
update-elsewhere id other change (r ∷ rows) ne same = elim (Bool-cases (r.id == other)) [
  | inl e ↦ let away : (r.id == id) ≡ false = ground arith in rw (e, same r, away) refl
  | inr e ↦ rw (e, update-elsewhere id other change rows ne same) refl
]

-- What a bet on a settled table leaves: the round that it opened, and the one before.
record Opened (old new : ℕ) (t : TableState) (rows : List RoundRow) : Type 0 where
  current : t.round_db_id ≡ some new
  still : is_open_round old rows ≡ true

put_bet-Opened :
    (env : Opening) (t : TableState) (rounds : List RoundRow) (index : ℕ) (bet : SeatBet) (old : ℕ)
    {prev : ℕ}
    → env.round_id ≢ old
    → is_open_round old rounds ≡ true
    → (put_bet env true t rounds index bet 0).2 ≡ ok prev
    → Opened old env.round_id
        (put_bet env true t rounds index bet 0).0
        (put_bet env true t rounds index bet 0).1
unfolding put_bet start_betting open_betting persist_betting_stakes write_state is_open_round
    update_round
put_bet-Opened env t rounds index bet old ne still h =
    elim (Bool-cases (swap_exposure env.chain_enabled t 0 (bet_total bet)).0) [
      | inl fits ↦
          let own : (env.round_id == env.round_id) ≡ true = ground arith in
          let away : (env.round_id == old) ≡ false = ground arith in
          elim (Bool-cases env.stored) [
            | inl stored ↦ elim (Bool-cases env.saved) [
              | inl saved ↦
                  rw (fits, put_bet)
                    (rw (stored, saved, start_betting)
                      (record { current = refl; still = rw (own, away) still }))
              | inr lost ↦ absurd (ground arith)
            ]
            | inr failed ↦ absurd (ground arith)
          ]
      | inr full ↦ absurd (ground arith)
    ]

place_bet-Opened :
    (env : Opening) (t : TableState) (rounds : List RoundRow) (user_id : ℕ) (bet : SeatBet)
    (old : ℕ) {prev : ℕ}
    → t.phase ≡ Phase.settled
    → env.round_id ≢ old
    → is_open_round old rounds ≡ true
    → (place_bet env t rounds user_id bet).2 ≡ ok prev
    → Opened old env.round_id
        (place_bet env t rounds user_id bet).0
        (place_bet env t rounds user_id bet).1
unfolding place_bet accept_bet same_phase
place_bet-Opened env t rounds user_id bet old settled ne still h =
    elim (Option-cases (seat_of user_id t.seats)) [
      | inl none_seated ↦ absurd (ground arith)
      | inr (seat, found) ↦
          let cleared : TableState = record t { seats = map clear_bet_of t.seats } in
          let same : place_bet env t rounds user_id bet
              ≡ put_bet env true cleared rounds seat.index bet 0 =
            rw
              (
                ap (λ q. same_phase q Phase.idle) settled,
                ap (λ q. same_phase q Phase.betting) settled,
                ap (λ q. same_phase q Phase.settled) settled,
                found,
                place_bet,
              )
              (rw (ap (λ q. same_phase q Phase.settled) settled, accept_bet) refl) in
          rw same (
            put_bet-Opened env cleared rounds seat.index bet old ne still
              (ap (λ x. x.2) (sym same) ∙ h))
    ]

module _ {E : Type 0} (services : Services E) (ratio : ℕ → ℕ → ℕ) where
  -- On a settled table whose round is still open, a bet opens the next round, with another id. A settlement whose
  -- transaction runs only then, and goes through, ends that next round, whose hands are not played yet,
  -- and leaves the round that it pays open.
  pub late_settlement :
      (env : Opening) (t : TableState) (rounds : List RoundRow) (user_id : ℕ) (bet : SeatBet)
      (old : ℕ) (leader : Bool) (players : List Seat) (state : List (ℕ × Option SeatBet))
      (db : BlackjackDb E) {t' : TableState} {rows : List RoundRow} {prev : ℕ} {db' : BlackjackDb E}
      → t.phase ≡ Phase.settled
      → t.round_db_id ≡ some old
      → env.round_id ≢ old
      → is_open_round old rounds ≡ true
      → place_bet env t rounds user_id bet ≡ (t', rows, ok prev)
      → settle_tx services ratio leader players state t' (record db { rounds = rows }) ≡ ok db'
      → (is_open_round env.round_id db'.rounds ≡ false) × (is_open_round old db'.rounds ≡ true)
  unfolding place_bet accept_bet same_phase settle_tx
  late_settlement env t rounds user_id bet old leader players state db {t'} {rows} {prev} {db'}
        settled known ne still placed h =
      let opened : Opened old env.round_id t' rows =
        rw (← ap (λ x. x.0) placed, ← ap (λ x. x.1) placed)
          (place_bet-Opened env t rounds user_id bet old settled ne still (ap (λ x. x.2) placed)) in
      let (u, led, h₁) = >>=-eq-ok (raise_if (not leader) claim_lost) _ h in
      let (own, named, h₂) = >>=-eq-ok (or_raise t'.round_db_id missing_row) _ h₁ in
      let (v, free, h₃) = >>=-eq-ok (raise_if (not (is_open_round own rows)) claim_lost) _ h₂ in
      let same : own ≡ env.round_id = ground (arith, opened.current) in
      let change : RoundRow → RoundRow = λ r. record r { ended = true; seats = state } in
      let wrote : db'.rounds ≡ update_round env.round_id change rows =
        pay_seats-rounds services ratio t'.nonce players
          (record db { rounds = update_round own change rows }) h₃
        ∙ ap (λ k. update_round k change rows) same in
      (
        ap (is_open_round env.round_id) wrote
            ∙ update-closes env.round_id change rows (record { id = λ r. refl; ended = λ r. refl }),
        ap (is_open_round old) wrote
            ∙ update-elsewhere old env.round_id change rows ne (λ r. refl)
            ∙ opened.still,
      )
