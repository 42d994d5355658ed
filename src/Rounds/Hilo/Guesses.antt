-- ===== src/Rounds/Hilo/Guesses.antt =====
-- What the guesses of a round of hilo win (apps/api/src/games/hilo/hilo.service.ts).
use scadium.Prelude.{
  ℕ, zero, suc, ◌+◌, ◌≤◌, ◌<◌, ◌≡◌, inl, inr, refl, ap, ◌∙◌, ◌↔◌, true, false, Option, none, some,
  List, [], ◌∷◌, length, length-map, leb, get_elem?, ok, arith, Bool-cases,
}
use scadium.Fair.Hash.{Crypto, HasDigests}
use scadium.Fair.Floats.{scale, floats_from_hmac, floats_from_hmac_lem}
use scadium.Fair.Derive.{Seed}
use scadium.Fair.Tickets.{hilo_sequence, card_rank}
use scadium.Rounds.Stateful.{StepResult, continue, finish}
use scadium.Rounds.Hilo.{
  HiloDirection, higher, lower, HiloSecret, HiloPublic, HiloResult, HiloRound, build_hilo,
  is_correct, apply_guess, showing, max_steps,
}

-- A round in progress: the card after each guess is in the sequence, as many cards are behind as guesses were
-- right, and what is shown is the current card.
pub record IsOpen (secret : HiloSecret) (public : HiloPublic) : Type 0 where
  pub full : length secret.sequence ≡ max_steps + 1
  pub shown : public ≡ showing secret.sequence public.index public.steps public.cum_mult
  pub counted : public.index ≡ public.steps
  pub guess_left : public.steps < max_steps

-- The rule of the game: a card of rank at least, or at most, that of the card before it.
abbrev pub Follows : HiloDirection → ℕ → ℕ → Type 0
Follows higher card next = card_rank card ≤ card_rank next
Follows lower card next = card_rank next ≤ card_rank card

get_elem?-present : (xs : List ℕ) (n : ℕ) → n < length xs → (x : ℕ) × (get_elem? xs n ≡ some x)
get_elem?-present [] n h = absurd (omega arith)
get_elem?-present (x ∷ xs) zero h = (x, refl)
get_elem?-present (x ∷ xs) (suc n) h = get_elem?-present xs n (omega arith)

is_correct-Follows :
    (direction : HiloDirection) (card next : ℕ)
    → (is_correct direction (some (card_rank card)) (some (card_rank next)) ≡ true)
      ↔ Follows direction card next
unfolding is_correct
is_correct-Follows higher card next = (λ h. ground arith, λ h. ground arith)
is_correct-Follows lower card next = (λ h. ground arith, λ h. ground arith)

-- A new round is in progress, whatever its seed.
pub build_hilo-IsOpen :
    (crypto : Crypto) (seed : Seed)
    → HasDigests crypto
    → let built = build_hilo crypto seed in IsOpen built.secret built.public
unfolding build_hilo hilo_sequence
build_hilo-IsOpen crypto seed digests = record {
  full =
      length-map
        (floats_from_hmac crypto seed.server_seed seed.client_seed seed.nonce (max_steps + 1))
        (λ f. scale f 52)
      ∙ (floats_from_hmac_lem crypto digests seed.server_seed seed.client_seed seed.nonce
          (max_steps + 1)).0;
  shown = refl;
  counted = refl;
  guess_left = omega arith;
}

module _ (step_multiplier : Option ℕ → HiloDirection → ℕ) (product : ℕ → ℕ → ℕ) where
  -- The multiplier after a right guess on `card`.
  abbrev pub compounded : HiloDirection → HiloRound → ℕ → ℕ
  compounded direction round card =
      product round.public.cum_mult (step_multiplier (some (card_rank card)) direction)

  -- What the answer to a guess means, when `next` comes after `card`: the next card is shown, the guess was
  -- wrong, or it was the last one and right.
  abbrev pub IsFairGuess :
      HiloDirection → HiloRound → ℕ → ℕ → StepResult HiloSecret HiloPublic HiloResult → Type 0
  IsFairGuess direction round card next (continue secret public multiplier) =
      Follows direction card next
      × (multiplier ≡ compounded direction round card)
      × (public.cum_mult ≡ multiplier)
      × (public.card ≡ some next)
      × (secret ≡ round.secret)
      × IsOpen secret public
  IsFairGuess direction round card next (finish false multiplier result) =
      (multiplier ≡ 0) × ¬ (Follows direction card next)
  IsFairGuess direction round card next (finish true multiplier result) =
      Follows direction card next
      × (multiplier ≡ compounded direction round card)
      × (result.steps ≡ some max_steps)

  -- Every guess in a round in progress is answered, and by the rule of the game: a guess that the next card of the
  -- committed sequence does not follow loses the round; one that it follows compounds the multiplier, and
  -- the round goes on with that card shown until all the guesses are made, when it is won.
  pub apply_guess-fair :
      (direction : HiloDirection) (round : HiloRound)
      → IsOpen round.secret round.public
      → (card : ℕ) × (next : ℕ) × (get_elem? round.secret.sequence round.public.index ≡ some card)
        × (get_elem? round.secret.sequence (round.public.index + 1) ≡ some next)
        × ((s : StepResult HiloSecret HiloPublic HiloResult) × (apply_guess step_multiplier product
                direction round
              ≡ ok s)
            × IsFairGuess direction round card next s)
  unfolding apply_guess
  apply_guess-fair direction round play =
      let sequence = round.secret.sequence in
      let n = round.public.index in
      let (card, found) =
        get_elem?-present sequence n (omega (arith, play.full, play.counted, play.guess_left)) in
      let (next, after) =
        get_elem?-present sequence (n + 1)
          (omega (arith, play.full, play.counted, play.guess_left)) in
      let m = compounded direction round card in
      let rule = is_correct-Follows direction card next in
      (
        card,
        next,
        found,
        after,
        elim (Bool-cases (is_correct direction (some (card_rank card)) (some (card_rank next)))) [
          | inr wrong ↦ (
            finish false 0 (record {
              sequence = sequence;
              index = n;
              busted = some (record {
                direction = direction;
                current_rank = some (card_rank card);
                next_card = some next;
                next_rank = some (card_rank next);
              });
              steps = none;
              reached_end = false;
              cashed_out = false;
            }),
            rw (found, after, wrong) refl,
            (refl, λ h. absurd (ground (arith, rule.1 h))),
          )
          | inl right ↦ elim (Bool-cases (leb max_steps (round.public.steps + 1))) [
            | inl last ↦ (
              finish true m (record {
                sequence = sequence;
                index = n + 1;
                busted = none;
                steps = some (round.public.steps + 1);
                reached_end = true;
                cashed_out = false;
              }),
              rw (found, after, right, last) refl,
              (rule.0 right, refl, ap some (ground (arith, play.guess_left))),
            )
            | inr more ↦ (
              continue round.secret (showing sequence (n + 1) (round.public.steps + 1) m) m,
              rw (found, after, right, more) refl,
              (
                rule.0 right,
                refl,
                refl,
                after,
                refl,
                record {
                  full = play.full;
                  shown = refl;
                  counted = omega (arith, play.counted);
                  guess_left = ground arith;
                },
              ),
            )
          ]
        ],
      )
