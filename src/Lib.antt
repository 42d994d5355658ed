-- ===== src/Lib.antt =====
-- Scadium: a casino with provably fair games, one ledger of balances, a yield vault and on-chain withdrawals.
-- The library models the money and fairness core of the API (apps/api/src) and of the packages it shares with
-- the browser (packages/fair, packages/shared).
--
-- How the parts meet. Every balance moves through applyBalanceDelta. A bet takes a seed context from the
-- user's rotating pair, folds on-chain entropy into it when there is some, derives its outcome with
-- packages/fair, and settles: at once (settleInstantBet) or as a round in steps (startStatefulRound,
-- advanceStatefulRound). The vault locks SCAD into term pools by shares. Deposited funds leave through the
-- custody withdrawals.
--
-- Prelude: tests, lists, signed integers, counting, and the result type of the services (`Result`, one
--   constructor of `Error` for each exception class).
-- Ledger: apps/api/src/prisma/apply-balance-delta.ts. `Accounts` is the tables User and BalanceLedger;
--   `apply_balance_delta` is applyBalanceDelta, `derive_balance` is deriveBalance.
-- Fair: packages/fair/src. Hash is hash.ts, Floats floats.ts, Shuffle mines.ts, keno.ts and tower.ts, Cards
--   blackjack.ts, Lottery lottery.ts, Tickets jackpot.ts, engine-draw.ts, plinko.ts, wheel.ts and hilo.ts,
--   Derive derive.ts. The digests of node:crypto are the parameter `Crypto`; what is relied on is
--   `HasDigests`: 32 bytes. A float is its numerator over 2 ^ 32, which is exact.
-- Seeds: apps/api/src/fairness/seed-manager.service.ts, one function for each method, random seeds as
--   arguments.
-- Rounds: apps/api/src/games/instant/stateful-round.ts (Stateful) and instant-settle.ts (Instant), with the
--   settlement they share; Mines is apps/api/src/games/mines/mines.service.ts, Tower
--   games/tower/tower.service.ts and Hilo games/hilo/hilo.service.ts of apps/api/src, all on Stateful. The
--   services that a settlement calls are the record `Services`; that the proof of wager leaves the
--   play balance alone is `KeepsPlay`. A multiplier is its number of hundredths; minesMultiplier,
--   towerMultiplier, hiloStepMultiplier and floor2, which work in double arithmetic, are parameters.
-- Blackjack: apps/api/src/games/blackjack/blackjack.engine.ts: the types of the table are in Blackjack,
--   takeSeat and leaveSeat in Seats, the betting window in Betting, the deal, the turns and the dealer in
--   Hands, settle and recoverStrandedRounds in Settlement; Exposure is apps/api/src/common/exposure-guard.ts
--   and Facade is blackjack.service.ts. The table is a record that each call takes and returns; a
--   timer that fires is a call (`deal`, `time_out`, `end_pause`). `settle_hands` fixes the results
--   and `settle_tx` is the transaction, which takes the table as it is when it runs. `Hand` is the relation
--   of the calls during a hand, `Attempts` that of settlements and recoveries, `IsTable` what a table
--   satisfies between calls, and `Played` (Recovery) the relation of the calls of a round together with
--   the rows that it writes. Whether the rows of a new round and each later write of the row go through
--   is an argument (`stored` and `saved`); a failed write leaves the table changed. Between two of its
--   awaits a request of the facade is a `Task`, `serve` and `resume` are its steps, and `Serving` is the
--   relation of many requests in flight. A call of the table is one step: two calls do not interleave
--   at the awaits inside one, and the writes of the deal do not fail.
-- Coinflip: apps/api/src/games/coinflip/coinflip.service.ts and cancel-open-flip.ts; Commands has one function
--   for each command. `Taking` is what takes a flip, `Parking` what parks a stake or gives it back.
-- Affiliates: apps/api/src/affiliates/affiliates.service.ts, with `accrue` of
--   apps/api/src/proof-of-wager/proof-of-wager.service.ts. `engine` is the two as the `Services` of a
--   settlement, over the state `Network`. Rates are in parts per million.
-- Vault: packages/shared/src/constants.ts (Shares, and the planning of Strategy) and apps/api/src/vault:
--   vault.service.ts (Service), vault-accrual.service.ts (Accrual, its read and its commit apart) and
--   vault-strategy.service.ts (Strategy).
-- Lottery: apps/api/src/games/lottery/lottery.settlement.ts and lotteryPoolSplit of
--   packages/shared/src/constants.ts.
-- Custody: apps/api/src/custody/withdrawal.service.ts and apps/api/src/prisma/idempotency.ts. What the chain
--   answers is an argument of the step that reads it; `Fate` is what becomes of each signature, and
--   `IsHonest` that the reads agree with it; `worth` is a player's balance with what left it for the chain.
--
-- Amounts are bigints and never wrap. Loops are structural recursion; the while loop of handValue runs on the
-- number of aces, the dealer's draws on 17 units of fuel, since a draw adds at least 1 to a total below
-- 17, and decimal printing on the number itself, which exceeds its digits. A serializable transaction is
-- one function from the database to its result, and an exception is an error that writes nothing;
-- steps that do not share a transaction are separate functions, and a row that was read before is an
-- argument of the step that uses it.
--
-- Not modelled: the lobby of the blackjack tables, the other game engines with timers and sockets (crash,
-- jackpot, lottery), the idempotency keys of flips, the emission counter of the proof of wager, chain
-- deposits, authentication, chat, and the web client: the first are left for later, the last are I/O.
pub mod Affiliates
pub mod Blackjack
pub mod Coinflip
pub mod Custody
pub mod Fair
pub mod Ledger
pub mod Lottery
pub mod Prelude
pub mod Rounds
pub mod Seeds
pub mod Vault
