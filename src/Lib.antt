-- ===== src/Lib.antt =====
-- Oracle escrow and fee vesting: a model of the contract in src/lib.rs, of the treasury in
-- contracts/fee-vesting/src/lib.rs and of the settlement arithmetic in sim/incentive/src/math.rs, with
-- what makes them correct.
--
-- The escrow takes payments for questions, holds them until an admin or a delegated resolver settles
-- them, pays the winning workers and slashes the stake of the losing ones, and keeps prepaid balances,
-- bonds of challengers and a set of timelocked settings. Its storage is one key-value store; here it is
-- the record State, with one part per component:
--   - Escrow/Types.antt: the constants, the errors and the stored types. A key that carries an id or an
--     address is a Table from that id (Base/Table.antt); an address, a token, a hash or a symbol is a
--     number. The key of a stake, an earning or a balance is `default_asset holder` for DataKey::Stake,
--     Owed and Balance and `asset token holder` for the AssetKey variants.
--   - Escrow/Call.antt: an invocation. It returns a value and a state, an error, or a trap; the host
--     reverts every write of an invocation that fails, so the last two carry no state.
--   - Escrow/Access.antt: the guards (require_admin, require_not_paused, require_allowed_token and so
--     on) and the choice of keys.
--   - Escrow/Bps.antt: mul_bps. Escrow/Stake: the buckets of a bond and the tranches that warm up
--     (mature_warming, add_warming, drain_warming, the arithmetic of slash and begin_unstake).
--   - Escrow/Index: the pending index (index_add, index_remove, list_pending). Escrow/Ranking: the
--     leaderboard. Escrow/Settle: the settlement that resolve runs, from validate_worker_lists to
--     settle_question, and its preview.
--   - Escrow/Entry: the entry points: Funding (submit, deposit, charge, import_question),
--     Bonding (stake, begin_unstake, complete_unstake), Payout (withdraw, lock_owed,
--     release_owed), Refund, Dispute (escalate, challenge and finalize), Migration, Balances
--     and Admin; Timelock, Lien, Lifetime, Arrival and Handover prove things of them.
--   - Escrow/Ensures.antt: how to reason about a call that returns. Escrow/Solvency: the liabilities
--     of the contract and the proof that its transfers cover them; Entries lists the requests that the
--     theorem is about. Escrow/Runs.antt and the modules called Tests: the model at work.
--   - Escrow/Consensus: unanimous_dissenter and resolve_by_consensus, against a description of what a
--     consensus is. Escrow/Dispute: the window of a challengeable resolution (Window) and
--     what a dispute ends (Stopped, Halted).
--   - Escrow/Registry: top-up thresholds, passkeys, KYC attestations, reputation and stake snapshots.
--   - Sim: the arithmetic of sim/incentive/src/math.rs (Math), which promises to be the contract's, and
--     the proofs that it is (Buckets for one slash, Replay for the loop over the losers).
--   - Vesting: the treasury that receives fees. It is a contract of its own that no call of the escrow
--     reaches; its state is the Treasury of Vesting/Defs.antt, its calls are initialize,
--     set_beneficiary and claim_vested. Wide, Division and Product are its 256-bit arithmetic, Curve
--     the amount vested at a time, Payments and Claims what it pays over its life.
--
-- Numbers. An i128 argument is an integer; what the store holds is never negative and is a natural
-- number. checked_add fails above the i128 range, u32 sums saturate or trap as in the source. The
-- release build traps on overflow, so an unchecked sum or product that would overflow is a call
-- that does not return. The preview of a resolution and the effective stake, which multiply large
-- amounts, model that trap; elsewhere the model lets the sum or
-- product go through, and what is proved holds of it too. Loops are recursion on the list that they
-- run over, so no fuel is needed.
--
-- What is not in the source is a parameter, the record Env: the ledger, which addresses have
-- signed, the contract's own address, the decimals of a token, the host's highest lifetime, and for
-- every token contract which transfers it accepts after those before. The verifiers of signatures
-- and the contract that questions and balances are migrated to are parameters of the calls that use
-- them. The call of import_question that a migration makes is logged in the state with its
-- arguments. A transfer that is accepted is logged too, and that log is what the contract has
-- received and paid out. Tokens are taken to move the amount that they are asked to. Where money
-- comes in, the theorems ask that nobody signs for the contract's own address, which is how the
-- host treats a contract that is not calling.
--
-- A sweep goes on after a question that fails. Each error of the refund in it is returned before the
-- first write, so the model goes on from the state before that question.
--
-- The source holds an unfinished merge around settle_asset: its header stands at one place, its body
-- under the name settle_resolution at another, and load_question is there twice. The model takes the
-- body of settle_asset as the function that settle_resolution calls for each leg, with the leg's token.
--
-- Not modelled: events; the extension of entry lifetimes, but for its target for a question; what a
-- contract that questions and balances are migrated to may call back; the views that return stored
-- values; compute_median, which nothing calls; the behaviour of workers in sim/incentive,
-- and the tests and fuzz targets. Of finalize_resolve, the solvency theorem takes the calls on a
-- question in the default token or without a bond: the code adds a bond in the default token to a
-- payment in the question's token, which can then fall short.
pub mod Base
pub mod Escrow
pub mod Vesting
pub mod Sim
