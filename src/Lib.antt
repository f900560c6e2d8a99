-- ===== src/Lib.antt =====
-- Polyleverage: pairwise-matched, fully collateralized leverage contracts on Solana.
--
-- Two traders post intents; a match locks equal collateral of both in a contract (PMLC), and the
-- contract is settled at a price that an off-chain attestor has signed. The program keeps a margin
-- account for each trader and mint, an account for each contract, instrument and market nonce, fee
-- and volume accounts, and sessions that let a delegate trade within bounds. Each instruction is a
-- handler that checks its account list, loads accounts, changes them, and is rolled back on an error.
--
-- Base        shared names, machine words, integers, lists and bytes
-- Error       src/error.rs: the errors and their codes
-- Method      a handler or method: a state goes in, a result and the state come out, the state with
--             an error too
-- Fixed       src/math/fixed.rs: prices, sizes, profits and equity; u64, u128 and i128 as the source
--             checks, saturates or wraps them
-- State       src/state/: Margin (margin_account.rs), Session (session.rs), Volume (user_volume.rs),
--             Fees (fee_schedule.rs, fee_treasury.rs), Market (market_nonce.rs), Pmlc (pmlc.rs),
--             Config (program_config.rs, instrument_config.rs), Multisig (admin_multisig.rs),
--             Timelock (timelock.rs), Buckets (bucket_registry.rs), Stablecoins
--             (stablecoin_registry.rs)
-- Book        src/state/intent_book.rs: the header and the pool of nodes. Book.RedBlack has the
--             red-black trees that intent_tree.rs and seat_tree.rs share, over a view of the nodes;
--             Book.IntentTree and Book.SeatTree are the two files. Book.Pool is about the free list;
--             Book.Expand is the end of `process_expand_intent_book` of src/processor/instrument.rs
-- Attestation src/attestation.rs: the 104 bytes of an attestation, the Ed25519 instruction that
--             carries them, freshness and nonce
-- Accounts    src/utils.rs, src/pod.rs: the accounts by key, how they are loaded and written, and
--             what the runtime provides; Accounts.Books, the account of a book; Accounts.Creates, new
--             accounts; Accounts.Held, Accounts.Moves, Accounts.Views and
--             Accounts.Looks say what handlers change
-- Settlement  src/processor/settlement.rs: `process_liquidate` and `process_resolve`
-- Admin       src/processor/multisig.rs and admin.rs: the gate of administrative calls, the rotation of
--             the multisig, the pause; Admin.Setup, the initialisation of both accounts
-- Custody     src/processor/margin.rs: creation of margin accounts, deposit and withdrawal
-- Fees        src/processor/fees.rs: the fee schedule is made and changed, fees are swept, and the
--             treasury of a mint is made with the first match
-- Matching    src/processor/match_ix.rs: the search for a pair of intents; Matching.Pairs, the fill of a
--             pair in the book; Matching.Core, the match that opens a contract, and the handlers
-- Intents     src/processor/intent.rs: a post with the pruning and the session charge; Intents.Post, the
--             inline match, which swallows errors, and the handlers; Intents.Cancel, the cancellations
-- Novation    src/processor/novate.rs
-- Closing     src/processor/close_pmlc.rs: a settled contract's account is given up; the lamports of
--             the accounts are modelled there only
-- Sessions    src/processor/session.rs: creation and revocation
-- Timelock    src/processor/timelock.rs: proposal, execution and cancellation of a new attestation
--             signer
-- Tests       concrete runs
--
-- Keys and market ids are the numbers that their bytes spell. An account's contents are a value of
-- the type that has their size. The release profile checks arithmetic for overflow, so where the
-- source adds or subtracts plainly the model fails with `panic`. Loops are structural, but for those
-- that follow the links of a tree: these have fuel, `loop_bound`, more steps than there are indices,
-- and `walk_bound` for the walk, which is more than a tree of 64 levels takes. The descent of a
-- tree without a cycle takes at most as many steps as it has levels; that the two fix-up loops stay
-- within `loop_bound` is not proved. `find_program_address`, the clock and the instructions sysvar are
-- fields of a record `Runtime`; that the Ed25519 precompile checks signatures is a hypothesis of the
-- theorem that needs it.
--
-- Not modelled: padding and reserved bytes, log messages, rent, the borsh decoding of arguments,
-- the other handlers of src/processor/instrument.rs, those of registries.rs, substitute.rs,
-- reentry.rs, close_prune.rs and wusd.rs, and the dispatch of src/processor/mod.rs. The runtime's rule that a
-- program writes only to writable accounts of its own is not modelled; the handlers' own tests are. The
-- system program is a parameter of the handlers that create accounts; that it leaves the data of other
-- accounts alone and makes accounts only where there are none are hypotheses of the theorems that need
-- them; so is what a transfer of the token program does, which is a parameter too.
pub mod Base
pub mod Error
pub mod Method
pub mod Fixed
pub mod State
pub mod Attestation
pub mod Accounts
pub mod Settlement
pub mod Book
pub mod Custody
pub mod Closing
pub mod Sessions
pub mod Fees
pub mod Matching
pub mod Intents
pub mod Novation
pub mod Admin
pub mod Timelock
pub mod Tests
