-- ===== src/Lib.antt =====
-- A verification library for the anonymous masternode membership gateway: a node operator proves in
-- zero knowledge that one of the listed masternodes is theirs, and a chat account gets at most one
-- membership for each voting key, epoch and context.
--
-- The parts and their files.
--   * Merkle: the trees. core/members_tree.js is Merkle/MembersTree.antt, one function for each method
--     of `MembersTree`; common/dml_root.js is Merkle/DmlRoot.antt, and
--     common/dml_sha_root.js, with its own hashes in the same builder, Merkle/ShaRoot.antt;
--     common/merkle_path.js is Merkle/MerklePath.antt. Merkle/Padded.antt is what the three are measured against: the root of
--     the full binary tree over the leaves, continued with the zero leaf. The Poseidon hash, the field
--     and `BigInt` are a parameter, the record `Poseidon` of Merkle/Hash.antt.
--   * Stores: core/stores.js. Stores/RootStore.antt, Stores/RootWindows.antt, Stores/Nullifiers.antt,
--     Stores/Challenges.antt, Stores/RateLimiter.antt and Stores/Semaphore.antt are the classes of
--     these names, and Stores/LeafSet.antt is `leafSetCommitment`.
--   * Verifier: core/verifier.js. `verifyMembership` is `check_policy` and then the state machine
--     `advance`, one step for each await: the step makes the awaited call on the nullifier store and
--     runs the code up to the next await. Verifier/Races.antt has any number of checks over one store.
--     Verifier/Registering.antt is `verifyRegistrationCore` in the same way, its steps interleaved with
--     other operations of the season; Verifier/Registering/Decoded.antt has the two decoders and the
--     entries `verifyRegistration` and `verifyZkvmRegistration`.
--   * Registration: core/registration_store.js, `RegistrationStore` over `MemoryRegistrationBackend`.
--     Registration/Loader.antt is `#load()` of `FileBackend`, from the parsed lines of the file to the
--     index; Registration/Loader/Written.antt has the lines that the appends write, and
--     Registration/FileBackend.antt the append and the reconciliation of `FileBackend` where a flush, a
--     write, a read or a close fails.
--   * Season: core/season.js. Season/State.antt is the state of `SeasonMembers`, its views and `_roll`;
--     Season/Trees.antt builds trees from the records, for `recoverMember`, `ensure` and `ensureContext`;
--     Season/Commit.antt is `commit` with the durable write that core/gateway.js passes to it. It calls
--     Merkle/MembersTree.antt, Stores/RootStore.antt and Registration.antt as the code does, and the
--     registration check of the verifier calls it. An operation that the code's `_serial` queues is one
--     function of the state, so a sequence of them is any order in which the queue runs them.
--   * TimeGuard: core/time_guard.js, with `epochNow` and `seasonNow` of common/index.js.
--   * Grants: adapters/common/grant_ledger.js. Grants/Ledger.antt has the rows and the clock,
--     Grants/Machine.antt the operations as steps between the awaited calls of the platform, and
--     Grants/Scope.antt the opening of a ledger. What an adapter passes to the constructor is the record
--     `Adapter`, and what the ledger relies on in it the record `Laws` of Grants/Tracked.antt, which
--     Grants/Channels.antt fills for adapters/discord/grant_ledger.js and Grants/Rooms.antt for the
--     Matrix and Telegram bots.
--   * Oracle: the refresh of the list in core/gateway.js. Oracle/Snapshot.antt is `validateSnapshot`,
--     Oracle/Signatures.antt `oracleSignaturesOk` with the message of common/oracle_sig.js, and
--     Oracle/Refresh.antt `refreshRoots` and `enforceDmlFreshness` over Stores/RootWindows.antt.
--   * Field: common/field.js, the canonical spelling of a field element, which the verifier and the
--     registration store ask for.
--   * Prelude: lists, options, results, Boolean tests, bytes in hex, and JavaScript's `Map` as an association list
--     in insertion order.
--
-- How the state corresponds. An object is a record and a method that changes it returns the new record;
-- a `Map` keyed by a string that joins parts with a separator is keyed by the tuple of the parts; null
-- is none; a throw is an error of `Result`. Times are natural numbers, passed in where the code asks
-- the clock. A call of `run` on the semaphore is its entry and, after the task, its `finally`. A check
-- whose awaited call throws is a check that takes no further step.
--
-- Writes that fail. The durable write of a commit runs, throws before the record is in the store,
-- throws after it, or is refused for a stale anchor (`Fate`); a save of the clock's marks succeeds or
-- throws. The proof check, the anchor's age and the live season are answers from outside, one set for
-- each step. The theorems on the season suppose that a canonical string converts to a field element,
-- which the circuit library's `F.e` does.
--
-- Access on a platform. The grant ledger's state is the database, the operation that waits on each
-- member, and which targets each member has access to on the platform. `#run` queues the operations on a
-- member, so that a member has one phase or none, and an operation begins only where there is none; other
-- members' operations interleave at every await. The platform answers a call with all of it done, with
-- nothing sent, or with some of its targets done; the process may end at any await, with some of the
-- targets of the calls in flight done. That is the access at the time: a request that takes effect after
-- its call has failed or after the next process has started is outside the model, as the source says it
-- is outside the ledger's promise. The steps of a refresh after its reads are one function, since it has
-- no await after them; a snapshot is its parsed properties at their types, a value of another type being
-- a refusal of the source that the model leaves out. Poseidon, SHA-256 of bytes and the signatures are
-- parameters there, what circomlibjs and node's crypto compute; the two roots over the leaves and the
-- commitment to their set are built on them as the code builds them.
--
-- The events of a ledger are its operations, the platform's answers and the end of the process. A start
-- is `open_store`, and is not among the events: one with `resetClock` drops the floor of the clock on the
-- operator's request, and what a ledger has seen before counts no more after it. A statement that writes
-- or deletes a row may throw, which the events' flag says; where it does, the row is as it was.
--
-- Fuel. The loop of the leaf bound runs on the number of records, since each turn drops at least one;
-- the loop of `levels()` runs on one more than the depth, since each turn halves a level of a power of
-- two; the decimal digits of a number run on 78, more than a number of 32 bytes has. That the fuel is
-- enough is part of the theorems on them.
--
-- Not modelled: the HTTP handlers of the gateway, its configuration and its SQLite and Platform stores,
-- the oracle and the prover programs, the chat adapters but for their ledgers, and the circuits. Of
-- core/stores.js the charging of several limiters at once and the reading of the oracle are left out, of
-- core/verifier.js the choice of the proof system, of core/registration_store.js calls of the file
-- backend that overlap, the flushes of the loader and of directories, and the Platform backend, and of
-- the grant ledger the offline retirement and two processes on one database.
pub mod Prelude
pub mod Field
pub mod Merkle
pub mod Stores
pub mod Registration
pub mod Season
pub mod TimeGuard
pub mod Grants
pub mod Oracle
pub mod Verifier
