-- ===== src/Lib.antt =====
-- CA-OP: a model of the replicated-log library of lib/omnipaxos, a variant of OmniPaxos with a
-- clock-assisted fast path, and proofs about it.
--
-- The program. A replica (lib/omnipaxos/src/omni_paxos.rs) runs two protocols over one storage.
-- Ballot leader election (ballot_leader_election.rs) exchanges heartbeats and elects a ballot;
-- sequence paxos (sequence_paxos/) prepares the elected ballot, replicates the log and decides it.
-- On the fast path a proposal is multicast with a deadline (dom/), and every replica releases the
-- proposals in the order of their deadlines, so that a fast quorum of equal votes decides an entry
-- without a round trip to the leader. The leader keeps its view of the followers in `LeaderState`
-- (util.rs). The log, the promise and the decided index are written through the cache in
-- storage/internal_storage.rs to a back end (lib/omnipaxos_storage/): the one in memory, which the
-- replica has here, or the persistent one.
--
-- The files and the code they model.
--   Ballot, Quorum            `Ballot` with its order, `FlexibleQuorum` and `Quorum` (util.rs), the
--                             thresholds of the fast path (sequence_paxos/leader.rs)
--   Config                    `ClusterConfig::validate` (omni_paxos.rs), and the errors
--   Messages, Messages/Paxos  the messages of messages.rs and the hash of a log (util.rs)
--   Election                  `BallotLeaderElection`: `new_hb_round`, `handle`, `hb_timeout` and
--                             what they call, one function each; the children hold the proofs
--   Storage                   stop signs, snapshots and the operations of a transaction
--   Storage/Memory            `MemoryStorage`, the back end
--   Storage/Persistent        `PersistentStorage` (lib/omnipaxos_storage/src/persistent_storage.rs)
--                             over a database;  /Laws  what it relies on;  /Mirrors  the
--                             specification, by a state of the back end in memory;  the other
--                             children hold the proofs
--   Storage/Cache             `StateCache`
--   Storage/Internal          `InternalStorage`: append, flush, promise, decide
--   Storage/Internal/Compact  trim and snapshot;  /Sync  `sync_log`;  /Read  `read` and its kin
--   Storage/Internal/View     the specification: the whole log since index 0, of which cache and
--                             back end are a state (`Represents`), and the proofs per operation
--   Clocks                    `SequenceNumber` and `LogicalClock` (util.rs)
--   LeaderState               `LeaderState` (util.rs), with Accept and Fast; the other children
--                             hold the proofs
--   Dom                       the deadline-ordered multicast of dom/: Buffer (`EarlyBuffer`), Owd
--                             (`OwdEstimator`, `OutgoingOwdTracker`) and `Dom` itself
--   Paxos                     `SequencePaxos`, the state of a replica, and what all handlers use
--   Paxos/Follower            the handlers of sequence_paxos/follower.rs;  /FastPath  the entries
--                             that a follower holds unconfirmed;  /Replies  its answers
--   Paxos/Leader              the handlers of sequence_paxos/leader.rs;  /Send  its messages;
--                             /Decide  accepting and deciding;  /Takeover  the majority of promises;
--                             /Recover  the loop over the unsynced logs
--   Paxos/Start, /Proposals,  the rest of sequence_paxos/mod.rs: `with`; proposals; compaction;
--     /Compact, /Release,     the release of proposals; the timeouts and the dispatch of messages.
--     /Replica                The other children of Paxos and Paxos/Leader hold the proofs
--   OmniPaxos                 `OmniPaxos` (omni_paxos.rs): `tick`, `poll`, elections and messages;
--                             /Config  the configurations;  /Build  `build`;  /Requests  the calls
--                             of the user;  /Startup  the proofs on building
--   Prelude                   shared types and lemmas: numbers, lists, association lists, panics
--
-- How state corresponds. A struct is a record with the fields' names, a method of `&mut self` is a
-- function from the old state to the new one, with its result beside it. A panic (an index out of
-- bounds, an `expect`) is `none`; an error of the storage is a `Result` of Storage. Elapsed rounds
-- and messages are explicit sequences (`run` of Election/Run, `collect` of
-- LeaderState/Promises, `take_answers` of LeaderState/Answers, `receive` of Paxos/Sessions).
-- Loops are recursions on lists; the loop of `Dom::release_ready` has the number of entries in the
-- buffer as its fuel, since each round takes one out, and the recovery of a new leader has the number
-- of entries in the unsynced logs, since each round moves on to an index of theirs.
--
-- Numbers. Ballot numbers and heartbeat rounds are 32-bit, sequence numbers and logical time
-- 64-bit, and wrap as in a release build (Prelude/Words); a subtraction on `usize` and the sum
-- of two quorum sizes wrap as well (`sub_usize`, `add_usize`). Log indices, process ids and lengths
-- are natural numbers. Times and delays are integers; their sums are far from the bounds of `i64`,
-- which the model leaves out.
--
-- Maps and sets. A `HashMap` is an association list, of which no theorem uses the order.
--
-- Parameters. The operations of a snapshot (`create`, `merge`, `use_snapshots`) belong to the
-- user's type of entries and are an argument, with the law that a merge of two snapshots is the
-- snapshot of both parts as a hypothesis where it is needed (`IsMergeable`). The index of a
-- percentile, which the code computes in floating point, is an argument too, and so are the hash
-- of a request (`DOMHash::with`, made by the hasher of the standard library) and the readings of the
-- clock: an operation that reads it gets the readings, or `clock k` for the one with number `k`. The
-- database of `PersistentStorage` and the encoding of its values are arguments as well, with laws
-- (`DbLaws`, `IsCodec`): what is written is kept and changes nothing else, a batch is its writes in
-- order, an iterator walks the keys in order, and a value decodes to what was encoded.
--
-- Not modelled. The cache of popular entries (unicache/, off by default), logging and the terminal
-- view (utils/), the counters and snapshots of the benchmark feature, the reading of TOML files, the
-- derive macros (lib/omnipaxos_macros), the errors of the database and the configuration of it
-- (lib/omnipaxos_storage/src/persistent_storage.rs), and the benchmark (benchmark/), a client and a
-- server around the library.
pub mod Prelude
pub mod Ballot
pub mod Quorum
pub mod Messages
pub mod Election
pub mod Config
pub mod Storage
pub mod Clocks
pub mod LeaderState
pub mod Dom
pub mod Paxos
pub mod OmniPaxos
