-- ===== src/Lib.antt =====
-- Verification of indy-plenum, the consensus of a pool of replicated ledgers (RBFT over PBFT).
--
-- A pool of n nodes, of which f = (n - 1) / 3 may be faulty, orders batches of requests. Each node runs
-- a replica per protocol instance. The services of a replica share one state, `ConsensusSharedData`,
-- and talk through an internal bus and the network: the ordering service (PrePrepare, Prepare, Commit)
-- orders batches between two watermarks, the checkpoint service moves the watermarks when a quorum has
-- reached a checkpoint, and the view change service replaces the primary: every node votes with a
-- ViewChange that carries what it prepared, and the new primary sends a NewView that the others
-- compute again from the votes.
--
-- Parts and files (paths of the code from the repository's root):
--   Quorums       plenum/server/quorums.py, getMaxFailures and getNoInstances of plenum/common/util.py
--   Names         replica_name_to_node_name (plenum/server/consensus/utils.py), generateName
--                 (plenum/server/replica_helper.py)
--   Messages      plenum/common/messages/node_messages.py, plenum/server/consensus/batch_id.py
--   Verdict, Startable, Keys, Events
--                 codes and reasons (plenum/server/replica_validator_enums.py), modes and statuses
--                 (plenum/common/startable.py), compare_3PC_keys, and what the services send
--   SharedData    plenum/server/consensus/consensus_shared_data.py
--   Ordering      plenum/server/consensus/ordering_service_msg_validator.py
--   Checkpoints   plenum/server/consensus/checkpoint_service.py and its validator
--   ViewChange    plenum/server/consensus/view_change_storages.py (Storages), NewViewBuilder (Builder)
--                 and ViewChangeService (Service) of plenum/server/consensus/view_change_service.py
--   Ordered       IntervalList and OrderedTracker of plenum/server/replica_helper.py
--   Primaries     plenum/server/consensus/primary_selector.py
--   Votes         the votes for Prepares and Commits, plenum/server/models.py
--   Propagation   ReqState, Requests and canForward of plenum/server/propagator.py
--   InstanceChanges, Trigger
--                 plenum/server/view_change/instance_change_provider.py and
--                 plenum/server/consensus/view_change_trigger_service.py
--   Observer      plenum/server/observer/observer_sync_policy_each_batch.py
--   Stashing      plenum/common/stashing_router.py
--   Merkle        ledger/tree_hasher.py (Hasher), ledger/util.py (Bits), ledger/compact_merkle_tree.py
--                 with ledger/hash_stores/memory_hash_store.py (Compact), ledger/merkle_verifier.py
--                 (Verifier)
--   Ledger        plenum/common/ledger.py over ledger/ledger.py
--   Prelude       lists, sets, dictionaries and sorting, as Python has them
--
-- State is passed explicitly. A handler takes the state and a message, and returns the new state with
-- the list of what it sent, in the order of the calls; `Option` where the code can raise. A call of the
-- bus that other services answer at once, and the replay of stashed messages by the router, are such
-- events: what the receivers do are steps of their own. Numbers are unbounded, as in Python; where the
-- code subtracts, the model says what happens below 0. Names and digests are texts.
--
-- Loops recur on their list where they have one. The others recur on a number of rounds. The one in
-- `_do_select_master_primary` counts a view number down. The round robin of primaries ends within f
-- rounds in a pool of distinct nodes. The loop in `calc_batches` raises `pp_seq_no` by one in each round
-- that goes on and ends above `cp.seqNoEnd + log_size`; the model recurs on the `log_size` rounds that
-- this allows, so it stops exactly where the code does. The loops over the bits of a size and those of
-- the Merkle verifier lower a number in each round, and get at least as many rounds as its value.
-- `_hash_full` narrows its range and `__push_subtree_hash` takes a hash away in each call, so that one
-- round more than there are leaves, or hashes, is enough; the theorems on the tree prove this by its
-- results. `process_stashed_until_first_restash` gets a round for each message that is stashed.
--
-- Parameters: the SHA-256 digests of ViewChange and NewView messages and the hash function of the Merkle
-- tree, the serializers of the ledger, the selector of the primary, the configuration values CHK_FREQ and
-- LOG_SIZE, the audit ledger as the list of its transactions, the handlers and the limit of the stashing
-- router, the clock, the nodes that are connected, and whether the master instance is degraded.
--
-- Not modelled: the 3PC part of the ordering service except for its validator and its votes, the messages
-- of the propagation, `extend` and the proofs that the Merkle tree reads from its hash store, the recovery
-- of a tree from a persistent hash store, the instance change votes that are read from the database at the
-- start, catch-up, the state trie, the request handlers, cryptography, the network, and the node that puts
-- the services together.
pub mod Prelude
pub mod Quorums
pub mod Names
pub mod Messages
pub mod ViewChange
pub mod Verdict
pub mod Startable
pub mod SharedData
pub mod Keys
pub mod Ordering
pub mod Events
pub mod Checkpoints
pub mod Ordered
pub mod Primaries
pub mod Propagation
pub mod Votes
pub mod Merkle
pub mod Ledger
pub mod Observer
pub mod Stashing
pub mod InstanceChanges
pub mod Trigger
