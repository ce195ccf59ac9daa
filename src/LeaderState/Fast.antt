-- ===== src/LeaderState/Fast.antt =====
-- The fast path in `LeaderState` (lib/omnipaxos/src/util.rs): the votes for an index, and the
-- entries that the unsynced logs of the promises agree on. A hash map is an association list; the
-- order in which the source walks one is not specified.
use ca_op.Prelude.{ltb, if◌then◌else◌, get_or_else, ℕ, ◌+◌, Bool, Option, none, some, List, [], ◌∷◌}
use ca_op.Prelude.Assoc
use ca_op.Prelude.Assoc.{nat_eq, insert_set}
use ca_op.Messages.Paxos.{hash_pair_key, DomHash, hash_eq, EntryId, UnsyncedLogEntry, UnsyncedLog}
use ca_op.LeaderState.{AcceptedMapEntry, LeaderState}

-- The tallies of `get_matched_unsynced_entries`: for each entry hash the votes, and the last entry
-- with that hash.
abbrev pub Tally {ℓ} : Type ℓ → Type ℓ
Tally T = List (DomHash × (ℕ × EntryId × T))

module _ {ℓ} {T : Type ℓ} where
  -- `*counts.entry(h).or_insert(0) += 1`, and the insertion into `entry_map`.
  unfoldable pub add_vote : UnsyncedLogEntry T → Tally T → Tally T
  add_vote e [] = (e.entry_hash, (1, e.entry_id, e.entry)) ∷ []
  add_vote e ((h, (n, id, x)) ∷ t) =
      if hash_eq h e.entry_hash
      then (h, (n + 1, e.entry_id, e.entry)) ∷ t
      else (h, (n, id, x)) ∷ add_vote e t

  -- The entry of an unsynced log that continues the prefix at an index.
  unfoldable pub matched : ℕ → DomHash → UnsyncedLog T → Option (UnsyncedLogEntry T)
  unfolding Assoc.get
  matched entry_idx prefix_hash log = elim (Assoc.get entry_idx log) [
    | none ↦ none
    | some e ↦ if hash_eq e.prefix_hash prefix_hash then some e else none
  ]

  abbrev pub vote : Option (UnsyncedLogEntry T) → Tally T → Tally T
  vote none t = t
  vote (some e) t = add_vote e t

  unfoldable pub tally : ℕ → DomHash → List (UnsyncedLog T) → Tally T → Tally T
  unfolding add_vote matched
  tally entry_idx prefix_hash [] t = t
  tally entry_idx prefix_hash (log ∷ logs) t =
      tally entry_idx prefix_hash logs (vote (matched entry_idx prefix_hash log) t)

-- `accepted_map.retain(|&idx, _| idx > decided_idx)`
unfoldable pub prune : ℕ → List (ℕ × AcceptedMapEntry) → List (ℕ × AcceptedMapEntry)
prune decided_idx [] = []
prune decided_idx ((idx, e) ∷ m) =
    if ltb decided_idx idx then (idx, e) ∷ prune decided_idx m else prune decided_idx m

-- The votes for a key, of an index that may have none.
unfoldable pub voters : DomHash × DomHash → List ((DomHash × DomHash) × List ℕ) → List ℕ
voters key fast = get_or_else (Assoc.get key fast) []

-- The vote of `pid` at an index.
unfoldable pub record_vote : AcceptedMapEntry → DomHash → DomHash → ℕ → Bool → AcceptedMapEntry
record_vote a entry_hash prefix_hash pid is_fast_path =
    if is_fast_path
    then record a {
      fast =
          Assoc.insert (prefix_hash, entry_hash)
            (insert_set pid (voters (prefix_hash, entry_hash) a.fast)) a.fast;
    }
    else record a { slow = insert_set pid a.slow }

-- The entry for an index that has none yet.
abbrev pub new_map_entry : DomHash → DomHash → AcceptedMapEntry
new_map_entry entry_hash prefix_hash = record {
  entry_hash = entry_hash;
  prefix_hash = prefix_hash;
  fast = [];
  slow = [];
}

module _ {ℓ} {T S : Type ℓ} where
  unfoldable pub get_matched_unsynced_entries : LeaderState T S → ℕ → DomHash → Tally T
  unfolding tally
  get_matched_unsynced_entries s entry_idx prefix_hash =
      tally entry_idx prefix_hash s.unsynced_log_store []

  unfoldable pub set_accepted_map :
      LeaderState T S → ℕ → DomHash → DomHash → ℕ → Bool → LeaderState T S
  set_accepted_map s idx entry_hash prefix_hash pid is_fast_path =
      let a = get_or_else (Assoc.get idx s.accepted_map) (new_map_entry entry_hash prefix_hash) in
      record s {
        accepted_map =
            Assoc.insert idx (record_vote a entry_hash prefix_hash pid is_fast_path) s.accepted_map;
      }

  unfoldable pub get_accepted_map : LeaderState T S → ℕ → Option AcceptedMapEntry
  unfolding Assoc.get
  get_accepted_map s idx = Assoc.get idx s.accepted_map

  unfoldable pub prune_accepted_map : LeaderState T S → ℕ → LeaderState T S
  unfolding prune
  prune_accepted_map s decided_idx = record s { accepted_map = prune decided_idx s.accepted_map }
