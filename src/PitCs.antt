-- ===== src/PitCs.antt =====
-- table/pit-cs-tree.go: the Pending Interest Table and the Content Store of a forwarding thread in
-- one tree of names. The pointers to PIT and CS entries are numbers that are never used again, and
-- what they point to stands in a store; a pointer to a node is the path that leads to it, which it
-- keeps while an entry stands there. A search reads the clock once. The random numbers that
-- `generateNewPitToken` draws, the hashes of the codec package and the capacity are parameters.
pub mod Tree
pub mod Interests
pub mod Content
mod Tests
use native.Mathlib.Decide.{ℕ_discrete}
use ya_nfd.Prelude.{
  ℕ, zero, suc, Bool, true, false, ◌||◌, Option, none, some, List, [], ◌∷◌, map, ◌==◌,
  if◌then◌else◌,
}
use ya_nfd.Prelude.Assoc
use ya_nfd.Packets.{Component, Name, Data, PendingPacket}
use ya_nfd.Pit.{PitEntry}
use ya_nfd.CsLru.{CsLru, new_cs_lru}
use ya_nfd.Heap.{Item}
use ya_nfd.PriorityQueue
use ya_nfd.PitCs.Tree.{Slot, no_slot, Node, new_node}

-- `nameTreePitEntry`: none is the place -1 in the queue.
pub record NameTreePitEntry : Type 0 where
  pub entry : PitEntry
  pub node : List ℕ
  pub queue_index : Option ℕ

-- `nameTreeCsEntry`
pub record NameTreeCsEntry : Type 0 where
  pub index : ℕ
  pub stale_time : ℕ
  pub enc_data : PendingPacket Data
  pub node : List ℕ

pub record PitCsTree : Type 0 where
  pub root : Node
  pub pit_entries : List (ℕ × NameTreePitEntry)
  pub cs_entries : List (ℕ × NameTreeCsEntry)
  pub next_pointer : ℕ
  pub n_pit_entries : ℕ
  pub pit_token_map : List (ℕ × ℕ)
  pub n_cs_entries : ℕ
  pub cs_replacement : CsLru
  pub cs_map : List (ℕ × ℕ)
  pub pit_expiry_queue : List (Item ℕ)

unfoldable pub new_pit_cs : PitCsTree
new_pit_cs = record {
  root = new_node;
  pit_entries = [];
  cs_entries = [];
  next_pointer = 0;
  n_pit_entries = 0;
  pit_token_map = [];
  n_cs_entries = 0;
  cs_replacement = new_cs_lru;
  cs_map = [];
  pit_expiry_queue = PriorityQueue.empty;
}

-- `new(nameTreePitEntry)`
abbrev pub blank_pit_entry : NameTreePitEntry
blank_pit_entry = record {
  entry = record {
    name = [];
    can_be_prefix = false;
    must_be_fresh = false;
    forwarding_hint = none;
    in_records = [];
    out_records = [];
    expiration_time = 0;
    satisfied = false;
    token = 0;
  };
  node = [];
  queue_index = none;
}

-- What a pointer to a PIT entry points to.
unfoldable pub pit_entry : PitCsTree → ℕ → NameTreePitEntry
pit_entry s e = elim (Assoc.get ℕ_discrete e s.pit_entries) [ none ↦ blank_pit_entry | some x ↦ x ]

abbrev pub put_pit_entry : PitCsTree → ℕ → NameTreePitEntry → PitCsTree
put_pit_entry s e x = record s { pit_entries = Assoc.put ℕ_discrete e x s.pit_entries }

abbrev pub path : (Component → ℕ) → Name → List ℕ
path component_hash name = map component_hash name

abbrev pub pit_size : PitCsTree → ℕ
pit_size s = s.n_pit_entries

abbrev pub cs_size : PitCsTree → ℕ
cs_size s = s.n_cs_entries
