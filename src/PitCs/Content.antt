-- ===== src/PitCs/Content.antt =====
-- The Content Store in table/pit-cs-tree.go: inserting, erasing and finding Data.
pub mod Search
pub mod Store
pub mod Insert
pub mod Policy
pub mod Kept
pub mod Found
use native.Mathlib.Decide.{ℕ_discrete}
use ya_nfd.Prelude.{
  ℕ, suc, ◌+◌, ◌-◌, Bool, true, false, ◌&&◌, ◌||◌, not, Option, none, some, List, [], length, ltb,
  leb, if◌then◌else◌,
}
use ya_nfd.Prelude.Assoc
use ya_nfd.Packets.{Component, Name, Interest, Data, PendingPacket}
use ya_nfd.CsLru.{CsLru, after_insert, before_use, evict_entries}
use ya_nfd.PitCs.{NameTreeCsEntry, PitCsTree, path}
use ya_nfd.PitCs.Tree.{
  Slot, Node, node, Children, nil, cons, slot_of, find_exact_match_entry, fill_tree_to_prefix,
  write_slot,
}

abbrev pub cs_entry : PitCsTree → ℕ → Option NameTreeCsEntry
cs_entry s d = Assoc.get ℕ_discrete d s.cs_entries

-- `eraseCsDataFromReplacementStrategy`
unfoldable pub erase_cs_data : ℕ → PitCsTree → PitCsTree
erase_cs_data index s = elim (Assoc.get ℕ_discrete index s.cs_map) [
  | none ↦ s
  | some d ↦ elim (cs_entry s d) [
    | none ↦ s
    | some x ↦ record s {
      root = write_slot (λ (t : Slot). record t { cs_entry = none }) s.root x.node;
      cs_map = Assoc.delete ℕ_discrete index s.cs_map;
      n_cs_entries = s.n_cs_entries - 1;
    }
  ]
]

abbrev pub freshness : Option ℕ → ℕ
freshness none = 0
freshness (some t) = t

-- `AfterRefresh` and `EvictEntries` of the policy, in the table.
unfoldable pub refresh : ℕ → PitCsTree → PitCsTree
refresh index s = record s { cs_replacement = before_use index s.cs_replacement }

unfoldable pub evict : ℕ → PitCsTree → PitCsTree
evict capacity s =
    let (l, s') = evict_entries erase_cs_data capacity s.cs_replacement s in
    record s' { cs_replacement = l }

module _ (component_hash : Component → ℕ) where
  -- What `InsertData` does for a name that the store does not hold, before it evicts.
  unfoldable pub add_data : PitCsTree → ℕ → ℕ → PendingPacket Data → PitCsTree
  add_data s index stale_time packet =
      let node = path component_hash packet.packet.name in
      let d = s.next_pointer in
      let fresh : NameTreeCsEntry = record {
        index = index;
        stale_time = stale_time;
        enc_data = packet;
        node = node;
      } in
      record s {
        n_cs_entries = suc s.n_cs_entries;
        root =
            write_slot (λ (t : Slot). record t { cs_entry = some d })
              (fill_tree_to_prefix s.root node) node;
        cs_entries = Assoc.put ℕ_discrete d fresh s.cs_entries;
        next_pointer = suc d;
        cs_map = Assoc.put ℕ_discrete index d s.cs_map;
        cs_replacement = after_insert index s.cs_replacement;
      }

-- What it does for one that it holds.
unfoldable pub renew_data : PitCsTree → ℕ → ℕ → ℕ → PendingPacket Data → PitCsTree
renew_data s index d stale_time packet = elim (cs_entry s d) [
  | none ↦ s
  | some x ↦
      let renewed : NameTreeCsEntry = record x { enc_data = packet; stale_time = stale_time } in
      refresh index (record s { cs_entries = Assoc.put ℕ_discrete d renewed s.cs_entries })
]

module _ (component_hash : Component → ℕ) (name_hash : Name → ℕ) where
  -- `InsertData`
  unfoldable pub insert_data : ℕ → ℕ → PitCsTree → PendingPacket Data → PitCsTree
  insert_data capacity now s packet =
      let index = name_hash packet.packet.name in
      let stale_time = now + freshness packet.packet.freshness_period in
      elim (Assoc.get ℕ_discrete index s.cs_map) [
        | some d ↦ renew_data s index d stale_time packet
        | none ↦ evict capacity (add_data component_hash s index stale_time packet)
      ]

-- Whether the Interest takes what a node holds in the store.
unfoldable pub acceptable : PitCsTree → ℕ → Interest → Option ℕ → Option NameTreeCsEntry
acceptable s now interest none = none
acceptable s now interest (some d) = elim (cs_entry s d) [
  | none ↦ none
  | some x ↦ if not interest.must_be_fresh || ltb now x.stale_time then some x else none
]

-- `findMatchingDataCSPrefix` at a node of a depth; the children come in the order of the map.
unfoldable mutual
  pub find_matching_data_cs_prefix : PitCsTree → ℕ → Interest → ℕ → Node → Option NameTreeCsEntry
  find_matching_data_cs_prefix s now interest depth (node t cs) =
      elim (acceptable s now interest t.cs_entry) [
        | some x ↦ some x
        | none ↦
            if leb (length interest.name) depth
            then find_matching_in s now interest (suc depth) cs
            else none
      ]

  pub find_matching_in : PitCsTree → ℕ → Interest → ℕ → Children → Option NameTreeCsEntry
  find_matching_in s now interest depth nil = none
  find_matching_in s now interest depth (cons c n cs) =
      elim (find_matching_data_cs_prefix s now interest depth n) [
        | some x ↦ some x
        | none ↦ find_matching_in s now interest depth cs
      ]

module _ (component_hash : Component → ℕ) where
  -- `FindMatchingDataFromCS`
  unfoldable pub find_matching_data_from_cs :
      ℕ → PitCsTree → PendingPacket Interest → PitCsTree × Option NameTreeCsEntry
  find_matching_data_from_cs now s packet =
      let interest = packet.packet in
      elim (find_exact_match_entry s.root (path component_hash interest.name)) [
        | none ↦ (s, none)
        | some n ↦
            if interest.can_be_prefix
            then (s, find_matching_data_cs_prefix s now interest (length interest.name) n)
            else elim (acceptable s now interest (slot_of n).cs_entry) [
              | none ↦ (s, none)
              | some x ↦ (refresh x.index s, some x)
            ]
      ]
