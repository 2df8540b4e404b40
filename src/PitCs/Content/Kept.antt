-- ===== src/PitCs/Content/Kept.antt =====
-- What the Content Store of table/pit-cs-tree.go keeps while it evicts.
use native.Mathlib.Decide.{ℕ_discrete}
use ya_nfd.Prelude.{
  ℕ, ◌<◌, ◌≡◌, ◌≢◌, ◌++◌, All, refl, ap, sym, ◌∙◌, true, false, none, some, List, [], ◌∷◌, length,
  ltb, arith, Bool-cases, Option-cases, inl, inr,
}
use ya_nfd.Prelude.Assoc
use ya_nfd.Prelude.Assoc.{get-put, get-delete}
use ya_nfd.Name.{same_name→eq, same_name_self}
use ya_nfd.Packets.{Component, Name, Data, PendingPacket}
use ya_nfd.CsLru.{evict_from, evict_entries, after_insert, push_back}
use ya_nfd.PitCs.{NameTreeCsEntry, PitCsTree, path}
use ya_nfd.PitCs.Tree.{Slot, fill_tree_to_prefix, Node}
use ya_nfd.PitCs.Tree.Slots.{
  slot, same_path, has_node, has_node-fill_tree_to_prefix, slot-write_slot, slot-has_node,
}
use ya_nfd.PitCs.Content.{cs_entry, erase_cs_data, evict, add_data}
use ya_nfd.PitCs.Content.Store.{IsHolding, erase_cs_data-IsHolding}

pub has_node_if_there :
    (n : Node) (p : List ℕ) (d : ℕ) → (slot n p).cs_entry ≡ some d → has_node n p ≡ true
has_node_if_there n p d h = elim (Bool-cases (has_node n p)) [
  | inl there ↦ there
  | inr gone ↦
      let nothing : (slot n p).cs_entry ≡ none =
        ap (λ (t : Slot). t.cs_entry) (slot-has_node n p gone) in
      ground arith
]

module _ (component_hash : Component → ℕ) where
  -- The store holds the packet, which goes stale at a time.
  pub record IsKept (s : PitCsTree) (index : ℕ) (packet : PendingPacket Data) (stale_time d : ℕ)
      (x : NameTreeCsEntry) : Type 0 where
    pub stored : cs_entry s d ≡ some x
    pub in_tree : (slot s.root (path component_hash packet.packet.name)).cs_entry ≡ some d
    pub kept : x.enc_data ≡ packet
    pub stale : x.stale_time ≡ stale_time
    pub indexed : x.index ≡ index

  pub add_data-IsKept :
      (s : PitCsTree) (index stale_time : ℕ) (packet : PendingPacket Data)
      → (x : NameTreeCsEntry) × IsKept
          (add_data component_hash s index stale_time packet)
          index
          packet
          stale_time
          s.next_pointer
          x
  unfolding add_data
  add_data-IsKept s index stale_time packet =
      let node = path component_hash packet.packet.name in
      let d = s.next_pointer in
      let root = fill_tree_to_prefix s.root node in
      let fresh : NameTreeCsEntry = record {
        index = index;
        stale_time = stale_time;
        enc_data = packet;
        node = node;
      } in
      let written =
        slot-write_slot (λ (t : Slot). record t { cs_entry = some d }) root node node
          (has_node-fill_tree_to_prefix s.root node) in
      (
        fresh,
        record {
          stored = get-put ℕ_discrete d d fresh s.cs_entries ∙ ground arith;
          in_tree =
              ap (λ (t : Slot). t.cs_entry) written ∙ rw (same_name_self ℕ_discrete node) refl;
          kept = refl;
          stale = refl;
          indexed = refl;
        },
      )

  module _ (name_hash : Name → ℕ) (IsUsed : Name → Type 0)
      (to_hash : (n m : Name)
        → IsUsed n
        → IsUsed m
        → path component_hash n ≡ path component_hash m
        → name_hash n ≡ name_hash m) where
    erase_cs_data-IsKept :
        (i index : ℕ) (s : PitCsTree) (packet : PendingPacket Data) (stale_time d : ℕ)
        (x : NameTreeCsEntry)
        → IsHolding component_hash name_hash IsUsed s
        → IsKept s index packet stale_time d x
        → i ≢ index
        → IsKept (erase_cs_data i s) index packet stale_time d x
    unfolding erase_cs_data
    erase_cs_data-IsKept i index s packet stale_time d x v k apart =
        elim (Option-cases (Assoc.get ℕ_discrete i s.cs_map)) [
          | inl absent ↦ rw (erase_cs_data, absent) k
          | inr (e, f) ↦
              let (y, h) = v.held i e f in
              let p = path component_hash packet.packet.name in
              let clear : Slot → Slot = λ t. record t { cs_entry = none } in
              let stored = h.stored in
              let written =
                slot-write_slot clear s.root y.node p
                  (has_node_if_there s.root y.node e h.in_tree) in
              let elsewhere : same_path y.node p ≡ false = elim (Bool-cases (same_path y.node p)) [
                | inl same ↦
                    let paths = same_name→eq ℕ_discrete y.node p same in
                    let here = h.in_tree in
                    let there : (slot s.root y.node).cs_entry ≡ some d = rw paths k.in_tree in
                    let pointers : e ≡ d = ground arith in
                    let kept = k.stored in
                    let entries : y ≡ x = ground arith in
                    let indexes =
                      sym h.indexed ∙ ap (λ (z : NameTreeCsEntry). z.index) entries ∙ k.indexed in
                    absurd (apart indexes)
                | inr other ↦ other
              ] in
              rw (erase_cs_data, f, stored)
                (record {
                  stored = k.stored;
                  in_tree = ap (λ (t : Slot). t.cs_entry) written ∙ rw elsewhere k.in_tree;
                  kept = k.kept;
                  stale = k.stale;
                  indexed = k.indexed;
                })
        ]

    -- Evicting what comes before the packet in the queue leaves it in the store.
    evict_from-IsKept :
        (capacity : ℕ) (q : List (ℕ × ℕ)) (s : PitCsTree) (element index : ℕ)
        (packet : PendingPacket Data) (stale_time d : ℕ) (x : NameTreeCsEntry)
        → IsHolding component_hash name_hash IsUsed s
        → IsKept s index packet stale_time d x
        → All (λ y. y.1 ≢ index) q
        → 0 < capacity
        → IsKept
            (evict_from erase_cs_data capacity (q ++ ((element, index) ∷ [])) s).1
            index
            packet
            stale_time
            d
            x
    unfolding evict_from
    evict_from-IsKept capacity [] s element index packet stale_time d x v k a c =
        let fits : ltb capacity 1 ≡ false = ground arith in rw fits k
    evict_from-IsKept capacity ((e, i) ∷ q) s element index packet stale_time d x v k a c =
        let all = ((e, i) ∷ q) ++ ((element, index) ∷ []) in
        elim (Bool-cases (ltb capacity (length all))) [
          | inl more ↦ rw more (
              evict_from-IsKept capacity q (erase_cs_data i s) element index packet stale_time d x
                (erase_cs_data-IsHolding component_hash name_hash IsUsed to_hash i s v)
                (erase_cs_data-IsKept i index s packet stale_time d x v k a.0) a.1 c)
          | inr fits ↦ rw fits k
        ]

    pub evict-IsKept :
        (capacity : ℕ) (s : PitCsTree) (stale_time : ℕ) (packet : PendingPacket Data)
        (x : NameTreeCsEntry) (index : ℕ)
        → IsHolding component_hash name_hash IsUsed
            (add_data component_hash s index stale_time packet)
        → IsKept
            (add_data component_hash s index stale_time packet)
            index
            packet
            stale_time
            s.next_pointer
            x
        → All (λ y. y.1 ≢ index) s.cs_replacement.queue
        → 0 < capacity
        → IsKept
            (evict capacity (add_data component_hash s index stale_time packet))
            index
            packet
            stale_time
            s.next_pointer
            x
    unfolding evict evict_entries add_data after_insert push_back
    evict-IsKept capacity s stale_time packet x index v k a c =
        let r =
          evict_from-IsKept capacity s.cs_replacement.queue
            (add_data component_hash s index stale_time packet) s.cs_replacement.next_element index
            packet stale_time s.next_pointer x v k a c in
        record {
          stored = r.stored;
          in_tree = r.in_tree;
          kept = r.kept;
          stale = r.stale;
          indexed = r.indexed;
        }
