-- ===== src/PitCs/Content/Found.antt =====
-- `InsertData` and `FindMatchingDataFromCS` of table/pit-cs-tree.go together: what is inserted is
-- found while it is fresh.
use native.Mathlib.Decide.{ℕ_discrete}
use ya_nfd.Prelude.{
  ℕ, ◌+◌, ◌<◌, ◌≡◌, refl, ap, sym, ◌∙◌, true, ◌||◌, not, some, length, ltb, arith, Bool-cases,
  Option-cases, inl, inr,
}
use ya_nfd.Prelude.Assoc
use ya_nfd.Prelude.Assoc.{get-put, get-delete}
use ya_nfd.Packets.{Component, Name, Data, PendingPacket, Interest}
use ya_nfd.PitCs.{NameTreeCsEntry, PitCsTree, path}
use ya_nfd.PitCs.Tree.{Slot, Node, node, slot_of}
use ya_nfd.PitCs.Tree.Slots.{slot, find_exact_match_entry-slot}
use ya_nfd.PitCs.Content.{
  freshness, refresh, renew_data, insert_data, acceptable, find_matching_data_cs_prefix,
  find_matching_data_from_cs,
}
use ya_nfd.PitCs.Content.Store.{IsHolding}
use ya_nfd.PitCs.Content.Insert.{add_data-IsHolding}
use ya_nfd.PitCs.Content.Policy.{IsPolicyOf, not_listed}
use ya_nfd.PitCs.Content.Kept.{IsKept, has_node_if_there, add_data-IsKept, evict-IsKept}

module _ (component_hash : Component → ℕ) where
  -- A node that holds an entry which the Interest takes is the first that the search looks at.
  prefix-acceptable :
      (s : PitCsTree) (now depth : ℕ) (interest : Interest) (n : Node) (x : NameTreeCsEntry)
      → acceptable s now interest (slot_of n).cs_entry ≡ some x
      → find_matching_data_cs_prefix s now interest depth n ≡ some x
  unfolding find_matching_data_cs_prefix
  prefix-acceptable s now depth interest (node t cs) x h = ground arith

  -- An Interest of the packet's name is given the packet.
  IsKept-found :
      (s : PitCsTree) (index : ℕ) (packet : PendingPacket Data) (stale_time d now : ℕ)
      (x : NameTreeCsEntry) (pending : PendingPacket Interest)
      → IsKept component_hash s index packet stale_time d x
      → pending.packet.name ≡ packet.packet.name
      → (not pending.packet.must_be_fresh || ltb now stale_time) ≡ true
      → (find_matching_data_from_cs component_hash now s pending).1 ≡ some x
  unfolding find_matching_data_from_cs acceptable
  IsKept-found s index packet stale_time d now x pending k same fresh =
      let p = path component_hash pending.packet.name in
      let paths = ap (path component_hash) same in
      let there : (slot s.root p).cs_entry ≡ some d = rw paths k.in_tree in
      let (n, found, at) =
        find_exact_match_entry-slot s.root p (has_node_if_there s.root p d there) in
      let holds : (slot_of n).cs_entry ≡ some d = ap (λ (t : Slot). t.cs_entry) at ∙ there in
      let stored = k.stored in
      let stale = k.stale in
      let takes : (not pending.packet.must_be_fresh || ltb now x.stale_time) ≡ true =
        rw stale fresh in
      let accepted : acceptable s now pending.packet (slot_of n).cs_entry ≡ some x =
        rw (holds, acceptable, stored, takes) refl in
      elim (Bool-cases pending.packet.can_be_prefix) [
        | inl prefix ↦
            let first =
              prefix-acceptable s now (length pending.packet.name) pending.packet n x accepted in
            ground arith
        | inr exact ↦ rw (find_matching_data_from_cs, found, exact, accepted) refl
      ]

  module _ (name_hash : Name → ℕ) (IsUsed : Name → Type 0)
      (to_hash : (n m : Name)
        → IsUsed n
        → IsUsed m
        → path component_hash n ≡ path component_hash m
        → name_hash n ≡ name_hash m) where
    module _
        (to_path : (n m : Name)
          → IsUsed n
          → IsUsed m
          → name_hash n ≡ name_hash m
          → path component_hash n ≡ path component_hash m) where
      renew_data-IsKept :
          (s : PitCsTree) (d stale_time : ℕ) (packet : PendingPacket Data)
          → IsHolding component_hash name_hash IsUsed s
          → IsUsed packet.packet.name
          → Assoc.get ℕ_discrete (name_hash packet.packet.name) s.cs_map ≡ some d
          → (x : NameTreeCsEntry) × IsKept component_hash
              (renew_data s (name_hash packet.packet.name) d stale_time packet)
              (name_hash packet.packet.name)
              packet
              stale_time
              d
              x
      unfolding renew_data refresh
      renew_data-IsKept s d stale_time packet v u f =
          let index = name_hash packet.packet.name in
          let (x, h) = v.held index d f in
          let renewed : NameTreeCsEntry = record x { enc_data = packet; stale_time = stale_time } in
          let there = h.stored in
          let names = to_path x.enc_data.packet.name packet.packet.name h.used u h.hashed in
          (
            renewed,
            rw (renew_data, there)
                (record {
                  stored = get-put ℕ_discrete d d renewed s.cs_entries ∙ ground arith;
                  in_tree = rw (sym names, sym h.placed) h.in_tree;
                  kept = refl;
                  stale = refl;
                  indexed = h.indexed;
                }),
          )

      -- Data that is put into the store is kept there under its name: it takes the place of the packet
      -- with that name, or that of a new entry, for which others are evicted if the store is full.
      pub insert_data-IsKept :
          (capacity now : ℕ) (s : PitCsTree) (packet : PendingPacket Data)
          → IsHolding component_hash name_hash IsUsed s
          → IsUsed packet.packet.name
          → IsPolicyOf s
          → 0 < capacity
          → (d : ℕ) × (x : NameTreeCsEntry) × IsKept component_hash
              (insert_data component_hash name_hash capacity now s packet)
              (name_hash packet.packet.name)
              packet
              (now + freshness packet.packet.freshness_period)
              d
              x
      unfolding insert_data
      insert_data-IsKept capacity now s packet v u a c =
          let index = name_hash packet.packet.name in
          let stale_time = now + freshness packet.packet.freshness_period in
          elim (Option-cases (Assoc.get ℕ_discrete index s.cs_map)) [
            | inl absent ↦
                let (x, k) = add_data-IsKept component_hash s index stale_time packet in
                let grown =
                  add_data-IsHolding component_hash name_hash IsUsed to_path to_hash s stale_time
                    packet v u absent in
                (
                  s.next_pointer,
                  x,
                  rw (insert_data, absent)
                      (evict-IsKept component_hash name_hash IsUsed to_hash capacity s stale_time
                        packet x index grown k
                        (not_listed s s.cs_replacement.queue index a.listed absent) c),
                )
            | inr (d, found) ↦
                let (x, k) = renew_data-IsKept s d stale_time packet v u found in
                (d, x, rw (insert_data, found) k)
          ]

      -- If names in use share a hash just if they have the same component hashes, the store's tree, map
      -- and policy are in step and its capacity is not 0, then Data that is inserted under a name in
      -- use, into a full store too, is what an Interest of the same name finds, as long as the Data is
      -- fresh or the Interest does not ask for fresh Data.
      pub find_matching_data_from_cs-insert_data :
          (capacity now later : ℕ) (s : PitCsTree) (packet : PendingPacket Data)
          (pending : PendingPacket Interest)
          → IsHolding component_hash name_hash IsUsed s
          → IsUsed packet.packet.name
          → IsPolicyOf s
          → 0 < capacity
          → pending.packet.name ≡ packet.packet.name
          → (not pending.packet.must_be_fresh
              || ltb later (now + freshness packet.packet.freshness_period))
            ≡ true
          → (x : NameTreeCsEntry) × ((find_matching_data_from_cs component_hash later
                (insert_data component_hash name_hash capacity now s packet)
                pending).1
              ≡ some x)
            × (x.enc_data ≡ packet)
      find_matching_data_from_cs-insert_data capacity now later s packet pending v u a c same
            fresh =
          let (d, x, k) = insert_data-IsKept capacity now s packet v u a c in
          (
            x,
            IsKept-found (insert_data component_hash name_hash capacity now s packet)
                (name_hash packet.packet.name) packet
                (now + freshness packet.packet.freshness_period) d later x pending k same fresh,
            k.kept,
          )
