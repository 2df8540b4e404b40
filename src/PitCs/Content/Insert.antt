-- ===== src/PitCs/Content/Insert.antt =====
-- `InsertData` of table/pit-cs-tree.go: the tree and the map by name hashes stay in step.
use native.Mathlib.Decide.{ℕ_discrete}
use ya_nfd.Prelude.{
  ℕ, ◌+◌, ◌≡◌, refl, ap, sym, ◌∙◌, false, none, some, List, ◌==◌, arith, Bool-cases, Option-cases,
  inl, inr,
}
use ya_nfd.Prelude.Assoc
use ya_nfd.Prelude.Assoc.{get-put, get-delete}
use ya_nfd.Name.{same_name→eq, same_name_self}
use ya_nfd.Packets.{Component, Name, Data, PendingPacket}
use ya_nfd.CsLru.{before_use}
use ya_nfd.PitCs.{NameTreeCsEntry, PitCsTree, path}
use ya_nfd.PitCs.Tree.{Slot, fill_tree_to_prefix, write_slot}
use ya_nfd.PitCs.Tree.Slots.{
  slot, same_path, slot-fill_tree_to_prefix, has_node-fill_tree_to_prefix, slot-write_slot,
}
use ya_nfd.PitCs.Content.{freshness, refresh, add_data, renew_data, insert_data}
use ya_nfd.PitCs.Content.Store.{IsHolding, replaced, evict-IsHolding}

module _ (component_hash : Component → ℕ) (name_hash : Name → ℕ) (IsUsed : Name → Type 0) where
  module _
      (to_path : (n m : Name)
        → IsUsed n
        → IsUsed m
        → name_hash n ≡ name_hash m
        → path component_hash n ≡ path component_hash m)
      (to_hash : (n m : Name)
        → IsUsed n
        → IsUsed m
        → path component_hash n ≡ path component_hash m
        → name_hash n ≡ name_hash m) where
    pub add_data-IsHolding :
        (s : PitCsTree) (stale_time : ℕ) (packet : PendingPacket Data)
        → IsHolding component_hash name_hash IsUsed s
        → IsUsed packet.packet.name
        → Assoc.get ℕ_discrete (name_hash packet.packet.name) s.cs_map ≡ none
        → IsHolding component_hash name_hash IsUsed
            (add_data component_hash s (name_hash packet.packet.name) stale_time packet)
    unfolding add_data
    add_data-IsHolding s stale_time packet v u absent =
        let n = packet.packet.name in
        let index = name_hash n in
        let node = path component_hash n in
        let d = s.next_pointer in
        let root = fill_tree_to_prefix s.root node in
        let fresh : NameTreeCsEntry = record {
          index = index;
          stale_time = stale_time;
          enc_data = packet;
          node = node;
        } in
        let at = λ (p : List ℕ).
          slot-write_slot (λ (t : Slot). record t { cs_entry = some d }) root node p
            (has_node-fill_tree_to_prefix s.root node) in
        let same_slot = slot-fill_tree_to_prefix s.root node in
        let mapping = λ (j : ℕ). get-put ℕ_discrete index j d s.cs_map in
        let storing = λ (e : ℕ). get-put ℕ_discrete d e fresh s.cs_entries in
        let self = same_name_self ℕ_discrete node in
        record {
          held = λ j e g. elim (Bool-cases (index == j)) [
            | inl it ↦
                let pointers : d ≡ e = ground (arith, mapping j) in
                let eq : index ≡ j = ground arith in
                (
                  fresh,
                  record {
                    stored = storing e ∙ ground arith;
                    indexed = eq;
                    hashed = eq;
                    placed = refl;
                    in_tree = ap (λ (t : Slot). t.cs_entry) (at node) ∙ rw self (ap some pointers);
                    bounded = omega arith;
                    used = u;
                  },
                )
            | inr other ↦
                let (y, k) = v.held j e (ground (arith, mapping j)) in
                let below = k.bounded in
                let apart : same_path node y.node ≡ false =
                  elim (Bool-cases (same_path node y.node)) [
                    | inl same ↦
                        let paths = same_name→eq ℕ_discrete node y.node same in
                        let hashes =
                          to_hash n y.enc_data.packet.name u k.used (paths ∙ k.placed) ∙ k.hashed in
                        ground arith
                    | inr apart ↦ apart
                  ] in
                (
                  y,
                  record {
                    stored = storing e ∙ ground (arith, k.stored);
                    indexed = k.indexed;
                    hashed = k.hashed;
                    placed = k.placed;
                    in_tree =
                        ap (λ (t : Slot). t.cs_entry) (at y.node)
                        ∙ rw (apart, same_slot y.node) k.in_tree;
                    bounded = omega arith;
                    used = k.used;
                  },
                )
          ];
          mapped = λ p e g. elim (Bool-cases (same_path node p)) [
            | inl it ↦
                let written : (slot
                      (write_slot (λ (t : Slot). record t { cs_entry = some d }) root node)
                      p).cs_entry
                    ≡ some d =
                  ap (λ (t : Slot). t.cs_entry) (at p) ∙ rw it refl in
                let pointers : d ≡ e = ground arith in
                (
                  fresh,
                  storing e ∙ ground arith,
                  same_name→eq ℕ_discrete node p it,
                  mapping index ∙ ground arith,
                )
            | inr apart ↦
                let kept : (slot
                      (write_slot (λ (t : Slot). record t { cs_entry = some d }) root node)
                      p).cs_entry
                    ≡ (slot s.root p).cs_entry =
                  ap (λ (t : Slot). t.cs_entry) (at p)
                  ∙ rw apart (ap (λ (t : Slot). t.cs_entry) (same_slot p)) in
                let (y, stored, there, leads) = v.mapped p e (sym kept ∙ g) in
                let (z, k) = v.held y.index e leads in
                let below = k.bounded in
                (y, storing e ∙ ground arith, there, mapping y.index ∙ ground arith)
          ];
        }

    renew_data-IsHolding :
        (s : PitCsTree) (d stale_time : ℕ) (packet : PendingPacket Data)
        → IsHolding component_hash name_hash IsUsed s
        → IsUsed packet.packet.name
        → Assoc.get ℕ_discrete (name_hash packet.packet.name) s.cs_map ≡ some d
        → IsHolding component_hash name_hash IsUsed
            (renew_data s (name_hash packet.packet.name) d stale_time packet)
    unfolding renew_data refresh
    renew_data-IsHolding s d stale_time packet v u f =
        let index = name_hash packet.packet.name in
        let (x, h) = v.held index d f in
        let renewed : NameTreeCsEntry = record x { enc_data = packet; stale_time = stale_time } in
        let there = h.stored in
        let storing = λ (e : ℕ). get-put ℕ_discrete d e renewed s.cs_entries in
        let names = to_path x.enc_data.packet.name packet.packet.name h.used u h.hashed in
        rw (renew_data, there)
          (replaced component_hash name_hash IsUsed
            (record s { cs_entries = Assoc.put ℕ_discrete d renewed s.cs_entries })
            (before_use index s.cs_replacement)
            (record {
              held = λ j e g.
                  let (y, k) = v.held j e g in
                  elim (Bool-cases (d == e)) [
                    | inl it ↦
                        let pointers : d ≡ e = ground arith in
                        let second = k.stored in
                        let entries : x ≡ y = ground arith in
                        let first_index = h.indexed in
                        let second_index = k.indexed in
                        let indexes = ap (λ (z : NameTreeCsEntry). z.index) entries in
                        let eq : index ≡ j = ground arith in
                        let below = k.bounded in
                        (
                          renewed,
                          record {
                            stored = storing e ∙ ground arith;
                            indexed = h.indexed ∙ eq;
                            hashed = eq;
                            placed = h.placed ∙ names;
                            in_tree = h.in_tree ∙ ap some pointers;
                            bounded = below;
                            used = u;
                          },
                        )
                    | inr other ↦ (
                      y,
                      record {
                        stored = storing e ∙ ground (arith, k.stored);
                        indexed = k.indexed;
                        hashed = k.hashed;
                        placed = k.placed;
                        in_tree = k.in_tree;
                        bounded = k.bounded;
                        used = k.used;
                      },
                    )
                  ];
              mapped = λ p e g.
                  let (y, stored, node, leads) = v.mapped p e g in
                  elim (Bool-cases (d == e)) [
                    | inl it ↦
                        let pointers : d ≡ e = ground arith in
                        let entries : x ≡ y = ground arith in
                        let nodes = ap (λ (z : NameTreeCsEntry). z.node) entries in
                        let indexes = ap (λ (z : NameTreeCsEntry). z.index) entries in
                        (renewed, storing e ∙ ground arith, nodes ∙ node, rw indexes leads)
                    | inr other ↦ (y, storing e ∙ ground arith, node, leads)
                  ];
            }))

    -- If names in use share a hash just if they have the same component hashes, then `InsertData` of a
    -- packet with such a name keeps the tree and the map in step, whatever it evicts.
    pub insert_data-IsHolding :
        (capacity now : ℕ) (s : PitCsTree) (packet : PendingPacket Data)
        → IsHolding component_hash name_hash IsUsed s
        → IsUsed packet.packet.name
        → IsHolding component_hash name_hash IsUsed
            (insert_data component_hash name_hash capacity now s packet)
    unfolding insert_data
    insert_data-IsHolding capacity now s packet v u =
        let index = name_hash packet.packet.name in
        let stale_time = now + freshness packet.packet.freshness_period in
        elim (Option-cases (Assoc.get ℕ_discrete index s.cs_map)) [
          | inl absent ↦
              rw (insert_data, absent)
                (evict-IsHolding component_hash name_hash IsUsed to_hash capacity
                  (add_data component_hash s index stale_time packet)
                  (add_data-IsHolding s stale_time packet v u absent))
          | inr (d, found) ↦
              rw (insert_data, found) (renew_data-IsHolding s d stale_time packet v u found)
        ]
