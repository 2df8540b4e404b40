-- ===== src/PitCs/Content/Store.antt =====
-- The Content Store in table/pit-cs-tree.go: the tree and the map by name hashes hold the same entries,
-- also when entries are evicted.
use native.Mathlib.Decide.{ℕ_discrete}
use mathlib.Core.Logic.{ite}
use ya_nfd.Prelude.{
  ℕ, ◌-◌, ◌<◌, ◌≡◌, ◌≢◌, refl, ap, sym, ◌∙◌, true, false, none, some, List, [], ◌∷◌, length, ltb,
  ◌==◌, arith, Bool-cases, Option-cases, inl, inr,
}
use ya_nfd.Prelude.Assoc
use ya_nfd.Prelude.Assoc.{get-put, get-delete}
use ya_nfd.Name.{same_name→eq, same_name_self}
use ya_nfd.Packets.{Component, Name}
use ya_nfd.CsLru.{CsLru, evict_from, evict_entries}
use ya_nfd.PitCs.{NameTreeCsEntry, PitCsTree, path, new_pit_cs}
use ya_nfd.PitCs.Tree.{Slot, new_node, write_slot}
use ya_nfd.PitCs.Tree.Slots.{slot, same_path, has_node, slot-write_slot, slot-has_node}
use ya_nfd.PitCs.Content.{cs_entry, erase_cs_data, evict}

nothing_new : (p : List ℕ) (d : ℕ) → (slot new_node p).cs_entry ≢ some d
unfolding slot
nothing_new [] d h = ground arith
nothing_new (c ∷ p) d h = ground arith

module _ (component_hash : Component → ℕ) (name_hash : Name → ℕ) (IsUsed : Name → Type 0) where
  -- The entry `x` of a hash: it stands in the tree under its name, one of the names in use.
  pub record IsHeld (s : PitCsTree) (index d : ℕ) (x : NameTreeCsEntry) : Type 0 where
    pub stored : cs_entry s d ≡ some x
    pub indexed : x.index ≡ index
    pub hashed : name_hash x.enc_data.packet.name ≡ index
    pub placed : x.node ≡ path component_hash x.enc_data.packet.name
    pub in_tree : (slot s.root x.node).cs_entry ≡ some d
    pub bounded : d < s.next_pointer
    pub used : IsUsed x.enc_data.packet.name

  -- Each entry of the map is held, and each that a node holds is one of the map, at that node.
  pub record IsHolding (s : PitCsTree) : Type 0 where
    pub held :
        (index d : ℕ)
        → Assoc.get ℕ_discrete index s.cs_map ≡ some d
        → (x : NameTreeCsEntry) × IsHeld s index d x
    pub mapped :
        (p : List ℕ) (d : ℕ)
        → (slot s.root p).cs_entry ≡ some d
        → (x : NameTreeCsEntry) × (cs_entry s d ≡ some x)
          × (x.node ≡ p)
          × (Assoc.get ℕ_discrete x.index s.cs_map ≡ some d)

  pub new_pit_cs-IsHolding : IsHolding new_pit_cs
  unfolding new_pit_cs Assoc.get
  new_pit_cs-IsHolding = record {
    held = λ i d f. absurd (ground arith);
    mapped = λ p d g. absurd (nothing_new p d g);
  }

  has_node_if_held :
      (s : PitCsTree) (p : List ℕ) (d : ℕ)
      → (slot s.root p).cs_entry ≡ some d
      → has_node s.root p ≡ true
  has_node_if_held s p d h = elim (Bool-cases (has_node s.root p)) [
    | inl there ↦ there
    | inr gone ↦
        let nothing : (slot s.root p).cs_entry ≡ none =
          ap (λ (t : Slot). t.cs_entry) (slot-has_node s.root p gone) in
        ground arith
  ]

  -- The replacement policy is apart from the entries.
  pub replaced :
      (s : PitCsTree) (l : CsLru) → IsHolding s → IsHolding (record s { cs_replacement = l })
  replaced s l v = record {
    held = λ i d f.
        let (x, h) = v.held i d f in
        (
          x,
          record {
            stored = h.stored;
            indexed = h.indexed;
            hashed = h.hashed;
            placed = h.placed;
            in_tree = h.in_tree;
            bounded = h.bounded;
            used = h.used;
          },
        );
    mapped = v.mapped;
  }

  -- Names in use with the same component hashes have the same hash.
  module _
      (to_hash : (n m : Name)
        → IsUsed n
        → IsUsed m
        → path component_hash n ≡ path component_hash m
        → name_hash n ≡ name_hash m) where
    one_index :
        (s : PitCsTree) (i j d e : ℕ) (x y : NameTreeCsEntry)
        → IsHeld s i d x
        → IsHeld s j e y
        → x.node ≡ y.node
        → i ≡ j
    one_index s i j d e x y a b same =
        sym a.hashed
        ∙ to_hash x.enc_data.packet.name y.enc_data.packet.name a.used b.used
            (sym a.placed ∙ same ∙ b.placed)
        ∙ b.hashed

    -- Another entry than the erased one keeps its place in the map.
    still :
        (s : PitCsTree) (index d e : ℕ) (x y : NameTreeCsEntry) (p : List ℕ)
        → IsHeld s index d x
        → cs_entry s e ≡ some y
        → y.node ≡ p
        → Assoc.get ℕ_discrete y.index s.cs_map ≡ some e
        → Assoc.get ℕ_discrete index s.cs_map ≡ some d
        → same_path x.node p ≡ false
        → ite (ℕ_discrete index y.index) none (Assoc.get ℕ_discrete y.index s.cs_map) ≡ some e
    still s index d e x y p h stored node leads f apart = elim (Bool-cases (index == y.index)) [
      | inl it ↦
          let eq : index ≡ y.index = ground arith in
          let pointers : d ≡ e = ground arith in
          let first = h.stored in
          let self = same_name_self ℕ_discrete p in
          let entries : x ≡ y = ground arith in
          let paths : x.node ≡ p = ap (λ (z : NameTreeCsEntry). z.node) entries ∙ node in
          ground arith
      | inr other ↦ ground arith
    ]

    erase_found :
        (s : PitCsTree) (index d : ℕ) (x : NameTreeCsEntry)
        → IsHolding s
        → Assoc.get ℕ_discrete index s.cs_map ≡ some d
        → IsHeld s index d x
        → IsHolding (record s {
          root = write_slot (λ (t : Slot). record t { cs_entry = none }) s.root x.node;
          cs_map = Assoc.delete ℕ_discrete index s.cs_map;
          n_cs_entries = s.n_cs_entries - 1;
        })
    erase_found s index d x v f h =
        let there = has_node_if_held s x.node d h.in_tree in
        let at = λ (p : List ℕ).
          slot-write_slot (λ (t : Slot). record t { cs_entry = none }) s.root x.node p there in
        let gone = λ (j : ℕ). get-delete ℕ_discrete index j s.cs_map in
        let self = same_name_self ℕ_discrete x.node in
        record {
          held = λ j e g.
              let (y, k) = v.held j e (ground (arith, gone j)) in
              let apart : same_path x.node y.node ≡ false =
                elim (Bool-cases (same_path x.node y.node)) [
                  | inl same ↦
                      let eq =
                        one_index s index j d e x y h k
                          (same_name→eq ℕ_discrete x.node y.node same) in
                      ground (arith, gone j)
                  | inr other ↦ other
                ] in
              (
                y,
                record {
                  stored = k.stored;
                  indexed = k.indexed;
                  hashed = k.hashed;
                  placed = k.placed;
                  in_tree = ap (λ (t : Slot). t.cs_entry) (at y.node) ∙ rw apart k.in_tree;
                  bounded = k.bounded;
                  used = k.used;
                },
              );
          mapped = λ p e g. elim (Bool-cases (same_path x.node p)) [
            | inl same ↦
                let cleared : (slot
                      (write_slot (λ (t : Slot). record t { cs_entry = none }) s.root x.node)
                      p).cs_entry
                    ≡ none =
                  ap (λ (t : Slot). t.cs_entry) (at p) ∙ rw same refl in
                ground arith
            | inr apart ↦
                let kept : (slot
                      (write_slot (λ (t : Slot). record t { cs_entry = none }) s.root x.node)
                      p).cs_entry
                    ≡ (slot s.root p).cs_entry =
                  ap (λ (t : Slot). t.cs_entry) (at p) ∙ rw apart refl in
                let (y, stored, node, leads) = v.mapped p e (sym kept ∙ g) in
                (
                  y,
                  stored,
                  node,
                  gone y.index ∙ still s index d e x y p h stored node leads f apart,
                )
          ];
        }

    -- Erasing keeps the tree and the map in step.
    pub erase_cs_data-IsHolding :
        (index : ℕ) (s : PitCsTree) → IsHolding s → IsHolding (erase_cs_data index s)
    unfolding erase_cs_data
    erase_cs_data-IsHolding index s v = elim (Option-cases (Assoc.get ℕ_discrete index s.cs_map)) [
      | inl absent ↦ rw (erase_cs_data, absent) v
      | inr (d, f) ↦
          let (x, h) = v.held index d f in
          let stored = h.stored in rw (erase_cs_data, f, stored) (erase_found s index d x v f h)
    ]

    evict_from-IsHolding :
        (capacity : ℕ) (q : List (ℕ × ℕ)) (s : PitCsTree)
        → IsHolding s
        → IsHolding (evict_from erase_cs_data capacity q s).1
    unfolding evict_from
    evict_from-IsHolding capacity [] s v = v
    evict_from-IsHolding capacity ((e, i) ∷ q) s v =
        elim (Bool-cases (ltb capacity (length ((e, i) ∷ q)))) [
          | inl more ↦
              rw more (
                evict_from-IsHolding capacity q (erase_cs_data i s) (erase_cs_data-IsHolding i s v))
          | inr fits ↦ rw fits v
        ]

    -- Eviction keeps them in step.
    pub evict-IsHolding :
        (capacity : ℕ) (s : PitCsTree) → IsHolding s → IsHolding (evict capacity s)
    unfolding evict evict_entries
    evict-IsHolding capacity s v =
        let w = evict_from-IsHolding capacity s.cs_replacement.queue s v in
        replaced (evict_from erase_cs_data capacity s.cs_replacement.queue s).1
          (record s.cs_replacement {
            queue = (evict_from erase_cs_data capacity s.cs_replacement.queue s).0;
          })
          w
