-- ===== src/PitCs/Interests/Aggregation.antt =====
-- Which entry `InsertInterest` of table/pit-cs-tree.go returns: the one of the Interests with the same
-- name, selectors and hint, or a new one.
use native.Mathlib.Decide.{ℕ_discrete}
use ya_nfd.Prelude.{
  ℕ, ◌<◌, ◌==◌, ◌≡◌, refl, ap, sym, ◌∙◌, Bool, true, false, Option, none, some, List, arith,
  Bool-cases, Option-cases, inl, inr,
}
use ya_nfd.Name.{same_name→eq, same_name_self}
use ya_nfd.Heap.Arrays.{count}
use ya_nfd.Packets.{Component, Name, Interest, PendingPacket}
use ya_nfd.Pit.{InRecord, PitEntry}
use ya_nfd.PitCs.{NameTreePitEntry, PitCsTree, pit_entry, put_pit_entry, path}
use ya_nfd.PitCs.Tree.{Slot, fill_tree_to_prefix}
use ya_nfd.PitCs.Tree.Slots.{
  slot, same_path, has_node, slot-fill_tree_to_prefix, has_node-fill_tree_to_prefix,
}
use ya_nfd.PitCs.Interests.{
  same_bool, same_hint, matches, find_first, generate_new_pit_token, is_looping, settle, new_entry,
  add_entry, insert_interest,
}
use ya_nfd.PitCs.Interests.Prefixes.{is}
use ya_nfd.PitCs.Interests.Validity.{
  is_live, IsValid, IsSame, IsValid-IsSame, put_pit_entry-IsSame, pit_entry-put,
}
use ya_nfd.PitCs.Interests.Insert.{
  generate_new_pit_token-fresh, find_first-some, find_first-listed, pit_entry-add_entry,
  is_live-add_entry, node-add_entry, add_entry-IsValid,
}
use ya_nfd.PitCs.Interests.Answers.{
  IsFor, IsRepeated, is_looping-IsRepeated, is_looping-at, find_first-none, matches-IsFor,
  IsFor-matches,
}

module _ (equal : Discrete Component) (component_hash : Component → ℕ) where
  -- `e` is the entry of the table `s'` for an Interest that came to the table `s`, and `dup` tells
  -- whether the record of another face has the nonce. It is an entry of `s` if `s` has one for the
  -- Interest.
  pub record IsInserted (s : PitCsTree) (interest : Interest) (hint : Option Name) (in_face : ℕ)
      (s' : PitCsTree) (e : ℕ) (dup : Bool) : Type 0 where
    pub valid : IsValid s'
    pub live : is_live s' e ≡ true
    pub node : (pit_entry s' e).node ≡ path component_hash interest.name
    pub agrees : IsFor (pit_entry s' e).entry interest hint
    pub repeated :
        dup ≡ true
        → (i : ℕ) × (face : ℕ) × (r : InRecord) × IsRepeated interest.nonce in_face
            (pit_entry s' e).entry.in_records
            i
            face
            r
    pub told :
        (i face : ℕ) (r : InRecord)
        → IsRepeated interest.nonce in_face (pit_entry s' e).entry.in_records i face r
        → dup ≡ true
    pub aggregated :
        (x : ℕ)
        → is_live s x ≡ true
        → (pit_entry s x).node ≡ path component_hash interest.name
        → IsFor (pit_entry s x).entry interest hint
        → is_live s e ≡ true
    pub records :
        (x : ℕ)
        → is_live s x ≡ true
        → (pit_entry s' x).entry.in_records ≡ (pit_entry s x).entry.in_records
    pub others : (x : ℕ) → is_live s x ≡ true → is_live s' x ≡ true

  same_bool_self : (b : Bool) → same_bool b b ≡ true
  unfolding same_bool
  same_bool_self true = refl
  same_bool_self false = refl

  same_hint_self : (h : Option Name) → same_hint equal h h ≡ true
  unfolding same_hint
  same_hint_self none = refl
  same_hint_self (some n) = same_name_self equal n

  new_entry-matches :
      (interest : Interest) (hint : Option Name) (token : ℕ) (node : List ℕ)
      → matches equal (new_entry interest hint token node).entry interest hint ≡ true
  unfolding matches new_entry
  new_entry-matches interest hint token node =
      rw
        (
          same_bool_self interest.can_be_prefix,
          same_bool_self interest.must_be_fresh,
          same_hint_self hint,
        )
        refl

  -- What `settle` does to an entry that is in place.
  settle-IsInserted :
      (s : PitCsTree) (e : ℕ) (interest : Interest) (hint : Option Name) (in_face : ℕ)
      → IsValid s
      → is_live s e ≡ true
      → (pit_entry s e).node ≡ path component_hash interest.name
      → matches equal (pit_entry s e).entry interest hint ≡ true
      → IsInserted s interest hint in_face
          (settle s e interest.nonce in_face).0
          e
          (settle s e interest.nonce in_face).1.1
  unfolding settle matches
  settle-IsInserted s e interest hint in_face v live node matching =
      let x = pit_entry s e in
      let entry : PitEntry = record x.entry { expiration_time = 0 } in
      let cancelled : NameTreePitEntry = record x { entry = entry } in
      let s' = put_pit_entry s e cancelled in
      let same = put_pit_entry-IsSame s e cancelled refl refl in
      let written : pit_entry s' e ≡ cancelled = pit_entry-put s e e cancelled ∙ ground arith in
      elim (Bool-cases (is_looping interest.nonce in_face x.entry.in_records)) [
        | inl loop ↦
            rw (settle, loop)
              (record {
                valid = v;
                live = live;
                node = node;
                agrees = matches-IsFor equal x.entry interest hint matching;
                repeated =
                    λ h. is_looping-IsRepeated interest.nonce in_face x.entry.in_records loop;
                told = λ i face r h. refl;
                aggregated = λ y l n f. live;
                records = λ y l. refl;
                others = λ y l. l;
              })
        | inr fresh ↦
            rw (settle, fresh)
              (record {
                valid = IsValid-IsSame s s' same v;
                live = same.live e ∙ live;
                node = same.nodes e ∙ node;
                agrees = matches-IsFor equal (pit_entry s' e).entry interest hint (
                    ap (λ (y : NameTreePitEntry). matches equal y.entry interest hint) written
                    ∙ matching);
                repeated = λ h. absurd (ground arith);
                told = λ i face r h.
                    let looping =
                      is_looping-at interest.nonce in_face (pit_entry s' e).entry.in_records i face
                        r h in
                    let same =
                      ap
                        (λ (y : NameTreePitEntry).
                          is_looping interest.nonce in_face y.entry.in_records)
                        written in
                    sym fresh ∙ sym same ∙ looping;
                aggregated = λ y l n f. live;
                records = λ y l.
                    let at = pit_entry-put s e y cancelled in
                    elim (Bool-cases (e == y)) [
                      | inl it ↦
                          let eq : e ≡ y = ground arith in
                          let here : pit_entry s' y ≡ cancelled = at ∙ rw it refl in
                          ap (λ (z : NameTreePitEntry). z.entry.in_records) here
                          ∙ ap (λ (z : ℕ). (pit_entry s z).entry.in_records) eq
                      | inr away ↦
                          let there : pit_entry s' y ≡ pit_entry s y = at ∙ rw away refl in
                          ap (λ (z : NameTreePitEntry). z.entry.in_records) there
                    ];
                others = λ y l. same.live y ∙ l;
              })
      ]

  settle_pointer :
      (s : PitCsTree) (e : ℕ) (wanted : Option ℕ) (in_face : ℕ)
      → settle s e wanted in_face
        ≡ ((settle s e wanted in_face).0, (e, (settle s e wanted in_face).1.1))
  unfolding settle
  settle_pointer s e wanted in_face =
      elim (Bool-cases (is_looping wanted in_face (pit_entry s e).entry.in_records)) [
        | inl loop ↦ rw (settle, loop) refl
        | inr fresh ↦ rw (settle, fresh) refl
      ]

  module _ (draws : List ℕ) (s : PitCsTree) (packet : PendingPacket Interest) (hint : Option Name)
      (in_face : ℕ) where
    filled : PitCsTree
    filled = record s { root = fill_tree_to_prefix s.root (path component_hash packet.packet.name) }

    filled-IsSame : IsSame s filled
    unfolding filled is_live pit_entry
    filled-IsSame = record {
      lists = λ p e.
          ap (λ (t : Slot). count (is e) t.pit_entries)
            (slot-fill_tree_to_prefix s.root (path component_hash packet.packet.name) p);
      live = λ e. refl;
      nodes = λ e. refl;
      pointer = refl;
      number_kept = refl;
    }

    filled_entry : (x : ℕ) → pit_entry filled x ≡ pit_entry s x
    unfolding filled pit_entry
    filled_entry x = refl

    filled_node : has_node filled.root (path component_hash packet.packet.name) ≡ true
    unfolding filled
    filled_node = has_node-fill_tree_to_prefix s.root (path component_hash packet.packet.name)

    IsInserted-found :
        (e : ℕ)
        → IsValid s
        → find_first
            (λ e. matches equal (pit_entry filled e).entry packet.packet hint)
            (slot filled.root (path component_hash packet.packet.name)).pit_entries
          ≡ some e
        → IsInserted s packet.packet hint in_face
            (settle filled e packet.packet.nonce in_face).0
            e
            (settle filled e packet.packet.nonce in_face).1.1
    IsInserted-found e v found =
        let interest = packet.packet in
        let p = path component_hash interest.name in
        let test = λ (x : ℕ). matches equal (pit_entry filled x).entry interest hint in
        let es = (slot filled.root p).pit_entries in
        let v' = IsValid-IsSame s filled filled-IsSame v in
        let there = find_first-listed test es e found in
        let once = v'.listed p e in
        let live : is_live filled e ≡ true = ground arith in
        let at : same_path (pit_entry filled e).node p ≡ true = ground arith in
        let r =
          settle-IsInserted filled e interest hint in_face v' live
            (same_name→eq ℕ_discrete (pit_entry filled e).node p at)
            (find_first-some test es e found) in
        record {
          valid = r.valid;
          live = r.live;
          node = r.node;
          agrees = r.agrees;
          repeated = r.repeated;
          told = r.told;
          aggregated = λ x l n f. sym (filled-IsSame.live e) ∙ live;
          records = λ x l.
              r.records x (filled-IsSame.live x ∙ l)
              ∙ ap (λ (z : NameTreePitEntry). z.entry.in_records) (filled_entry x);
          others = λ x l. r.others x (filled-IsSame.live x ∙ l);
        }

    IsInserted-new :
        (t : ℕ)
        → IsValid s
        → generate_new_pit_token draws filled.pit_token_map ≡ some t
        → find_first
            (λ e. matches equal (pit_entry filled e).entry packet.packet hint)
            (slot filled.root (path component_hash packet.packet.name)).pit_entries
          ≡ none
        → IsInserted s packet.packet hint in_face
            (settle
              (add_entry filled packet.packet hint t (path component_hash packet.packet.name))
              filled.next_pointer
              packet.packet.nonce
              in_face).0
            filled.next_pointer
            (settle
              (add_entry filled packet.packet hint t (path component_hash packet.packet.name))
              filled.next_pointer
              packet.packet.nonce
              in_face).1.1
    IsInserted-new t v drawn absent =
        let interest = packet.packet in
        let p = path component_hash interest.name in
        let v' = IsValid-IsSame s filled filled-IsSame v in
        let unused = generate_new_pit_token-fresh draws filled.pit_token_map t drawn in
        let grown = add_entry filled interest hint t p in
        let e = filled.next_pointer in
        let live = λ (x : ℕ). is_live-add_entry filled interest hint t p x v' unused in
        let made : pit_entry grown e ≡ new_entry interest hint t p =
          pit_entry-add_entry filled interest hint t p e ∙ ground arith in
        let r =
          settle-IsInserted grown e interest hint in_face
            (add_entry-IsValid filled interest hint t p v' (filled_node) unused)
            (live e ∙ ground arith) (node-add_entry filled interest hint t p e ∙ ground arith)
            (ap (λ (y : NameTreePitEntry). matches equal y.entry interest hint) made
              ∙ new_entry-matches interest hint t p) in
        record {
          valid = r.valid;
          live = r.live;
          node = r.node;
          agrees = r.agrees;
          repeated = r.repeated;
          told = r.told;
          aggregated = λ x l n f.
              let test = λ (y : ℕ). matches equal (pit_entry filled y).entry interest hint in
              let entry_eq = filled_entry x in
              let node_eq = ap (λ (z : NameTreePitEntry). z.node) entry_eq ∙ n in
              let there = v'.listed p x in
              let at : same_path (pit_entry filled x).node p ≡ true =
                rw node_eq (same_name_self ℕ_discrete p) in
              let still_live = filled-IsSame.live x ∙ l in
              let one : 0 < count (is x) (slot filled.root p).pit_entries = ground arith in
              let passed_over =
                find_first-none test (slot filled.root p).pit_entries x absent one in
              let passes : test x ≡ true =
                ap (λ (z : NameTreePitEntry). matches equal z.entry interest hint) entry_eq
                ∙ IsFor-matches equal (pit_entry s x).entry interest hint f in
              absurd (ground arith);
          records = λ x l.
              let known = filled-IsSame.live x ∙ l in
              let beyond = v'.bounded e (omega arith) in
              let apart : (e == x) ≡ false = elim (Bool-cases (e == x)) [
                | inl it ↦
                    let eq : e ≡ x = ground arith in
                    let gone : is_live filled x ≡ false = rw (sym eq) beyond in
                    absurd (ground arith)
                | inr other ↦ other
              ] in
              let there : pit_entry grown x ≡ pit_entry s x =
                pit_entry-add_entry filled interest hint t p x ∙ rw apart (filled_entry x) in
              r.records x (live x ∙ ground (arith, known))
              ∙ ap (λ (z : NameTreePitEntry). z.entry.in_records) there;
          others = λ x l. r.others x (live x ∙ ground (arith, filled-IsSame.live x));
        }

    -- A table that is in order stays so when an Interest comes, if a number is drawn that is not a
    -- token in use. The entry that is returned stands in the table, under the Interest's name, and has
    -- its selectors and its hint; it is an entry that was there if the table had one for the Interest.
    -- The nonce is called a duplicate just if an in-record of the entry from another face has it.
    -- No entry leaves the table, and the entries that were there keep their in-records.
    pub insert_interest-IsInserted :
        (u : ℕ)
        → IsValid s
        → generate_new_pit_token draws s.pit_token_map ≡ some u
        → (s' : PitCsTree) × (e : ℕ) × (dup : Bool) × (insert_interest equal component_hash draws s
              packet hint in_face
            ≡ some (s', (e, dup)))
          × IsInserted s packet.packet hint in_face s' e dup
    unfolding insert_interest filled
    insert_interest-IsInserted u v drawn =
        let interest = packet.packet in
        let p = path component_hash interest.name in
        let test = λ (x : ℕ). matches equal (pit_entry filled x).entry interest hint in
        elim (Option-cases (find_first test (slot filled.root p).pit_entries)) [
          | inl absent ↦
              let grown = add_entry filled interest hint u p in
              let e = filled.next_pointer in
              let (s', r) = settle grown e interest.nonce in_face in
              (
                s',
                e,
                r.1,
                rw (insert_interest, absent, drawn)
                    (ap some (settle_pointer grown e interest.nonce in_face)),
                IsInserted-new u v drawn absent,
              )
          | inr (e, found) ↦
              let (s', r) = settle filled e interest.nonce in_face in
              (
                s',
                e,
                r.1,
                rw (insert_interest, found)
                    (ap some (settle_pointer filled e interest.nonce in_face)),
                IsInserted-found e v found,
              )
        ]
