-- ===== src/PitCs/Content/Policy.antt =====
-- The replacement policy of the Content Store in table/pit-cs-tree.go has no index but those of the
-- store, and each once.
use native.Mathlib.Decide.{ℕ_discrete}
use ya_nfd.Prelude.{
  ℕ, ◌≡◌, ◌≢◌, sym, ◌∙◌, false, none, some, List, [], ◌∷◌, ◌++◌, All, length, ltb, ◌==◌, ◌+◌, arith,
  Bool-cases, Option-cases, inl, inr,
}
use ya_nfd.Prelude.Assoc
use ya_nfd.Prelude.Assoc.{get-put, get-delete}
use ya_nfd.Packets.{Component, Name, Data, PendingPacket}
use ya_nfd.CsLru.{
  remove_element, push_back, after_insert, before_use, evict_from, evict_entries, new_cs_lru,
}
use ya_nfd.CsLru.Recency.{
  IsValid, location, All-imp, All-end, remove_element_keeps, push_back-IsValid, not_located,
  without-Absent, new_cs_lru-IsValid, before_use-recency,
}
use ya_nfd.CsLru.Eviction.{evict_entries-recency}
use ya_nfd.PitCs.{NameTreeCsEntry, PitCsTree, new_pit_cs}
use ya_nfd.PitCs.Content.{
  cs_entry, erase_cs_data, freshness, refresh, evict, add_data, renew_data, insert_data,
}

-- Each index is in the queue once.
abbrev pub Distinct : List (ℕ × ℕ) → Type 0
Distinct [] = Unit
Distinct ((e, i) ∷ q) = All (λ x. x.1 ≢ i) q × Distinct q

-- An index of the store.
abbrev pub IsIndex : PitCsTree → ℕ × ℕ → Type 0
IsIndex s x = (d : ℕ) × (Assoc.get ℕ_discrete x.1 s.cs_map ≡ some d)

pub record IsPolicyOf (s : PitCsTree) : Type 0 where
  pub policy : IsValid s.cs_replacement
  pub listed : All (IsIndex s) s.cs_replacement.queue
  pub distinct : Distinct s.cs_replacement.queue

Distinct-end :
    (q : List (ℕ × ℕ)) (e i : ℕ) → Distinct q → All (λ x. x.1 ≢ i) q → Distinct (q ++ ((e, i) ∷ []))
Distinct-end [] e i d a = (tt, tt)
Distinct-end ((f, j) ∷ q) e i d a =
    (All-end (λ x. x.1 ≢ j) q (e, i) d.0 (λ h. a.0 (sym h)), Distinct-end q e i d.1 a.1)

Distinct-remove_element : (e : ℕ) (q : List (ℕ × ℕ)) → Distinct q → Distinct (remove_element e q)
unfolding remove_element
Distinct-remove_element e [] d = tt
Distinct-remove_element e ((f, j) ∷ q) d =
    let rest = Distinct-remove_element e q d.1 in
    elim (Bool-cases (f == e)) [
      | inl it ↦ rw it rest
      | inr other ↦ rw other (remove_element_keeps (λ x. x.1 ≢ j) e q d.0, rest)
    ]

-- An index that the store does not have is not in the queue.
pub not_listed :
    (s : PitCsTree) (q : List (ℕ × ℕ)) (index : ℕ)
    → All (IsIndex s) q
    → Assoc.get ℕ_discrete index s.cs_map ≡ none
    → All (λ x. x.1 ≢ index) q
not_listed s [] index a absent = tt
not_listed s ((e, i) ∷ q) index a absent =
    let (d, f) = a.0 in
    (
      λ eq. let gone : Assoc.get ℕ_discrete i s.cs_map ≡ none = rw eq absent in ground arith,
      not_listed s q index a.1 absent,
    )

erase_cs_data-IsIndex :
    (i : ℕ) (s : PitCsTree) (x : ℕ × ℕ) → x.1 ≢ i → IsIndex s x → IsIndex (erase_cs_data i s) x
unfolding erase_cs_data
erase_cs_data-IsIndex i s x apart (d, f) = elim (Option-cases (Assoc.get ℕ_discrete i s.cs_map)) [
  | inl absent ↦ rw (erase_cs_data, absent) (d, f)
  | inr (e, found) ↦ elim (Option-cases (cs_entry s e)) [
    | inl nothing ↦ rw (erase_cs_data, found, nothing) (d, f)
    | inr (y, stored) ↦
        let left = get-delete ℕ_discrete i x.1 s.cs_map in
        let away : (i == x.1) ≡ false = elim (Bool-cases (i == x.1)) [
          | inl it ↦ let eq : x.1 ≡ i = ground arith in absurd (apart eq)
          | inr other ↦ other
        ] in
        rw (erase_cs_data, found, stored) (d, left ∙ ground arith)
  ]
]

erase_cs_data-listed :
    (i : ℕ) (s : PitCsTree) (q : List (ℕ × ℕ))
    → All (λ x. x.1 ≢ i) q
    → All (IsIndex s) q
    → All (IsIndex (erase_cs_data i s)) q
erase_cs_data-listed i s [] a b = tt
erase_cs_data-listed i s (x ∷ q) a b =
    (erase_cs_data-IsIndex i s x a.0 b.0, erase_cs_data-listed i s q a.1 b.1)

evict_from-listed :
    (capacity : ℕ) (q : List (ℕ × ℕ)) (s : PitCsTree)
    → All (IsIndex s) q
    → Distinct q
    → All
        (IsIndex (evict_from erase_cs_data capacity q s).1)
        (evict_from erase_cs_data capacity q s).0
      × Distinct (evict_from erase_cs_data capacity q s).0
unfolding evict_from
evict_from-listed capacity [] s a d = (tt, tt)
evict_from-listed capacity ((e, i) ∷ q) s a d =
    elim (Bool-cases (ltb capacity (length ((e, i) ∷ q)))) [
      | inl more ↦ rw more (
          evict_from-listed capacity q (erase_cs_data i s) (erase_cs_data-listed i s q d.0 a.1) d.1)
      | inr fits ↦ rw fits (a, d)
    ]

evict-IsPolicyOf : (capacity : ℕ) (s : PitCsTree) → IsPolicyOf s → IsPolicyOf (evict capacity s)
unfolding evict evict_entries
evict-IsPolicyOf capacity s p =
    let r = evict_from-listed capacity s.cs_replacement.queue s p.listed p.distinct in
    record {
      policy = (evict_entries-recency erase_cs_data capacity s.cs_replacement s p.policy).0;
      listed = r.0;
      distinct = r.1;
    }

add_data-IsPolicyOf :
    (component_hash : Component → ℕ) (s : PitCsTree) (index stale_time : ℕ)
    (packet : PendingPacket Data)
    → IsPolicyOf s
    → Assoc.get ℕ_discrete index s.cs_map ≡ none
    → IsPolicyOf (add_data component_hash s index stale_time packet)
unfolding add_data after_insert push_back
add_data-IsPolicyOf component_hash s index stale_time packet p absent =
    let q = s.cs_replacement.queue in
    let away = not_listed s q index p.listed absent in
    let grown = add_data component_hash s index stale_time packet in
    let mapping = λ (j : ℕ). get-put ℕ_discrete index j s.next_pointer s.cs_map in
    let kept : All (IsIndex grown) q =
      All-imp (IsIndex s) (IsIndex grown)
        (λ x h.
          let (d, f) = h in
          elim (Bool-cases (index == x.1)) [
            | inl it ↦ (s.next_pointer, mapping x.1 ∙ ground arith)
            | inr other ↦ (d, mapping x.1 ∙ ground arith)
          ])
        q p.listed in
    record {
      policy = push_back-IsValid index s.cs_replacement p.policy away;
      listed =
          All-end (IsIndex grown) q (s.cs_replacement.next_element, index) kept
            (s.next_pointer, mapping index ∙ ground arith);
      distinct = Distinct-end q s.cs_replacement.next_element index p.distinct away;
    }

refresh-IsPolicyOf :
    (s : PitCsTree) (index d : ℕ)
    → IsPolicyOf s
    → Assoc.get ℕ_discrete index s.cs_map ≡ some d
    → IsPolicyOf (refresh index s)
unfolding refresh before_use push_back
refresh-IsPolicyOf s index d p found =
    let l = s.cs_replacement in
    let valid = (before_use-recency index l p.policy).0 in
    elim (Option-cases (location l index)) [
      | inl n ↦ record {
        policy = valid;
        listed =
            rw (before_use, n)
              (All-end (IsIndex s) l.queue (l.next_element, index) p.listed (d, found));
        distinct =
            rw (before_use, n)
              (Distinct-end l.queue l.next_element index p.distinct
                (not_located index l p.policy n));
      }
      | inr (e, m) ↦ record {
        policy = valid;
        listed =
            rw (before_use, m)
              (All-end (IsIndex s) (remove_element e l.queue) (l.next_element, index)
                (remove_element_keeps (IsIndex s) e l.queue p.listed) (d, found));
        distinct =
            rw (before_use, m)
              (Distinct-end (remove_element e l.queue) l.next_element index
                (Distinct-remove_element e l.queue p.distinct)
                (without-Absent index e l p.policy m));
      }
    ]

renew_data-IsPolicyOf :
    (s : PitCsTree) (index d stale_time : ℕ) (packet : PendingPacket Data)
    → IsPolicyOf s
    → Assoc.get ℕ_discrete index s.cs_map ≡ some d
    → IsPolicyOf (renew_data s index d stale_time packet)
unfolding renew_data
renew_data-IsPolicyOf s index d stale_time packet p found = elim (Option-cases (cs_entry s d)) [
  | inl nothing ↦ rw (renew_data, nothing) p
  | inr (x, stored) ↦
      let renewed : NameTreeCsEntry = record x { enc_data = packet; stale_time = stale_time } in
      let written : PitCsTree = record s {
        cs_entries = Assoc.put ℕ_discrete d renewed s.cs_entries;
      } in
      rw (renew_data, stored)
        (refresh-IsPolicyOf written index d
          (record { policy = p.policy; listed = p.listed; distinct = p.distinct }) found)
]

-- `InsertData` keeps the policy in step with the store, whatever it evicts.
pub insert_data-IsPolicyOf :
    (component_hash : Component → ℕ) (name_hash : Name → ℕ) (capacity now : ℕ) (s : PitCsTree)
    (packet : PendingPacket Data)
    → IsPolicyOf s
    → IsPolicyOf (insert_data component_hash name_hash capacity now s packet)
unfolding insert_data
insert_data-IsPolicyOf component_hash name_hash capacity now s packet p =
    let index = name_hash packet.packet.name in
    let stale_time = now + freshness packet.packet.freshness_period in
    elim (Option-cases (Assoc.get ℕ_discrete index s.cs_map)) [
      | inl absent ↦
          rw (insert_data, absent)
            (evict-IsPolicyOf capacity (add_data component_hash s index stale_time packet)
              (add_data-IsPolicyOf component_hash s index stale_time packet p absent))
      | inr (d, found) ↦
          rw (insert_data, found) (renew_data-IsPolicyOf s index d stale_time packet p found)
    ]

pub new_pit_cs-IsPolicyOf : IsPolicyOf new_pit_cs
unfolding new_pit_cs new_cs_lru
new_pit_cs-IsPolicyOf = record { policy = new_cs_lru-IsValid; listed = tt; distinct = tt }
