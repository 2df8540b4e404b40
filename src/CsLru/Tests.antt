-- ===== src/CsLru/Tests.antt =====
-- A queue of three entries, the first of which is used again.
use native.Mathlib.Decide.{ℕ_discrete}
use ya_nfd.Prelude.{
  ℕ, ◌≤◌, ◌-◌, ◌≡◌, ◌≢◌, refl, List, [], ◌∷◌, ◌++◌, length, take, drop, All, arith,
}
use ya_nfd.Prelude.Assoc
use ya_nfd.CsLru.{
  CsLru, new_cs_lru, remove_element, push_back, after_insert, before_use, before_erase, evict_from,
  evict_entries,
}
use ya_nfd.CsLru.Recency.{
  new_cs_lru-IsValid, recency, erase, IsValid, after_insert-recency, before_use-recency,
  before_erase-recency,
}
use ya_nfd.CsLru.Eviction.{erase_each, evict_entries-recency}

abbrev three : CsLru
three = after_insert 30 (after_insert 20 (after_insert 10 new_cs_lru))

program : Unit {0}
unfolding new_cs_lru remove_element push_back after_insert before_use before_erase evict_from
    evict_entries erase Assoc.get Assoc.put Assoc.delete ℕ_discrete
program = tt

used : recency (before_use 10 three) ≡ 20 ∷ 30 ∷ 10 ∷ []
unfolding program
used = refl

evicted :
    recency (evict_entries (λ i (s : List ℕ). i ∷ s) 2 (before_use 10 three) []).0 ≡ 30 ∷ 10 ∷ []
unfolding program
evicted = refl

two_absent : All (λ x. x.1 ≢ 20) (after_insert 10 new_cs_lru).queue
unfolding program
two_absent = (λ h. omega arith, tt)

three_absent : All (λ x. x.1 ≢ 30) (after_insert 20 (after_insert 10 new_cs_lru)).queue
unfolding program
three_absent = (λ h. omega arith, (λ h. omega arith, tt))

one_absent : All (λ x. x.1 ≢ 10) new_cs_lru.queue
unfolding program
one_absent = tt

three-IsValid : IsValid three
three-IsValid =
    (after_insert-recency 30 (after_insert 20 (after_insert 10 new_cs_lru))
      (after_insert-recency 20 (after_insert 10 new_cs_lru)
        (after_insert-recency 10 new_cs_lru new_cs_lru-IsValid one_absent).0 two_absent).0
      three_absent).0

before_use-recency_example :
    IsValid (before_use 10 three)
    × (recency (before_use 10 three) ≡ erase 10 (recency three) ++ (10 ∷ []))
before_use-recency_example = before_use-recency 10 three three-IsValid

before_erase-recency_example :
    IsValid (before_erase 20 three) × (recency (before_erase 20 three) ≡ erase 20 (recency three))
before_erase-recency_example = before_erase-recency 20 three three-IsValid

abbrev note_erased : ℕ → List ℕ → List ℕ
note_erased i s = i ∷ s

evict_entries-recency_example :
    IsValid (evict_entries note_erased 2 three []).0
    × (recency (evict_entries note_erased 2 three []).0
        ≡ drop (length (recency three) - 2) (recency three))
    × (length (recency (evict_entries note_erased 2 three []).0) ≤ 2)
    × ((evict_entries note_erased 2 three []).1
        ≡ erase_each note_erased (take (length (recency three) - 2) (recency three)) [])
evict_entries-recency_example = evict_entries-recency note_erased 2 three [] three-IsValid
