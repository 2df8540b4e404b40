-- ===== src/PitCs/Tests.antt =====
-- Runs of the table on two Interests and a Data packet, and its theorems at them.
use native.Mathlib.Decide.{ℕ_discrete}
use ya_nfd.Prelude.{
  ℕ, ◌+◌, ◌*◌, ◌%◌, ◌^◌, ◌≡◌, ◌∙◌, ◌⊎◌, ap, sym, inl, inr, refl, Bool, true, false, Option, none,
  some, [], ◌∷◌, length, ◌==◌, if◌then◌else◌, arith,
}
use ya_nfd.Prelude.Assoc
use ya_nfd.Name.{same_name}
use ya_nfd.Packets.{Component, Name, Interest, Data, PendingPacket}
use ya_nfd.Heap
use ya_nfd.Heap.{key, up, up_loop, down, down_loop, swap, smaller_child}
use ya_nfd.PriorityQueue
use ya_nfd.PriorityQueue.Order.{IsOrdered}
use ya_nfd.CsLru.{
  new_cs_lru, push_back, after_insert, before_use, remove_element, evict_from, evict_entries,
}
use ya_nfd.PitCs.{NameTreeCsEntry, PitCsTree, new_pit_cs, pit_entry, path}
use ya_nfd.PitCs.Tree.{
  find_exact_match_entry, find_longest_prefix_entry, new_path, fill_tree_to_prefix, write_slot,
  prune_if_empty, is_empty, holds_nothing, delete_child,
}
use ya_nfd.PitCs.Tree.Slots.{slot}
use ya_nfd.PitCs.Interests.{
  same_bool, same_hint, matches, find_first, generate_new_pit_token, is_looping, settle, new_entry,
  add_entry, insert_interest, index_of, remove_at, remove_interest, satisfied_by, match_up,
  find_interest_prefix_match_by_name, find_interest_prefix_match_by_data, find_interest_exact_match,
  update_pit_expiry, is_due, expire_front, update_loop, update,
}
use ya_nfd.PitCs.Interests.Prefixes.{below, find_interest_prefix_match_by_name-below}
use ya_nfd.PitCs.Interests.Validity.{IsValid, new_pit_cs-IsValid, IsValid-IsSame}
use ya_nfd.PitCs.Interests.Aggregation.{IsInserted, insert_interest-IsInserted}
use ya_nfd.PitCs.Interests.Remove.{IsRemoved, remove_interest-IsRemoved}
use ya_nfd.PitCs.Interests.Expiry.{IsSwept, update-IsSwept, update_pit_expiry-IsSame}
use ya_nfd.PitCs.Content.{
  erase_cs_data, refresh, evict, add_data, renew_data, insert_data, acceptable,
  find_matching_data_cs_prefix, find_matching_data_from_cs,
}
use ya_nfd.PitCs.Content.Search.{
  subtree, first_acceptable, find_matching_data_cs_prefix-first_acceptable,
}
use ya_nfd.PitCs.Content.Store.{IsHolding, new_pit_cs-IsHolding}
use ya_nfd.PitCs.Content.Insert.{insert_data-IsHolding}
use ya_nfd.PitCs.Content.Policy.{IsPolicyOf, new_pit_cs-IsPolicyOf, insert_data-IsPolicyOf}
use ya_nfd.PitCs.Content.Found.{find_matching_data_from_cs-insert_data}
use ya_nfd.PitCs.Interests.Queueing.{IsQueued, update_pit_expiry-IsQueued}

component_discrete : Discrete Component
unfolding ℕ_discrete
component_discrete = hlevel ℕ_discrete

-- A hash that tells the type of generic components from the others.
abbrev component_hash : Component → ℕ
component_hash c = if c.typ == 8 then 1 else 2

abbrev name_hash : Name → ℕ
name_hash [] = 0
name_hash (c ∷ n) = (component_hash c + 3 * name_hash n) % 2 ^ 64

abbrev short_name : Name
short_name = record { typ = 8; val = 97 ∷ [] } ∷ []

abbrev long_name : Name
long_name = record { typ = 8; val = 97 ∷ [] } ∷ record { typ = 54; val = 1 ∷ [] } ∷ []

-- The names in use.
abbrev IsUsed : Name → Type 0
IsUsed n = (n ≡ short_name) ⊎ (n ≡ long_name)

to_path :
    (n m : Name)
    → IsUsed n
    → IsUsed m
    → name_hash n ≡ name_hash m
    → path component_hash n ≡ path component_hash m
to_path n m (inl a) (inl b) h = ap (path component_hash) (a ∙ sym b)
to_path n m (inl a) (inr b) h =
    let apart : Path ℕ 1 7 = sym (ap name_hash a) ∙ h ∙ ap name_hash b in absurd (omega arith)
to_path n m (inr a) (inl b) h =
    let apart : Path ℕ 7 1 = sym (ap name_hash a) ∙ h ∙ ap name_hash b in absurd (omega arith)
to_path n m (inr a) (inr b) h = ap (path component_hash) (a ∙ sym b)

to_hash :
    (n m : Name)
    → IsUsed n
    → IsUsed m
    → path component_hash n ≡ path component_hash m
    → name_hash n ≡ name_hash m
to_hash n m (inl a) (inl b) h = ap name_hash (a ∙ sym b)
to_hash n m (inl a) (inr b) h =
    let paths = sym (ap (path component_hash) a) ∙ h ∙ ap (path component_hash) b in
    let apart : Path ℕ 1 2 = ap length paths in absurd (omega arith)
to_hash n m (inr a) (inl b) h =
    let paths = sym (ap (path component_hash) a) ∙ h ∙ ap (path component_hash) b in
    let apart : Path ℕ 2 1 = ap length paths in absurd (omega arith)
to_hash n m (inr a) (inr b) h = ap name_hash (a ∙ sym b)

abbrev interest_in : Name → Bool → PendingPacket Interest
interest_in name prefix = record {
  pit_token = [];
  incoming_face_id = some 2;
  next_hop_face_id = none;
  name_cache = [];
  packet = record {
    name = name;
    can_be_prefix = prefix;
    must_be_fresh = true;
    nonce = some 77;
    hop_limit = none;
    forwarding_hint = none;
  };
}

abbrev content_of : Name → PendingPacket Data
content_of name = record {
  pit_token = [];
  incoming_face_id = some 1;
  next_hop_face_id = none;
  name_cache = [];
  packet = record { name = name; freshness_period = some 500 };
}

abbrev content : PendingPacket Data
content = content_of long_name

abbrev or_new : Option (PitCsTree × (ℕ × Bool)) → PitCsTree
or_new none = new_pit_cs
or_new (some (s, r)) = s

-- An Interest for /a that can be a prefix, and one for a name below it.
abbrev one_interest : PitCsTree
one_interest = or_new (
    insert_interest component_discrete component_hash (5 ∷ []) new_pit_cs
      (interest_in short_name true) none 2)

abbrev two_interests : PitCsTree
two_interests =
    update_pit_expiry
      (or_new (
        insert_interest component_discrete component_hash (5 ∷ 6 ∷ []) one_interest
          (interest_in long_name false) none 2))
      1

program : Unit {0}
unfolding component_discrete ℕ_discrete Assoc.get Assoc.put Assoc.delete same_name new_pit_cs
    pit_entry find_exact_match_entry find_longest_prefix_entry new_path fill_tree_to_prefix
    write_slot prune_if_empty is_empty holds_nothing delete_child slot same_bool same_hint matches
    find_first generate_new_pit_token is_looping settle new_entry add_entry insert_interest index_of
    remove_at remove_interest satisfied_by match_up find_interest_prefix_match_by_name
    find_interest_prefix_match_by_data find_interest_exact_match update_pit_expiry is_due
    expire_front update_loop update erase_cs_data refresh evict add_data renew_data insert_data
    acceptable find_matching_data_cs_prefix find_matching_data_from_cs new_cs_lru push_back
    after_insert before_use remove_element evict_from evict_entries PriorityQueue.push
    PriorityQueue.pop PriorityQueue.peek_priority PriorityQueue.update Heap.push Heap.pop key up
    up_loop down down_loop swap smaller_child
program = tt

both_found :
    find_interest_prefix_match_by_data component_hash two_interests content none ≡ 1 ∷ 0 ∷ []
unfolding program
both_found = refl

one_left :
    find_interest_prefix_match_by_data component_hash
      (remove_interest two_interests 1).0
      content
      none
    ≡ 0 ∷ []
unfolding program
one_left = refl

by_token : find_interest_prefix_match_by_data component_hash two_interests content (some 6) ≡ 1 ∷ []
unfolding program
by_token = refl

one_expired : (update (λ j. 10) two_interests).1 ≡ 1 ∷ []
unfolding program
one_expired = refl

first_drawn : generate_new_pit_token (5 ∷ []) new_pit_cs.pit_token_map ≡ some 5
unfolding program
first_drawn = refl

second_drawn : generate_new_pit_token (5 ∷ 6 ∷ []) one_interest.pit_token_map ≡ some 6
unfolding program
second_drawn = refl

one_interest-IsValid : IsValid one_interest
one_interest-IsValid =
    let (s, e, dup, eq, r) =
      insert_interest-IsInserted component_discrete component_hash (5 ∷ []) new_pit_cs
        (interest_in short_name true) none 2 5 new_pit_cs-IsValid first_drawn in
    rw eq r.valid

two_interests-IsValid : IsValid two_interests
two_interests-IsValid =
    let (s, e, dup, eq, r) =
      insert_interest-IsInserted component_discrete component_hash (5 ∷ 6 ∷ []) one_interest
        (interest_in long_name false) none 2 6 one_interest-IsValid second_drawn in
    IsValid-IsSame
      (or_new (
        insert_interest component_discrete component_hash (5 ∷ 6 ∷ []) one_interest
          (interest_in long_name false) none 2))
      two_interests
      (update_pit_expiry-IsSame
        (or_new (
          insert_interest component_discrete component_hash (5 ∷ 6 ∷ []) one_interest
            (interest_in long_name false) none 2))
        1)
      (rw eq r.valid)

one_interest-IsOrdered : IsOrdered one_interest.pit_expiry_queue
unfolding program
one_interest-IsOrdered c p q = absurd (omega arith)

not_queued : (pit_entry one_interest 0).queue_index ≡ none
unfolding program
not_queued = refl

two_interests-IsOrdered : IsOrdered two_interests.pit_expiry_queue
unfolding program
two_interests-IsOrdered c p q = absurd (omega arith)

insert_interest-IsInserted_example :
    (s' : PitCsTree) × (e : ℕ) × (dup : Bool) × (insert_interest component_discrete component_hash
        (5 ∷ 6 ∷ [])
        one_interest
        (interest_in long_name false)
        none
        2
      ≡ some (s', (e, dup)))
    × IsInserted component_discrete component_hash one_interest
        (interest_in long_name false).packet
        none
        2
        s'
        e
        dup
insert_interest-IsInserted_example =
    insert_interest-IsInserted component_discrete component_hash (5 ∷ 6 ∷ []) one_interest
      (interest_in long_name false) none 2 6 one_interest-IsValid second_drawn

remove_interest-IsRemoved_example :
    IsRemoved two_interests 1
      (remove_interest two_interests 1).0
      (remove_interest two_interests 1).1
remove_interest-IsRemoved_example = remove_interest-IsRemoved two_interests 1 two_interests-IsValid

find_interest_prefix_match_by_name-below_example :
    find_interest_prefix_match_by_name component_hash two_interests long_name
    ≡ below two_interests (slot two_interests.root) (path component_hash long_name)
find_interest_prefix_match_by_name-below_example =
    find_interest_prefix_match_by_name-below component_hash two_interests long_name

update-IsSwept_example :
    IsSwept two_interests
      (update (λ j. 10) two_interests).0
      (update (λ j. 10) two_interests).1
      10
      10
update-IsSwept_example =
    update-IsSwept (λ j. 10) 10 10 two_interests (λ j. (omega arith, omega arith))
      two_interests-IsValid two_interests-IsOrdered

update_pit_expiry-IsQueued_example : IsQueued one_interest (update_pit_expiry one_interest 0) 0
update_pit_expiry-IsQueued_example =
    update_pit_expiry-IsQueued one_interest 0 one_interest-IsOrdered (inl not_queued)

-- A table that holds the Data, and no more.
abbrev with_content : PitCsTree
with_content = insert_data component_hash name_hash 1 100 new_pit_cs content

with_content-IsHolding : IsHolding component_hash name_hash IsUsed with_content
with_content-IsHolding =
    insert_data-IsHolding component_hash name_hash IsUsed to_path to_hash 1 100 new_pit_cs content
      (new_pit_cs-IsHolding component_hash name_hash IsUsed) (inr refl)

with_content-IsPolicyOf : IsPolicyOf with_content
with_content-IsPolicyOf =
    insert_data-IsPolicyOf component_hash name_hash 1 100 new_pit_cs content new_pit_cs-IsPolicyOf

insert_data-IsHolding_example :
    IsHolding component_hash name_hash IsUsed
      (insert_data component_hash name_hash 1 200 with_content (content_of short_name))
insert_data-IsHolding_example =
    insert_data-IsHolding component_hash name_hash IsUsed to_path to_hash 1 200 with_content
      (content_of short_name) with_content-IsHolding (inl refl)

-- The packet that was there is evicted.
find_matching_data_from_cs-insert_data_example :
    (x : NameTreeCsEntry) × ((find_matching_data_from_cs component_hash 600
        (insert_data component_hash name_hash 1 200 with_content (content_of short_name))
        (interest_in short_name true)).1
      ≡ some x)
    × (x.enc_data ≡ content_of short_name)
find_matching_data_from_cs-insert_data_example =
    find_matching_data_from_cs-insert_data component_hash name_hash IsUsed to_hash to_path 1 200 600
      with_content (content_of short_name) (interest_in short_name true) with_content-IsHolding
      (inl refl) with_content-IsPolicyOf (omega arith) refl refl

evicted :
    (find_matching_data_from_cs component_hash 600
      (insert_data component_hash name_hash 1 200 with_content (content_of short_name))
      (interest_in long_name true)).1
    ≡ none
unfolding program
evicted = refl

find_matching_data_cs_prefix-first_acceptable_example :
    find_matching_data_cs_prefix with_content 600 (interest_in [] true).packet 0 with_content.root
    ≡ first_acceptable with_content 600 (interest_in [] true).packet (subtree with_content.root)
find_matching_data_cs_prefix-first_acceptable_example =
    find_matching_data_cs_prefix-first_acceptable with_content 600 (interest_in [] true).packet 0
      with_content.root (omega arith)
