-- ===== src/Fw/Hints.antt =====
-- The name that an Interest is forwarded by: the loop over its forwarding hint in fw/thread.go.
use ya_nfd.Prelude.{
  ◌≡◌, refl, Bool, true, false, Option, none, some, List, [], ◌∷◌, if◌then◌else◌, arith,
}
use ya_nfd.Packets.{Name}
use ya_nfd.Fw.Incoming.{hint_name, forwarding_name}

-- Whether one of some names reaches a producer.
unfoldable pub any_producer : (Name → Bool) → List Name → Bool
any_producer is_producer [] = false
any_producer is_producer (n ∷ ns) =
    let rest = any_producer is_producer ns in if is_producer n then true else rest

unfoldable pub first_name : List Name → Option Name
first_name [] = none
first_name (n ∷ ns) = some n

hint_name-kept :
    (is_producer : Name → Bool) (kept : Name) (ns : List Name)
    → hint_name is_producer (some kept) ns
      ≡ (if any_producer is_producer ns then none else some kept)
unfolding hint_name any_producer
hint_name-kept is_producer kept [] = refl
hint_name-kept is_producer kept (n ∷ ns) = ground (arith, hint_name-kept is_producer kept ns)

-- The next hops of an Interest with a forwarding hint are looked up by the first name of the hint, or by
-- the Interest's own name, none here, where some name of the hint is of this region or there is no name.
pub forwarding_name-first_name :
    (is_producer : Name → Bool) (ns : List Name)
    → forwarding_name is_producer (some ns)
      ≡ (if any_producer is_producer ns then none else first_name ns)
unfolding forwarding_name hint_name any_producer first_name
forwarding_name-first_name is_producer [] = refl
forwarding_name-first_name is_producer (n ∷ ns) = ground (arith, hint_name-kept is_producer n ns)
