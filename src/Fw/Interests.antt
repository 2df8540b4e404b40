-- ===== src/Fw/Interests.antt =====
-- Which next hops the two strategies of fw send an Interest to.
use ya_nfd.Prelude.{
  ℕ, ◌≤◌, ◌≡◌, refl, sym, ◌∙◌, ◌⊎◌, inl, inr, Bool, true, false, not, ◌&&◌, none, some, List, [],
  ◌∷◌, ◌++◌, append_assoc, append-nil, map, All, ◌==◌, if◌then◌else◌, arith, Bool-cases, true≢false,
}
use ya_nfd.Packets.{Interest, PendingPacket, is_ad_hoc, is_non_local}
use ya_nfd.Pit.{insert_out_record}
use ya_nfd.Fib.Hops.{NextHop}
use ya_nfd.Fw.Tables.{PitCsTable, IsPitCsTable, Strategy, Environment, IsSorting, Sorted}
use ya_nfd.Fw.Thread.{
  Thread, stamp, out_of_hops, process_outgoing_interest, send_first, send_each,
  after_receive_interest,
}

-- A next hop that may take the Interest: its face exists, is not the one that the Interest came
-- from unless it is ad hoc, and is local where no hop is left.
unfoldable pub usable : Environment → PendingPacket Interest → ℕ → NextHop → Bool
usable env p in_face h = elim (env.get_face h.nexthop) [
  | none ↦ false
  | some out ↦
      not ((out.face_id == in_face) && not (is_ad_hoc out.link_type))
      && not (out_of_hops p.packet.hop_limit && is_non_local out.scope)
]

-- The usable ones of some next hops, in their order.
unfoldable pub usable_hops : Environment → PendingPacket Interest → ℕ → List NextHop → List NextHop
usable_hops env p in_face [] = []
usable_hops env p in_face (h ∷ hs) =
    let rest = usable_hops env p in_face hs in if usable env p in_face h then h ∷ rest else rest

unfoldable pub cut_to_one : List NextHop → List NextHop
cut_to_one [] = []
cut_to_one (h ∷ hs) = h ∷ []

module _ {S D : Type 0} (table : PitCsTable S) (env : Environment) where
  -- What is handed to the faces of some hops.
  abbrev pub sent_to :
      Thread S D → PendingPacket Interest → ℕ → ℕ → List NextHop → List (ℕ × PendingPacket Interest)
  sent_to t p e in_face hs =
      map (λ h. (h.nexthop, stamp env.thread_id (table.entry t.pit_cs e).token in_face p)) hs

module _ {S D : Type 0} (table : PitCsTable S) (laws : IsPitCsTable table) (env : Environment)
    (p : PendingPacket Interest) (nonce e in_face : ℕ) where
  outgoing-usable :
      (t : Thread S D) (h : NextHop)
      → (process_outgoing_interest table env t p nonce e h.nexthop in_face).0
        ≡ usable env p in_face h
  unfolding process_outgoing_interest usable
  outgoing-usable t h = ground arith

  outgoing-sent :
      (t : Thread S D) (h : NextHop)
      → (process_outgoing_interest table env t p nonce e h.nexthop in_face).1.sent_interests
        ≡ t.sent_interests ++ sent_to table env t p e in_face (usable_hops env p in_face (h ∷ []))
  unfolding process_outgoing_interest usable usable_hops insert_out_record
  outgoing-sent t h = ground (arith, append-nil t.sent_interests)

  outgoing-token :
      (t : Thread S D) (h : NextHop)
      → (table.entry
          (process_outgoing_interest table env t p nonce e h.nexthop in_face).1.pit_cs
          e).token
        ≡ (table.entry t.pit_cs e).token
  unfolding process_outgoing_interest insert_out_record
  outgoing-token t h = ground (
    arith,
    laws.entry-set_entry t.pit_cs e
        (insert_out_record (table.entry t.pit_cs e) env.now p nonce h.nexthop),
  )

  sent_to-eq :
      (t t' : Thread S D)
      → (table.entry t'.pit_cs e).token ≡ (table.entry t.pit_cs e).token
      → (hs : List NextHop)
      → sent_to table env t' p e in_face hs ≡ sent_to table env t p e in_face hs
  sent_to-eq t t' h hs = rw h

  unusable :
      (t : Thread S D) (h : NextHop)
      → usable env p in_face h ≡ false
      → (process_outgoing_interest table env t p nonce e h.nexthop in_face).1 ≡ t
  unfolding process_outgoing_interest usable
  unusable t h u = ground arith

  pub send_each_sent :
      (t : Thread S D) (hs : List NextHop)
      → (send_each table env t p nonce e in_face hs).sent_interests
        ≡ t.sent_interests ++ sent_to table env t p e in_face (usable_hops env p in_face hs)
  unfolding send_each usable_hops
  send_each_sent t [] = sym (append-nil t.sent_interests)
  send_each_sent t (h ∷ hs) =
      let t' = (process_outgoing_interest table env t p nonce e h.nexthop in_face).1 in
      let step = outgoing-sent t h in
      let rest = send_each_sent t' hs in
      let same = sent_to-eq t t' (outgoing-token t h) (usable_hops env p in_face hs) in
      elim (Bool-cases (usable env p in_face h)) [
        | inl u ↦ rw (rest, same, step, u, append_assoc)
        | inr u ↦ rw (rest, same, step, u, append-nil)
      ]

  pub send_first_sent :
      (t : Thread S D) (hs : List NextHop)
      → (send_first table env t p nonce e in_face hs).sent_interests
        ≡ t.sent_interests
          ++ sent_to table env t p e in_face (cut_to_one (usable_hops env p in_face hs))
  unfolding send_first usable_hops cut_to_one
  send_first_sent t [] = sym (append-nil t.sent_interests)
  send_first_sent t (h ∷ hs) =
      ground (arith, outgoing-usable t h, outgoing-sent t h, unusable t h, send_first_sent t hs)

-- The cheapest usable hop of some: one of them, usable, and no usable one costs less.
pub record IsCheapest (env : Environment) (p : PendingPacket Interest) (in_face : ℕ)
    (hops : List NextHop) (h : NextHop) : Type 1 where
  pub member : (P : NextHop → Type 0) → All P hops → P h
  pub is_usable : usable env p in_face h ≡ true
  pub cheapest : All (λ x. usable env p in_face x ≡ true → h.cost ≤ x.cost) hops

module _ (env : Environment) (p : PendingPacket Interest) (in_face : ℕ) where
  All-above :
      (h : NextHop) (hs : List NextHop)
      → All (λ x. h.cost ≤ x.cost) hs
      → All (λ x. usable env p in_face x ≡ true → h.cost ≤ x.cost) hs
  All-above h [] a = tt
  All-above h (x ∷ xs) a = (λ u. a.0, All-above h xs a.1)

  -- The first usable one of sorted hops is a cheapest one.
  first_usable :
      (hs : List NextHop)
      → Sorted hs
      → ((usable_hops env p in_face hs ≡ []) × All (λ x. usable env p in_face x ≡ false) hs)
        ⊎ ((h : NextHop) × (cut_to_one (usable_hops env p in_face hs) ≡ h ∷ [])
            × IsCheapest env p in_face hs h)
  unfolding usable_hops cut_to_one
  first_usable [] s = inl (refl, tt)
  first_usable (h ∷ hs) s = elim (Bool-cases (usable env p in_face h)) [
    | inl u ↦ inr (
      h,
      rw u,
      record {
        member = λ P a. a.0;
        is_usable = u;
        cheapest = (λ v. omega arith, All-above h hs s.0);
      },
    )
    | inr u ↦ elim (first_usable hs s.1) [
      | inl (e, a) ↦ inl (rw (u, e), (u, a))
      | inr (k, e, c) ↦ inr (
        k,
        rw (u, e),
        record {
          member = λ P a. c.member P a.1;
          is_usable = c.is_usable;
          cheapest = (λ v. absurd (true≢false (sym v ∙ u)), c.cheapest);
        },
      )
    ]
  ]

module _ {S D : Type 0} (table : PitCsTable S) (laws : IsPitCsTable table) (env : Environment)
    (t : Thread S D) (p : PendingPacket Interest) (nonce e in_face : ℕ) (hops : List NextHop) where
  -- The multicast strategy sends the Interest to every usable next hop, in their order, and to no other.
  pub multicast-usable_hops :
      (after_receive_interest table env Strategy.multicast t p nonce e in_face hops).sent_interests
      ≡ t.sent_interests ++ sent_to table env t p e in_face (usable_hops env p in_face hops)
  unfolding after_receive_interest
  multicast-usable_hops = send_each_sent table laws env p nonce e in_face t hops

  -- The best-route strategy, with a sort of next hops by cost, sends the Interest to one cheapest
  -- usable next hop, or to none where none is usable.
  pub best_route-IsCheapest :
      IsSorting env.sort_hops
      → ((after_receive_interest table env Strategy.best_route t p nonce e in_face
              hops).sent_interests
            ≡ t.sent_interests
          × All (λ x. usable env p in_face x ≡ false) hops)
        ⊎ ((h : NextHop) × ((after_receive_interest table env Strategy.best_route t p nonce e
                in_face hops).sent_interests
              ≡ t.sent_interests ++ sent_to table env t p e in_face (h ∷ []))
            × IsCheapest env p in_face hops h)
  unfolding after_receive_interest cut_to_one
  best_route-IsCheapest sorting =
      let sorted = env.sort_hops hops in
      let sent = send_first_sent table laws env p nonce e in_face t sorted in
      elim (first_usable env p in_face sorted (sorting.sorts hops)) [
        | inl (n, a) ↦
            inl
              (rw (sent, n, append-nil), sorting.kept (λ x. usable env p in_face x ≡ false) hops a)
        | inr (h, c, best) ↦ inr (
          h,
          rw (sent, c),
          record {
            member = λ P a. best.member P (sorting.keeps P hops a);
            is_usable = best.is_usable;
            cheapest =
                sorting.kept (λ x. usable env p in_face x ≡ true → h.cost ≤ x.cost) hops
                  best.cheapest;
          },
        )
      ]
