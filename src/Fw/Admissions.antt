-- ===== src/Fw/Admissions.antt =====
-- What an incoming Interest makes the thread send: fw/thread.go, processIncomingInterest.
use native.Mathlib.Decide.{ℕ_discrete}
use ya_nfd.Prelude.{
  ℕ, zero, suc, ◌-◌, ◌≡◌, ◌≢◌, refl, ap, ◌∙◌, inl, inr, true, false, not, ◌&&◌, Option, none, some,
  List, [], ◌∷◌, All, Extends, Extends-refl, arith, Bool-cases, Option-cases,
}
use ya_nfd.Prelude.Assoc
use ya_nfd.Packets.{
  Name, Interest, Data, PendingPacket, Face, violates_scope, is_non_local, is_ad_hoc,
}
use ya_nfd.Pit.{find, insert_in_record}
use ya_nfd.Fib.Hops.{NextHop}
use ya_nfd.Fw.Tables.{PitCsTable, IsPitCsTable, DeadNonceList, Strategy, Environment}
use ya_nfd.Fw.Thread.{
  Thread, count, stamp, out_of_hops, process_outgoing_interest, process_outgoing_data, send_first,
  send_each, send_data, after_receive_interest, after_content_store_hit,
}
use ya_nfd.Fw.Incoming.{
  decrement, forward_interest, pend_interest, admit_interest, process_incoming_interest,
  forwarding_name,
}
use ya_nfd.Fw.Interests.{usable, usable_hops, cut_to_one, sent_to, send_each_sent, send_first_sent}
use ya_nfd.Fw.Scopes.{InScope, after_content_store_hit-Adds}

-- An Interest that went to a usable face, with the fields of the one at hand.
abbrev pub WentTo : Environment → PendingPacket Interest → ℕ → ℕ × PendingPacket Interest → Type 0
WentTo env p in_face (f, q) =
    (usable env p in_face (record { nexthop = f; cost = 0 }) ≡ true) × (q.packet ≡ p.packet)

module _ {S D : Type 0} (table : PitCsTable S) (laws : IsPitCsTable table) (env : Environment) where
  module _ (p : PendingPacket Interest) (in_face : ℕ) where
    usable_hops-WentTo :
        (t : Thread S D) (e : ℕ) (hs : List NextHop)
        → All
            (WentTo env p in_face)
            (sent_to table env t p e in_face (usable_hops env p in_face hs))
    unfolding usable_hops usable stamp
    usable_hops-WentTo t e [] = tt
    usable_hops-WentTo t e (h ∷ hs) = elim (Bool-cases (usable env p in_face h)) [
      | inl u ↦ rw u ((u, refl), usable_hops-WentTo t e hs)
      | inr u ↦ rw u (usable_hops-WentTo t e hs)
    ]

    cut_to_one-WentTo :
        (t : Thread S D) (e : ℕ) (hs : List NextHop)
        → All (WentTo env p in_face) (sent_to table env t p e in_face hs)
        → All (WentTo env p in_face) (sent_to table env t p e in_face (cut_to_one hs))
    unfolding cut_to_one
    cut_to_one-WentTo t e [] a = tt
    cut_to_one-WentTo t e (h ∷ hs) a = (a.0, tt)

    after_receive_interest-Extends :
        (s : Strategy) (t : Thread S D) (nonce e : ℕ) (hops : List NextHop)
        → Extends
            (WentTo env p in_face)
            t.sent_interests
            (after_receive_interest table env s t p nonce e in_face hops).sent_interests
    unfolding after_receive_interest
    after_receive_interest-Extends Strategy.best_route t nonce e hops =
        let sorted = env.sort_hops hops in
        (
          _,
          send_first_sent table laws env p nonce e in_face t sorted,
          cut_to_one-WentTo t e _ (usable_hops-WentTo t e sorted),
        )
    after_receive_interest-Extends Strategy.multicast t nonce e hops =
        (_, send_each_sent table laws env p nonce e in_face t hops, usable_hops-WentTo t e hops)

  module _ (p : PendingPacket Interest) (nonce e in_face : ℕ) where
    outgoing_interest_datas :
        (t : Thread S D) (h : ℕ)
        → (process_outgoing_interest table env t p nonce e h in_face).1.sent_datas ≡ t.sent_datas
    unfolding process_outgoing_interest
    outgoing_interest_datas t h = ground arith

    send_first_datas :
        (t : Thread S D) (hs : List NextHop)
        → (send_first table env t p nonce e in_face hs).sent_datas ≡ t.sent_datas
    unfolding send_first
    send_first_datas t [] = refl
    send_first_datas t (h ∷ hs) =
        let t' = (process_outgoing_interest table env t p nonce e h.nexthop in_face).1 in
        ground (arith, outgoing_interest_datas t h.nexthop, send_first_datas t' hs)

    send_each_datas :
        (t : Thread S D) (hs : List NextHop)
        → (send_each table env t p nonce e in_face hs).sent_datas ≡ t.sent_datas
    unfolding send_each
    send_each_datas t [] = refl
    send_each_datas t (h ∷ hs) =
        let t' = (process_outgoing_interest table env t p nonce e h.nexthop in_face).1 in
        send_each_datas t' hs ∙ outgoing_interest_datas t h.nexthop

    after_receive_interest_datas :
        (s : Strategy) (t : Thread S D) (hops : List NextHop)
        → (after_receive_interest table env s t p nonce e in_face hops).sent_datas ≡ t.sent_datas
    unfolding after_receive_interest
    after_receive_interest_datas Strategy.best_route t hops =
        send_first_datas t (env.sort_hops hops)
    after_receive_interest_datas Strategy.multicast t hops = send_each_datas t hops

  outgoing_data_interests :
      (t : Thread S D) (p : PendingPacket Data) (f : ℕ) (token : List ℕ) (in_face : ℕ)
      → (process_outgoing_data table env t p f token in_face).0.sent_interests ≡ t.sent_interests
  unfolding process_outgoing_data
  outgoing_data_interests t p f token in_face = ground arith

  send_data_interests :
      (t : Thread S D) (p : PendingPacket Data) (e f in_face : ℕ)
      → (send_data table env t p e f in_face).0.sent_interests ≡ t.sent_interests
  unfolding send_data
  send_data_interests t p e f in_face =
      elim (Option-cases (find f (table.entry t.pit_cs e).in_records)) [
        | inl n ↦ rw (n, send_data) (outgoing_data_interests t p f [] in_face)
        | inr (r, o) ↦
            rw (o, send_data)
              (outgoing_data_interests (record t { pit_cs = _ }) p f r.pit_token in_face)
      ]

  hit_interests :
      (s : Strategy) (t : Thread S D) (p : PendingPacket Data) (e in_face : ℕ)
      → (after_content_store_hit table env s t p e in_face).sent_interests ≡ t.sent_interests
  unfolding after_content_store_hit
  hit_interests Strategy.best_route t p e in_face = send_data_interests t p e in_face 0
  hit_interests Strategy.multicast t p e in_face = send_data_interests t p e in_face 0

module _ {S D : Type 0} (table : PitCsTable S) (laws : IsPitCsTable table)
    (nonces : DeadNonceList D) (env : Environment) where
  -- A run that does not panic, whose Interests went to usable faces and whose Data is in scope.
  abbrev pub Sends : PendingPacket Interest → ℕ → Thread S D → Option (Thread S D) → Type 0
  Sends p in_face t r =
      (t' : Thread S D) × (r ≡ some t')
      × Extends (WentTo env p in_face) t.sent_interests t'.sent_interests
      × Extends (InScope env) t.sent_datas t'.sent_datas

  nothing_sent :
      (p : PendingPacket Interest) (in_face : ℕ) (t t' : Thread S D)
      → t'.sent_interests ≡ t.sent_interests
      → t'.sent_datas ≡ t.sent_datas
      → Sends p in_face t (some t')
  nothing_sent p in_face t t' i d = (
    t',
    refl,
    rw i (Extends-refl (WentTo env p in_face) t.sent_interests),
    rw d (Extends-refl (InScope env) t.sent_datas),
  )

  Sends-of_eq :
      (p : PendingPacket Interest) (in_face : ℕ) (t : Thread S D) (r r' : Option (Thread S D))
      → r ≡ r'
      → Sends p in_face t r'
      → Sends p in_face t r
  Sends-of_eq p in_face t r r' e h = rw e h

  forward_interest-Sends :
      (t : Thread S D) (p : PendingPacket Interest) (nonce e in_face : ℕ) (fh : Option Name)
      (s : Strategy)
      → p.next_hop_face_id ≡ none
      → Sends p in_face t (forward_interest table nonces env t p nonce e in_face fh (some s))
  unfolding forward_interest usable
  forward_interest-Sends t p nonce e in_face fh s n =
      rw (n, forward_interest)
        (
          _,
          refl,
          after_receive_interest-Extends table laws env p in_face s (record t { pit_cs = _ }) nonce
              e _,
          rw
              (after_receive_interest_datas table laws env p nonce e in_face s
                (record t { pit_cs = _ }) _)
              (Extends-refl (InScope env) t.sent_datas),
        )

  pend_interest-Sends :
      (t : Thread S D) (p : PendingPacket Interest) (nonce e : ℕ) (face : Face) (fh : Option Name)
      (s : Strategy)
      → p.next_hop_face_id ≡ none
      → Assoc.get ℕ_discrete (env.hash (env.find_strategy p.packet.name)) env.strategies ≡ some s
      → Sends p face.face_id t (pend_interest table nonces env t p nonce e face fh)
  unfolding pend_interest
  pend_interest-Sends t p nonce e face fh s n h =
      let found =
        insert_in_record (table.entry t.pit_cs e) env.now p nonce face.face_id p.pit_token in
      let kept = table.set_entry t.pit_cs e found.0 in
      let looked = table.find_matching_data_from_cs kept p in
      let forward =
        λ (u : S). forward_interest-Sends (record t { pit_cs = u }) p nonce e face.face_id fh s n in
      elim (Bool-cases (not found.1 && table.is_cs_serving kept)) [
        | inr b ↦ rw (pend_interest, b, h) (forward kept)
        | inl b ↦ elim (Option-cases looked.1) [
          | inl m ↦ rw (pend_interest, b, m, h) (forward looked.0)
          | inr (d, m) ↦
              rw (pend_interest, b, m, h)
                (
                  _,
                  refl,
                  rw
                      (hit_interests table laws env s (record t { pit_cs = looked.0 }) d e
                        face.face_id)
                      (Extends-refl (WentTo env p face.face_id) t.sent_interests),
                  after_content_store_hit-Adds table env s (record t { pit_cs = looked.0 }) d e
                      face.face_id,
                )
        ]
      ]

  admit_interest-Sends :
      (t : Thread S D) (p : PendingPacket Interest) (face : Face) (nonce : ℕ) (s : Strategy)
      → p.next_hop_face_id ≡ none
      → p.packet.nonce ≡ some nonce
      → Assoc.get ℕ_discrete (env.hash (env.find_strategy p.packet.name)) env.strategies ≡ some s
      → Sends p face.face_id t (admit_interest table nonces env t p face)
  unfolding admit_interest
  admit_interest-Sends t p face nonce s n k h =
      let t1 = record t { n_in_interests = count t.n_in_interests } in
      let fh = forwarding_name env.is_producer p.packet.forwarding_hint in
      let found = table.insert_interest t.pit_cs p fh face.face_id in
      let t2 = record t1 { pit_cs = found.0 } in
      let conclude = Sends-of_eq p face.face_id t (admit_interest table nonces env t p face) in
      elim (Bool-cases (nonces.find t.dead_nonce_list p.packet.name nonce)) [
        | inl d ↦ conclude (some t1) (ground arith) (nothing_sent p face.face_id t t1 refl refl)
        | inr d ↦ elim (Bool-cases found.1.1) [
          | inl u ↦ conclude (some t2) (ground arith) (nothing_sent p face.face_id t t2 refl refl)
          | inr u ↦
              conclude (pend_interest table nonces env t2 p nonce found.1.0 face fh) (ground arith)
                (pend_interest-Sends t2 p nonce found.1.0 face fh s n h)
        ]
      ]

-- The Interest as it goes on, one hop spent.
abbrev pub spend_hop : PendingPacket Interest → PendingPacket Interest
spend_hop p = record p { packet = record p.packet { hop_limit = decrement p.packet.hop_limit } }

-- What is left of a hop limit, if there is one, after a hop.
abbrev pub one_hop_less : Option ℕ → Option ℕ
one_hop_less none = none
one_hop_less (some zero) = some zero
one_hop_less (some (suc n)) = some n

decrement-one_hop_less : (limit : Option ℕ) → decrement limit ≡ one_hop_less limit
unfolding decrement
decrement-one_hop_less none = refl
decrement-one_hop_less (some zero) = refl
decrement-one_hop_less (some (suc n)) = let left : suc n - 1 ≡ n = omega arith in ap some left

-- Interest `p` may be forwarded as `q` to face `f`: it came from a face of its scope with a hop left, `q` has one
-- hop less, and `f` exists, is not where it came from unless it is ad hoc, and is local if `q` has no hop left.
pub record IsLegal (env : Environment) (p : PendingPacket Interest) (id f : ℕ)
    (q : PendingPacket Interest) : Type 0 where
  pub incoming : Face
  pub incoming_eq : env.get_face id ≡ some incoming
  pub in_scope : violates_scope p.packet.name incoming ≡ false
  pub hop_left : p.packet.hop_limit ≢ some 0
  pub same_interest : q.packet ≡ record p.packet { hop_limit = one_hop_less p.packet.hop_limit }
  pub outgoing : Face
  pub outgoing_eq : env.get_face f ≡ some outgoing
  pub not_back : outgoing.face_id ≡ incoming.face_id → is_ad_hoc outgoing.link_type ≡ true
  pub hop_next : is_non_local outgoing.scope ≡ true → q.packet.hop_limit ≢ some 0

some_hop :
    (p : PendingPacket Interest)
    → out_of_hops p.packet.hop_limit ≡ false
    → p.packet.hop_limit ≢ some 0
unfolding out_of_hops
some_hop p h e = ground arith

module _ (env : Environment) (p : PendingPacket Interest) (id : ℕ) (face : Face)
    (f_eq : env.get_face id ≡ some face) (scope : violates_scope p.packet.name face ≡ false)
    (left : p.packet.hop_limit ≢ some 0) where
  WentTo-IsLegal :
      (f : ℕ) (q : PendingPacket Interest)
      → WentTo env (spend_hop p) face.face_id (f, q)
      → IsLegal env p id f q
  unfolding usable out_of_hops
  WentTo-IsLegal f q (u, e) = elim (Option-cases (env.get_face f)) [
    | inl n ↦ absurd (ground arith)
    | inr (out, o) ↦ record {
      incoming = face;
      incoming_eq = f_eq;
      in_scope = scope;
      hop_left = left;
      same_interest =
          e
          ∙ ap (λ (limit : Option ℕ). record p.packet { hop_limit = limit })
              (decrement-one_hop_less p.packet.hop_limit);
      outgoing = out;
      outgoing_eq = o;
      not_back = λ h. ground arith;
      hop_next = λ h i. ground arith;
    }
  ]

  All-IsLegal :
      (xs : List (ℕ × PendingPacket Interest))
      → All (WentTo env (spend_hop p) face.face_id) xs
      → All (λ x. IsLegal env p id x.0 x.1) xs
  All-IsLegal [] a = tt
  All-IsLegal ((f, q) ∷ xs) a = (WentTo-IsLegal f q a.0, All-IsLegal xs a.1)

module _ {S D : Type 0} (table : PitCsTable S) (laws : IsPitCsTable table)
    (nonces : DeadNonceList D) (env : Environment) where
  -- An Interest with a nonce, no next hop of its own choice and a strategy for its name is processed without a panic; each
  -- Interest that this sends may be forwarded as it is, and each Data packet is in scope.
  pub incoming_interest-IsLegal :
      (t : Thread S D) (p : PendingPacket Interest) (id nonce : ℕ) (s : Strategy)
      → p.incoming_face_id ≡ some id
      → p.next_hop_face_id ≡ none
      → p.packet.nonce ≡ some nonce
      → Assoc.get ℕ_discrete (env.hash (env.find_strategy p.packet.name)) env.strategies ≡ some s
      → (t' : Thread S D) × (process_incoming_interest table nonces env t p ≡ some t')
        × Extends (λ x. IsLegal env p id x.0 x.1) t.sent_interests t'.sent_interests
        × Extends (InScope env) t.sent_datas t'.sent_datas
  unfolding process_incoming_interest
  incoming_interest-IsLegal t p id nonce s i n k h =
      let quiet : process_incoming_interest table nonces env t p ≡ some t
          → (t' : Thread S D) × (process_incoming_interest table nonces env t p ≡ some t')
            × Extends (λ x. IsLegal env p id x.0 x.1) t.sent_interests t'.sent_interests
            × Extends (InScope env) t.sent_datas t'.sent_datas =
        λ e. (
          t,
          e,
          Extends-refl (λ x. IsLegal env p id x.0 x.1) t.sent_interests,
          Extends-refl (InScope env) t.sent_datas,
        ) in
      elim (Option-cases (env.get_face id)) [
        | inl m ↦ quiet (ground arith)
        | inr (face, f) ↦ elim (Bool-cases (violates_scope p.packet.name face)) [
          | inl v ↦ quiet (ground arith)
          | inr v ↦ elim (Bool-cases (out_of_hops p.packet.hop_limit)) [
            | inl z ↦ quiet (ground arith)
            | inr z ↦
                let step : process_incoming_interest table nonces env t p
                    ≡ admit_interest table nonces env t (spend_hop p) face =
                  ground arith in
                let (t', e, (a, x, y), d) =
                  admit_interest-Sends table laws nonces env t (spend_hop p) face nonce s n k h in
                (t', step ∙ e, (a, x, All-IsLegal env p id face f v (some_hop p z) a y), d)
          ]
        ]
      ]
