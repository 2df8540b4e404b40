-- ===== src/Fw/Thread.antt =====
-- fw/thread.go: the outgoing pipelines; fw/strategy.go, fw/bestroute.go, fw/multicast.go.
use native.Mathlib.Decide.{ℕ_discrete}
use ya_nfd.Prelude.{
  ℕ, ◌+◌, ◌%◌, ◌^◌, Bool, true, false, not, ◌&&◌, Option, none, some, List, [], ◌∷◌, ◌++◌, map,
  ◌==◌, if◌then◌else◌,
}
use ya_nfd.Prelude.Assoc
use ya_nfd.Tlv.VarNum.{put_uint16, put_uint32}
use ya_nfd.Packets.{Interest, Data, PendingPacket, is_ad_hoc, is_non_local, violates_scope}
use ya_nfd.Pit.{InRecord, find, insert_out_record}
use ya_nfd.Fib.Hops.{NextHop}
use ya_nfd.Fw.Tables.{PitCsTable, Strategy, Environment}

-- `Thread`, with the packets that it has handed to faces, by face, the latest last. The channels,
-- the strategies and the thread's number are elsewhere.
pub record Thread (S D : Type 0) : Type 0 where
  pub pit_cs : S
  pub dead_nonce_list : D
  pub sent_interests : List (ℕ × PendingPacket Interest)
  pub sent_datas : List (ℕ × PendingPacket Data)
  pub n_in_interests : ℕ
  pub n_in_data : ℕ
  pub n_out_interests : ℕ
  pub n_out_data : ℕ
  pub n_satisfied_interests : ℕ
  pub n_unsatisfied_interests : ℕ

-- A 64-bit counter goes up by one.
abbrev pub count : ℕ → ℕ
count n = (n + 1) % 2 ^ 64

unfoldable pub out_of_hops : Option ℕ → Bool
out_of_hops none = false
out_of_hops (some n) = n == 0

-- The packet that leaves: where it came from, and the thread and the entry that the Data must find.
unfoldable pub stamp : ℕ → ℕ → ℕ → PendingPacket Interest → PendingPacket Interest
unfolding put_uint16 put_uint32
stamp thread_id token in_face p = record p {
  incoming_face_id = some in_face;
  pit_token = put_uint16 (thread_id % 2 ^ 16) ++ put_uint32 token;
}

-- The keys of the map of in-records, in the order of the loop.
abbrev pub faces_of : List (ℕ × InRecord) → List ℕ
faces_of rs = map (λ r. r.0) rs

module _ {S D : Type 0} (table : PitCsTable S) (env : Environment) where
  unfoldable pub process_outgoing_interest :
      Thread S D → PendingPacket Interest → ℕ → ℕ → ℕ → ℕ → Bool × Thread S D
  process_outgoing_interest t p nonce e nexthop in_face = elim (env.get_face nexthop) [
    | none ↦ (false, t)
    | some out ↦
        if (out.face_id == in_face) && not (is_ad_hoc out.link_type)
        then (false, t)
        else if out_of_hops p.packet.hop_limit && is_non_local out.scope
        then (false, t)
        else let entry = insert_out_record (table.entry t.pit_cs e) env.now p nonce nexthop in
          (
            true,
            record t {
              pit_cs = table.set_entry t.pit_cs e entry;
              n_out_interests = count t.n_out_interests;
              sent_interests =
                  t.sent_interests ++ ((nexthop, stamp env.thread_id entry.token in_face p) ∷ []);
            },
          )
  ]

  -- The loop of `BestRoute.AfterReceiveInterest`: until one is sent.
  unfoldable pub send_first :
      Thread S D → PendingPacket Interest → ℕ → ℕ → ℕ → List NextHop → Thread S D
  send_first t p nonce e in_face [] = t
  send_first t p nonce e in_face (h ∷ hs) =
      let (sent, t') = process_outgoing_interest t p nonce e h.nexthop in_face in
      let rest = send_first t' p nonce e in_face hs in if sent then t' else rest

  -- The loop of `Multicast.AfterReceiveInterest`.
  unfoldable pub send_each :
      Thread S D → PendingPacket Interest → ℕ → ℕ → ℕ → List NextHop → Thread S D
  send_each t p nonce e in_face [] = t
  send_each t p nonce e in_face (h ∷ hs) =
      send_each (process_outgoing_interest t p nonce e h.nexthop in_face).1 p nonce e in_face hs

  unfoldable pub after_receive_interest :
      Strategy → Thread S D → PendingPacket Interest → ℕ → ℕ → ℕ → List NextHop → Thread S D
  after_receive_interest Strategy.best_route t p nonce e in_face hops =
      send_first t p nonce e in_face (env.sort_hops hops)
  after_receive_interest Strategy.multicast t p nonce e in_face hops =
      send_each t p nonce e in_face hops

  -- The packet is the caller's own: its token and its incoming face stay as the send has left them.
  unfoldable pub process_outgoing_data :
      Thread S D → PendingPacket Data → ℕ → List ℕ → ℕ → Thread S D × PendingPacket Data
  process_outgoing_data t p nexthop token in_face = elim (env.get_face nexthop) [
    | none ↦ (t, p)
    | some out ↦
        if violates_scope p.packet.name out
        then (t, p)
        else let token' : List ℕ = elim token [ [] ↦ p.pit_token | b ∷ bs ↦ b ∷ bs ] in
          let p' = record p { pit_token = token'; incoming_face_id = some in_face } in
          (
            record t {
              n_out_data = count t.n_out_data;
              n_satisfied_interests = count t.n_satisfied_interests;
              sent_datas = t.sent_datas ++ ((nexthop, p') ∷ []);
            },
            p',
          )
  ]

  -- `StrategyBase.SendData`: the in-record gives its token and goes.
  unfoldable pub send_data :
      Thread S D → PendingPacket Data → ℕ → ℕ → ℕ → Thread S D × PendingPacket Data
  send_data t p e nexthop in_face =
      let entry = table.entry t.pit_cs e in
      elim (find nexthop entry.in_records) [
        | none ↦ process_outgoing_data t p nexthop [] in_face
        | some r ↦
            let entry' = record entry {
              in_records = Assoc.delete ℕ_discrete nexthop entry.in_records;
            } in
            process_outgoing_data (record t { pit_cs = table.set_entry t.pit_cs e entry' }) p
              nexthop r.pit_token in_face
      ]

  unfoldable pub send_data_each :
      Thread S D → PendingPacket Data → ℕ → ℕ → List ℕ → Thread S D × PendingPacket Data
  send_data_each t p e in_face [] = (t, p)
  send_data_each t p e in_face (f ∷ fs) =
      let (t', p') = send_data t p e f in_face in send_data_each t' p' e in_face fs

  -- `AfterReceiveData` of both strategies: to each face with an in-record.
  unfoldable pub after_receive_data :
      Strategy → Thread S D → PendingPacket Data → ℕ → ℕ → Thread S D × PendingPacket Data
  after_receive_data Strategy.best_route t p e in_face =
      send_data_each t p e in_face (faces_of (table.entry t.pit_cs e).in_records)
  after_receive_data Strategy.multicast t p e in_face =
      send_data_each t p e in_face (faces_of (table.entry t.pit_cs e).in_records)

  -- `AfterContentStoreHit` of both strategies, with 0 for the Content Store.
  unfoldable pub after_content_store_hit :
      Strategy → Thread S D → PendingPacket Data → ℕ → ℕ → Thread S D
  after_content_store_hit Strategy.best_route t p e in_face = (send_data t p e in_face 0).0
  after_content_store_hit Strategy.multicast t p e in_face = (send_data t p e in_face 0).0
