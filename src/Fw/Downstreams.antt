-- ===== src/Fw/Downstreams.antt =====
-- The state of an entry that Data has satisfied, and the downstreams that received it: fw/thread.go.
use ya_nfd.Prelude.{
  ℕ, ◌≡◌, ◌==◌, if◌then◌else◌, not, refl, sym, ◌∙◌, true, some, List, [], ◌∷◌, ◌++◌, append_assoc,
  append-nil, map, arith,
}
use ya_nfd.Prelude.Assoc
use ya_nfd.Packets.{Name, Data, PendingPacket}
use ya_nfd.Pit.{PitEntry, InRecord, OutRecord, find, clear_in_records, clear_out_records}
use ya_nfd.Fw.Tables.{
  PitCsTable, IsPitCsTable, DeadNonceList, IsDeadNonceList, Strategy, Environment,
}
use ya_nfd.Fw.Thread.{Thread, faces_of, process_outgoing_data, after_receive_data}
use ya_nfd.Fw.Incoming.{
  expire_now, insert_nonces, satisfy_one, satisfy_among, downstreams, send_downstream,
}
use ya_nfd.Fw.Satisfaction.{
  deliverable_faces, recipients, delete_each, faces_of-find, delete_each-nothing, without,
  send_data_each-recipients, send_data_each_entry, outgoing_data-recipients, outgoing_data_table,
  outgoing_data_packet, deliverable_faces-append,
}

-- The faces that are not the one given.
unfoldable pub others : ℕ → List ℕ → List ℕ
others face [] = []
others face (f ∷ fs) = let rest = others face fs in if not (f == face) then f ∷ rest else rest

-- A step satisfies an entry: the faces are those that the Data was handed to, and the entry is marked,
-- expires now and has no record left.
pub record Satisfies {S D : Type 0} (table : PitCsTable S) (env : Environment) (t t' : Thread S D)
    (e : ℕ) (faces : List ℕ) : Type 0 where
  pub received : recipients t'.sent_datas ≡ recipients t.sent_datas ++ faces
  pub in_records : (table.entry t'.pit_cs e).in_records ≡ []
  pub out_records : (table.entry t'.pit_cs e).out_records ≡ []
  pub satisfied : (table.entry t'.pit_cs e).satisfied ≡ true
  pub expires : (table.entry t'.pit_cs e).expiration_time ≡ env.now

module _ {S D : Type 0} (table : PitCsTable S) (laws : IsPitCsTable table)
    (nonces : DeadNonceList D) (env : Environment) where
  expire_now_entry :
      (t : Thread S D) (e : ℕ)
      → table.entry (expire_now table nonces env t e).pit_cs e
        ≡ record (table.entry t.pit_cs e) { expiration_time = env.now }
  unfolding expire_now
  expire_now_entry t e = rw (laws.entry-update_pit_expiry, laws.entry-set_entry)

  all_deleted : (entry : PitEntry) → delete_each (faces_of entry.in_records) entry.in_records ≡ []
  all_deleted entry =
      delete_each-nothing (faces_of entry.in_records) entry.in_records
        (λ j. faces_of-find j entry.in_records)

  received_entry :
      (s : Strategy) (t : Thread S D) (p : PendingPacket Data) (e in_face : ℕ)
      → table.entry (after_receive_data table env s t p e in_face).0.pit_cs e
        ≡ without (table.entry t.pit_cs e) (faces_of (table.entry t.pit_cs e).in_records)
  unfolding after_receive_data
  received_entry Strategy.best_route t p e in_face =
      send_data_each_entry table laws env (faces_of (table.entry t.pit_cs e).in_records) t p e
        in_face
  received_entry Strategy.multicast t p e in_face =
      send_data_each_entry table laws env (faces_of (table.entry t.pit_cs e).in_records) t p e
        in_face

  received_faces :
      (s : Strategy) (t : Thread S D) (p : PendingPacket Data) (e in_face : ℕ)
      → recipients (after_receive_data table env s t p e in_face).0.sent_datas
        ≡ recipients t.sent_datas
          ++ deliverable_faces env p.packet.name (faces_of (table.entry t.pit_cs e).in_records)
  unfolding after_receive_data
  received_faces Strategy.best_route t p e in_face =
      send_data_each-recipients table env (faces_of (table.entry t.pit_cs e).in_records) t p e
        in_face
  received_faces Strategy.multicast t p e in_face =
      send_data_each-recipients table env (faces_of (table.entry t.pit_cs e).in_records) t p e
        in_face

  -- Data that matches one PIT entry goes once to each face of an in-record that exists and that its name may
  -- pass, and to no other; the entry is then satisfied, expires now and has no record left.
  pub satisfy_one-Satisfies :
      (t : Thread S D) (p : PendingPacket Data) (e in_face : ℕ) (s : Strategy)
      → Satisfies table env t
          (satisfy_one table nonces env t p e in_face s)
          e
          (deliverable_faces env p.packet.name (faces_of (table.entry t.pit_cs e).in_records))
  unfolding satisfy_one clear_out_records expire_now
  satisfy_one-Satisfies t p e in_face s =
      let entry = table.entry t.pit_cs e in
      let t1 = expire_now table nonces env t e in
      let at_now = expire_now_entry t e in
      let after = received_entry s t1 p e in_face in
      record {
        received = received_faces s t1 p e in_face ∙ rw at_now refl;
        in_records = rw (laws.entry-set_entry, after, at_now) (all_deleted entry);
        out_records = rw (laws.entry-set_entry) refl;
        satisfied = rw (laws.entry-set_entry) refl;
        expires = rw (laws.entry-set_entry, after, at_now) refl;
      }

  send_downstream-recipients :
      (fs : List (ℕ × List ℕ)) (t : Thread S D) (p : PendingPacket Data) (in_face : ℕ)
      → recipients (send_downstream table nonces env t p in_face fs).0.sent_datas
        ≡ recipients t.sent_datas ++ deliverable_faces env p.packet.name (map (λ f. f.0) fs)
  unfolding send_downstream deliverable_faces
  send_downstream-recipients [] t p in_face = sym (append-nil (recipients t.sent_datas))
  send_downstream-recipients ((f, token) ∷ fs) t p in_face =
      let (t', p') = process_outgoing_data table env t p f token in_face in
      let first = outgoing_data-recipients table env t p f token in_face in
      let rest = send_downstream-recipients fs t' p' in_face in
      rest
      ∙ rw (
        first,
        outgoing_data_packet table env t p f token in_face,
        append_assoc,
        deliverable_faces-append,
      )

  send_downstream_table :
      (fs : List (ℕ × List ℕ)) (t : Thread S D) (p : PendingPacket Data) (in_face : ℕ)
      → (send_downstream table nonces env t p in_face fs).0.pit_cs ≡ t.pit_cs
  unfolding send_downstream
  send_downstream_table [] t p in_face = refl
  send_downstream_table ((f, token) ∷ fs) t p in_face =
      let (t', p') = process_outgoing_data table env t p f token in_face in
      send_downstream_table fs t' p' in_face ∙ outgoing_data_table table env t p f token in_face

  downstreams-others :
      (in_face : ℕ) (rs : List (ℕ × InRecord))
      → map (λ f. f.0) (downstreams in_face rs) ≡ others in_face (faces_of rs)
  unfolding downstreams others faces_of
  downstreams-others in_face [] = refl
  downstreams-others in_face ((f, r) ∷ rs) = ground (arith, downstreams-others in_face rs)

  -- One of several PIT entries that Data matches sends it once to each face of an in-record, less the one that it
  -- came from, that exists and that its name may pass; the entry is then satisfied, expires now and has no record left.
  pub satisfy_among-Satisfies :
      (t : Thread S D) (p : PendingPacket Data) (first e in_face : ℕ)
      → Satisfies table env t (satisfy_among table nonces env t p first e in_face).0 e (
          deliverable_faces env p.packet.name
            (others in_face (faces_of (table.entry t.pit_cs e).in_records)))
  unfolding satisfy_among clear_out_records clear_in_records expire_now
  satisfy_among-Satisfies t p first e in_face =
      let fs = downstreams in_face (table.entry t.pit_cs e).in_records in
      record {
        received =
            send_downstream-recipients fs _ p in_face
            ∙ rw (downstreams-others in_face (table.entry t.pit_cs e).in_records) refl;
        in_records = rw (send_downstream_table, laws.entry-set_entry) refl;
        out_records = rw (send_downstream_table, laws.entry-set_entry) refl;
        satisfied = rw (send_downstream_table, laws.entry-set_entry) refl;
        expires =
            rw
              (
                send_downstream_table, laws.entry-set_entry, laws.entry-update_pit_expiry,
                laws.entry-set_entry,
              )
              refl;
      }

module _ {D : Type 0} (nonces : DeadNonceList D) (laws : IsDeadNonceList nonces) where
  insert_nonces-keeps :
      (rs : List (ℕ × OutRecord)) (d : D) (n m : Name) (k : ℕ)
      → nonces.find d n k ≡ true
      → nonces.find (insert_nonces nonces d m rs) n k ≡ true
  unfolding insert_nonces
  insert_nonces-keeps [] d n m k h = h
  insert_nonces-keeps ((f, r) ∷ rs) d n m k h =
      insert_nonces-keeps rs _ n m k (laws.insert-keeps d n m k r.latest_nonce h)

  insert_nonces-find :
      (rs : List (ℕ × OutRecord)) (d : D) (n : Name) (f : ℕ) (r : OutRecord)
      → find f rs ≡ some r
      → nonces.find (insert_nonces nonces d n rs) n r.latest_nonce ≡ true
  unfolding insert_nonces Assoc.get
  insert_nonces-find [] d n f r h = ground arith
  insert_nonces-find ((g, q) ∷ rs) d n f r h =
      let here =
        insert_nonces-keeps rs (nonces.insert d n q.latest_nonce) n n q.latest_nonce
          (laws.find-insert d n q.latest_nonce) in
      let there = insert_nonces-find rs (nonces.insert d n q.latest_nonce) n f r in ground arith

module _ {S D : Type 0} (table : PitCsTable S) (laws : IsPitCsTable table)
    (nonces : DeadNonceList D) (list : IsDeadNonceList nonces) (env : Environment) where
  -- When Data satisfies the one PIT entry that it matches, the nonce of every out-record of the entry is in the
  -- Dead Nonce List, under the name of the Data.
  pub satisfy_one-nonces :
      (t : Thread S D) (p : PendingPacket Data) (e in_face : ℕ) (s : Strategy) (f : ℕ)
      (r : OutRecord)
      → find f (table.entry t.pit_cs e).out_records ≡ some r
      → nonces.find
          (satisfy_one table nonces env t p e in_face s).dead_nonce_list
          p.packet.name
          r.latest_nonce
        ≡ true
  unfolding satisfy_one
  satisfy_one-nonces t p e in_face s f r h =
      let t1 = expire_now table nonces env t e in
      let after = received_entry table laws nonces env s t1 p e in_face in
      rw (after, expire_now_entry table laws nonces env t e)
        (insert_nonces-find nonces list (table.entry t.pit_cs e).out_records _ p.packet.name f r h)
