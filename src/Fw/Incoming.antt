-- ===== src/Fw/Incoming.antt =====
-- fw/thread.go: the incoming pipelines. A panic of Go (a nil pointer, an index out of range) is none.
use native.Mathlib.Decide.{ℕ_discrete}
use ya_nfd.Prelude.{
  ℕ, ◌+◌, ◌-◌, ◌%◌, ◌^◌, Bool, true, false, not, ◌&&◌, Option, none, some, List, [], ◌∷◌, ◌++◌,
  length, take, drop, ltb, ◌==◌, if◌then◌else◌,
}
use ya_nfd.Prelude.Assoc
use ya_nfd.Tlv.VarNum.{from_bytes}
use ya_nfd.Packets.{
  Name, Interest, Data, PendingPacket, Face, is_localhost, is_non_local, violates_scope,
}
use ya_nfd.Pit.{
  InRecord, OutRecord, insert_in_record, update_expiration_time, clear_in_records,
  clear_out_records,
}
use ya_nfd.Fw.Tables.{PitCsTable, DeadNonceList, Strategy, Environment}
use ya_nfd.Fw.Thread.{
  Thread, count, out_of_hops, after_receive_interest, process_outgoing_data, after_receive_data,
  after_content_store_hit,
}

-- The loop over the names of a forwarding hint: none where one of them is of this region.
unfoldable pub hint_name : (Name → Bool) → Option Name → List Name → Option Name
hint_name is_producer fh_name [] = fh_name
hint_name is_producer fh_name (fh ∷ fhs) =
    let kept : Option Name = elim fh_name [ none ↦ some fh | some n ↦ some n ] in
    let rest = hint_name is_producer kept fhs in if is_producer fh then none else rest

unfoldable pub forwarding_name : (Name → Bool) → Option (List Name) → Option Name
forwarding_name is_producer none = none
forwarding_name is_producer (some names) = hint_name is_producer none names

unfoldable pub decrement : Option ℕ → Option ℕ
decrement none = none
decrement (some n) = some (n - 1)

-- The four bytes of a token behind the number of the thread. A token shorter than six bytes panics.
unfoldable pub entry_token : List ℕ → Option (Option ℕ)
entry_token [] = some none
entry_token (b ∷ bs) =
    if ltb (length (b ∷ bs)) 6 then none else some (some (from_bytes 0 (take 4 (drop 2 (b ∷ bs)))))

-- Whether Data from a face violates the scope: the test is on the cached string, the name is read.
unfoldable pub violates_scope_in : PendingPacket Data → Face → Option Bool
violates_scope_in p face =
    if is_non_local face.scope && ltb 0 (length p.name_cache)
    then elim p.packet.name [ [] ↦ none | c ∷ cs ↦ some (is_localhost (c ∷ cs)) ]
    else some false

-- The downstreams of an entry and their tokens, less the face that the Data came from.
unfoldable pub downstreams : ℕ → List (ℕ × InRecord) → List (ℕ × List ℕ)
downstreams in_face [] = []
downstreams in_face ((f, r) ∷ rs) =
    let rest = downstreams in_face rs in if f == in_face then rest else (f, r.pit_token) ∷ rest

module _ {D : Type 0} (nonces : DeadNonceList D) where
  -- The nonces of out-records go to the Dead Nonce List.
  unfoldable pub insert_nonces : D → Name → List (ℕ × OutRecord) → D
  insert_nonces d name [] = d
  insert_nonces d name ((f, r) ∷ rs) = insert_nonces (nonces.insert d name r.latest_nonce) name rs

  -- The same in `finalizeInterest`, under the name of the Interest that each record holds.
  unfoldable pub finalize_nonces : D → List (ℕ × OutRecord) → D
  finalize_nonces d [] = d
  finalize_nonces d ((f, r) ∷ rs) =
      finalize_nonces (nonces.insert d r.latest_interest.packet.name r.latest_nonce) rs

module _ {S D : Type 0} (table : PitCsTable S) (nonces : DeadNonceList D) (env : Environment) where
  -- What follows once the entry has its in-record and there is no hit in the Content Store.
  unfoldable pub forward_interest :
      Thread S D
      → PendingPacket Interest
      → ℕ
      → ℕ
      → ℕ
      → Option Name
      → Option Strategy
      → Option (Thread S D)
  forward_interest t p nonce e in_face fh_name chosen =
      let entry = update_expiration_time (table.entry t.pit_cs e) env.now in
      let t' = record t { pit_cs = table.update_pit_expiry (table.set_entry t.pit_cs e entry) e } in
      elim p.next_hop_face_id [
        | some hop ↦ elim (env.get_face hop) [
          | none ↦ some t'
          | some face ↦ some (record t' { sent_interests = t'.sent_interests ++ ((hop, p) ∷ []) })
        ]
        | none ↦
            let looked_up : Name = elim fh_name [ none ↦ p.packet.name | some n ↦ n ] in
            elim chosen [
              | none ↦ none
              | some strategy ↦ some (
                  after_receive_interest table env strategy t' p nonce e in_face
                    (env.find_next_hops looked_up))
            ]
      ]

  -- What follows once the entry is found: the in-record, and the Content Store for a new one.
  unfoldable pub pend_interest :
      Thread S D → PendingPacket Interest → ℕ → ℕ → Face → Option Name → Option (Thread S D)
  pend_interest t p nonce e face fh_name =
      let in_face = face.face_id in
      let chosen =
        Assoc.get ℕ_discrete (env.hash (env.find_strategy p.packet.name)) env.strategies in
      let (entry, pending) =
        insert_in_record (table.entry t.pit_cs e) env.now p nonce in_face p.pit_token in
      let t' = record t { pit_cs = table.set_entry t.pit_cs e entry } in
      if not pending && table.is_cs_serving t'.pit_cs
      then (let (s, hit) = table.find_matching_data_from_cs t'.pit_cs p in
          let t'' = record t' { pit_cs = s } in
          elim hit [
            | none ↦ forward_interest t'' p nonce e in_face fh_name chosen
            | some d ↦ elim chosen [
              | none ↦ none
              | some strategy ↦ some (after_content_store_hit table env strategy t'' d e in_face)
            ]
          ])
      else forward_interest t' p nonce e in_face fh_name chosen

  -- What follows for an Interest with hops left, from a face of its scope.
  unfoldable pub admit_interest : Thread S D → PendingPacket Interest → Face → Option (Thread S D)
  admit_interest t p face =
      let t1 = record t { n_in_interests = count t.n_in_interests } in
      let fh_name = forwarding_name env.is_producer p.packet.forwarding_hint in
      elim p.packet.nonce [
        | none ↦ none
        | some nonce ↦
            if nonces.find t1.dead_nonce_list p.packet.name nonce
            then some t1
            else let (s, (e, duplicate)) = table.insert_interest t1.pit_cs p fh_name face.face_id in
              let t2 = record t1 { pit_cs = s } in
              if duplicate then some t2 else pend_interest t2 p nonce e face fh_name
      ]

  unfoldable pub process_incoming_interest :
      Thread S D → PendingPacket Interest → Option (Thread S D)
  process_incoming_interest t p = elim p.incoming_face_id [
    | none ↦ some t
    | some id ↦ elim (env.get_face id) [
      | none ↦ some t
      | some face ↦
          let hops = p.packet.hop_limit in
          let p' = record p { packet = record p.packet { hop_limit = decrement hops } } in
          if out_of_hops hops
          then some t
          else if violates_scope p'.packet.name face
          then some t
          else admit_interest t p' face
    ]
  ]

  -- `SetExpirationTimerToNow`
  unfoldable pub expire_now : Thread S D → ℕ → Thread S D
  expire_now t e =
      let entry = record (table.entry t.pit_cs e) { expiration_time = env.now } in
      record t { pit_cs = table.update_pit_expiry (table.set_entry t.pit_cs e entry) e }

  -- A single matching entry: its in-records are the strategy's to remove.
  unfoldable pub satisfy_one : Thread S D → PendingPacket Data → ℕ → ℕ → Strategy → Thread S D
  satisfy_one t p e in_face strategy =
      let (t1, p1) = after_receive_data table env strategy (expire_now t e) p e in_face in
      let entry = record (table.entry t1.pit_cs e) { satisfied = true } in
      record t1 {
        dead_nonce_list = insert_nonces nonces t1.dead_nonce_list p.packet.name entry.out_records;
        pit_cs = table.set_entry t1.pit_cs e (clear_out_records entry);
      }

  unfoldable pub send_downstream :
      Thread S D → PendingPacket Data → ℕ → List (ℕ × List ℕ) → Thread S D × PendingPacket Data
  send_downstream t p in_face [] = (t, p)
  send_downstream t p in_face ((f, token) ∷ fs) =
      let (t', p') = process_outgoing_data table env t p f token in_face in
      send_downstream t' p' in_face fs

  -- One of several matching entries. The nonces are those of the first of them, `first`.
  unfoldable pub satisfy_among :
      Thread S D → PendingPacket Data → ℕ → ℕ → ℕ → Thread S D × PendingPacket Data
  satisfy_among t p first e in_face =
      let fs = downstreams in_face (table.entry t.pit_cs e).in_records in
      let t1 = expire_now t e in
      let entry = record (table.entry t1.pit_cs e) { satisfied = true } in
      let t2 = record t1 { pit_cs = table.set_entry t1.pit_cs e entry } in
      let d =
        insert_nonces nonces t2.dead_nonce_list p.packet.name
          (table.entry t2.pit_cs first).out_records in
      let cleared = clear_out_records (clear_in_records entry) in
      send_downstream
        (record t2 { dead_nonce_list = d; pit_cs = table.set_entry t2.pit_cs e cleared }) p in_face
        fs

  unfoldable pub satisfy_all :
      Thread S D → PendingPacket Data → ℕ → List ℕ → ℕ → Thread S D × PendingPacket Data
  satisfy_all t p first [] in_face = (t, p)
  satisfy_all t p first (e ∷ es) in_face =
      let (t', p') = satisfy_among t p first e in_face in satisfy_all t' p' first es in_face

  -- What the matching entries make of the Data: none, one or several.
  unfoldable pub satisfy :
      Thread S D → PendingPacket Data → List ℕ → ℕ → Option Strategy → Option (Thread S D)
  satisfy t p [] in_face chosen = some t
  satisfy t p (e ∷ []) in_face chosen = elim chosen [
    | none ↦ none
    | some strategy ↦ some (satisfy_one t p e in_face strategy)
  ]
  satisfy t p (e ∷ e' ∷ es) in_face chosen = elim chosen [
    | none ↦ none
    | some strategy ↦ some (satisfy_all t p e (e ∷ e' ∷ es) in_face).0
  ]

  unfoldable pub admit_data : Thread S D → PendingPacket Data → Option ℕ → ℕ → Option (Thread S D)
  admit_data t p token in_face =
      let admitted =
        if table.is_cs_admitting t.pit_cs then table.insert_data t.pit_cs p else t.pit_cs in
      let entries = table.find_interest_prefix_match_by_data admitted p token in
      let chosen =
        Assoc.get ℕ_discrete (env.hash (env.find_strategy p.packet.name)) env.strategies in
      satisfy (record t { pit_cs = admitted }) p entries in_face chosen

  unfoldable pub process_incoming_data : Thread S D → PendingPacket Data → Option (Thread S D)
  process_incoming_data t p = elim p.incoming_face_id [
    | none ↦ some t
    | some id ↦ elim (entry_token p.pit_token) [
      | none ↦ none
      | some token ↦ elim (env.get_face id) [
        | none ↦ some t
        | some face ↦
            let t1 = record t { n_in_data = count t.n_in_data } in
            elim (violates_scope_in p face) [
              | none ↦ none
              | some true ↦ some t1
              | some false ↦ admit_data t1 p token id
            ]
      ]
    ]
  ]

  -- The call when an entry is removed.
  unfoldable pub finalize_interest : Thread S D → ℕ → Thread S D
  finalize_interest t e =
      let entry = table.entry t.pit_cs e in
      let unsatisfied = (t.n_unsatisfied_interests + length entry.in_records) % 2 ^ 64 in
      record t {
        dead_nonce_list = finalize_nonces nonces t.dead_nonce_list entry.out_records;
        n_unsatisfied_interests =
            if entry.satisfied then t.n_unsatisfied_interests else unsatisfied;
      }
