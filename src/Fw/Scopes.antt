-- ===== src/Fw/Scopes.antt =====
-- No Data packet under /localhost leaves over a face that is not local, whatever the pipelines do.
use native.Mathlib.Decide.{ℕ_discrete}
use ya_nfd.Prelude.{
  ℕ, ◌≡◌, ◌≢◌, refl, ◌⊎◌, inl, inr, true, false, Option, some, List, [], ◌∷◌, Extends, Extends-refl,
  Extends-trans, Extends-one, arith, Bool-cases, Option-cases,
}
use ya_nfd.Prelude.Assoc
use ya_nfd.Packets.{Data, PendingPacket, Face, violates_scope}
use ya_nfd.Pit.{find}
use ya_nfd.Fw.Tables.{PitCsTable, DeadNonceList, Strategy, Environment}
use ya_nfd.Fw.Thread.{
  Thread, process_outgoing_data, send_data, send_data_each, after_receive_data,
  after_content_store_hit,
}
use ya_nfd.Fw.Incoming.{
  entry_token, violates_scope_in, send_downstream, satisfy_one, satisfy_among, satisfy_all, satisfy,
  admit_data, process_incoming_data, expire_now,
}

-- A Data packet that was handed to a face that exists and that its name may pass.
abbrev pub InScope : Environment → ℕ × PendingPacket Data → Type 0
InScope env (f, q) =
    (out : Face) × (env.get_face f ≡ some out) × (violates_scope q.packet.name out ≡ false)

module _ {S D : Type 0} (table : PitCsTable S) (env : Environment) where
  -- A step of a pipeline adds Data in scope to what was sent.
  abbrev pub Adds : Thread S D → Thread S D → Type 0
  Adds t t' = Extends (InScope env) t.sent_datas t'.sent_datas

  outgoing_data-Adds :
      (t : Thread S D) (p : PendingPacket Data) (f : ℕ) (token : List ℕ) (in_face : ℕ)
      → Adds t (process_outgoing_data table env t p f token in_face).0
  unfolding process_outgoing_data
  outgoing_data-Adds t p f token in_face = elim (Option-cases (env.get_face f)) [
    | inl n ↦ rw (n, process_outgoing_data) (Extends-refl (InScope env) t.sent_datas)
    | inr (out, o) ↦ elim (Bool-cases (violates_scope p.packet.name out)) [
      | inl v ↦ rw (o, process_outgoing_data, v) (Extends-refl (InScope env) t.sent_datas)
      | inr v ↦
          rw (o, process_outgoing_data, v) (Extends-one (InScope env) t.sent_datas _ (out, o, v))
    ]
  ]

  outgoing_data-packet :
      (t : Thread S D) (p : PendingPacket Data) (f : ℕ) (token : List ℕ) (in_face : ℕ)
      → (process_outgoing_data table env t p f token in_face).1.packet ≡ p.packet
  unfolding process_outgoing_data
  outgoing_data-packet t p f token in_face = ground arith

  send_data-Adds :
      (t : Thread S D) (p : PendingPacket Data) (e f in_face : ℕ)
      → Adds t (send_data table env t p e f in_face).0
  unfolding send_data
  send_data-Adds t p e f in_face =
      elim (Option-cases (find f (table.entry t.pit_cs e).in_records)) [
        | inl n ↦ rw (n, send_data) (outgoing_data-Adds t p f [] in_face)
        | inr (r, o) ↦
            rw (o, send_data) (outgoing_data-Adds (record t { pit_cs = _ }) p f r.pit_token in_face)
      ]

  send_data_each-Adds :
      (fs : List ℕ) (t : Thread S D) (p : PendingPacket Data) (e in_face : ℕ)
      → Adds t (send_data_each table env t p e in_face fs).0
  unfolding send_data_each
  send_data_each-Adds [] t p e in_face = Extends-refl (InScope env) t.sent_datas
  send_data_each-Adds (f ∷ fs) t p e in_face =
      let (t', p') = send_data table env t p e f in_face in
      Extends-trans (InScope env) _ _ _ (send_data-Adds t p e f in_face)
        (send_data_each-Adds fs t' p' e in_face)

  after_receive_data-Adds :
      (s : Strategy) (t : Thread S D) (p : PendingPacket Data) (e in_face : ℕ)
      → Adds t (after_receive_data table env s t p e in_face).0
  unfolding after_receive_data
  after_receive_data-Adds Strategy.best_route t p e in_face = send_data_each-Adds _ t p e in_face
  after_receive_data-Adds Strategy.multicast t p e in_face = send_data_each-Adds _ t p e in_face

  pub after_content_store_hit-Adds :
      (s : Strategy) (t : Thread S D) (p : PendingPacket Data) (e in_face : ℕ)
      → Adds t (after_content_store_hit table env s t p e in_face)
  unfolding after_content_store_hit
  after_content_store_hit-Adds Strategy.best_route t p e in_face = send_data-Adds t p e in_face 0
  after_content_store_hit-Adds Strategy.multicast t p e in_face = send_data-Adds t p e in_face 0

module _ {S D : Type 0} (table : PitCsTable S) (nonces : DeadNonceList D) (env : Environment) where
  send_downstream-Adds :
      (fs : List (ℕ × List ℕ)) (t : Thread S D) (p : PendingPacket Data) (in_face : ℕ)
      → Adds table env t (send_downstream table nonces env t p in_face fs).0
  unfolding send_downstream
  send_downstream-Adds [] t p in_face = Extends-refl (InScope env) t.sent_datas
  send_downstream-Adds ((f, token) ∷ fs) t p in_face =
      let (t', p') = process_outgoing_data table env t p f token in_face in
      Extends-trans (InScope env) _ _ _ (outgoing_data-Adds table env t p f token in_face)
        (send_downstream-Adds fs t' p' in_face)

  satisfy_one-Adds :
      (t : Thread S D) (p : PendingPacket Data) (e in_face : ℕ) (s : Strategy)
      → Adds table env t (satisfy_one table nonces env t p e in_face s)
  unfolding satisfy_one expire_now
  satisfy_one-Adds t p e in_face s =
      after_receive_data-Adds table env s (expire_now table nonces env t e) p e in_face

  satisfy_among-Adds :
      (t : Thread S D) (p : PendingPacket Data) (first e in_face : ℕ)
      → Adds table env t (satisfy_among table nonces env t p first e in_face).0
  unfolding satisfy_among expire_now
  satisfy_among-Adds t p first e in_face =
      send_downstream-Adds _ (record t { pit_cs = _; dead_nonce_list = _ }) p in_face

  satisfy_all-Adds :
      (es : List ℕ) (t : Thread S D) (p : PendingPacket Data) (first in_face : ℕ)
      → Adds table env t (satisfy_all table nonces env t p first es in_face).0
  unfolding satisfy_all
  satisfy_all-Adds [] t p first in_face = Extends-refl (InScope env) t.sent_datas
  satisfy_all-Adds (e ∷ es) t p first in_face =
      let (t', p') = satisfy_among table nonces env t p first e in_face in
      Extends-trans (InScope env) _ _ _ (satisfy_among-Adds t p first e in_face)
        (satisfy_all-Adds es t' p' first in_face)

  -- A run of a pipeline that does not panic and adds Data in scope.
  abbrev pub RunsAdding : Thread S D → Option (Thread S D) → Type 0
  RunsAdding t r = (t' : Thread S D) × (r ≡ some t') × Adds table env t t'

  satisfy-RunsAdding :
      (es : List ℕ) (t : Thread S D) (p : PendingPacket Data) (in_face : ℕ) (s : Strategy)
      → RunsAdding t (satisfy table nonces env t p es in_face (some s))
  unfolding satisfy
  satisfy-RunsAdding [] t p in_face s = (t, refl, Extends-refl (InScope env) t.sent_datas)
  satisfy-RunsAdding (e ∷ []) t p in_face s = (_, refl, satisfy_one-Adds t p e in_face s)
  satisfy-RunsAdding (e ∷ e' ∷ es) t p in_face s =
      (_, refl, satisfy_all-Adds (e ∷ e' ∷ es) t p e in_face)

  admit_data-RunsAdding :
      (t : Thread S D) (p : PendingPacket Data) (token : Option ℕ) (in_face : ℕ) (s : Strategy)
      → Assoc.get ℕ_discrete (env.hash (env.find_strategy p.packet.name)) env.strategies ≡ some s
      → RunsAdding t (admit_data table nonces env t p token in_face)
  unfolding admit_data
  admit_data-RunsAdding t p token in_face s h =
      rw (admit_data, h) (satisfy-RunsAdding _ (record t { pit_cs = _ }) p in_face s)

  scope_read :
      (p : PendingPacket Data) (face : Face)
      → p.packet.name ≢ []
      → (violates_scope_in p face ≡ some true) ⊎ (violates_scope_in p face ≡ some false)
  unfolding violates_scope_in
  scope_read p face named = ground arith

  -- Data with a readable token, a name that is not empty and a strategy for it is processed without
  -- a panic, and each Data packet that this sends goes to a face that exists, which is local if the
  -- packet's name is under /localhost.
  pub incoming_data-RunsAdding :
      (t : Thread S D) (p : PendingPacket Data) (token : Option ℕ) (s : Strategy)
      → entry_token p.pit_token ≡ some token
      → p.packet.name ≢ []
      → Assoc.get ℕ_discrete (env.hash (env.find_strategy p.packet.name)) env.strategies ≡ some s
      → RunsAdding t (process_incoming_data table nonces env t p)
  unfolding process_incoming_data
  incoming_data-RunsAdding t p token s k named h = elim (Option-cases p.incoming_face_id) [
    | inl n ↦ rw (n, process_incoming_data) (t, refl, Extends-refl (InScope env) t.sent_datas)
    | inr (id, i) ↦ elim (Option-cases (env.get_face id)) [
      | inl n ↦
          rw (i, process_incoming_data, k, n) (t, refl, Extends-refl (InScope env) t.sent_datas)
      | inr (face, f) ↦ elim (scope_read p face named) [
        | inl v ↦
            rw (i, process_incoming_data, k, f, v)
              (_, refl, Extends-refl (InScope env) t.sent_datas)
        | inr v ↦ rw (i, process_incoming_data, k, f, v) (admit_data-RunsAdding _ p token id s h)
      ]
    ]
  ]
