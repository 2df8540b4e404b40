-- ===== src/Fw/Satisfaction.antt =====
-- What Data does to the PIT entries that it satisfies, and who receives it: fw/thread.go, processIncomingData.
use native.Mathlib.Decide.{ℕ_discrete}
use ya_nfd.Prelude.{
  ℕ, ◌≡◌, inl, inr, refl, sym, ap, ◌∙◌, Bool, true, false, not, none, some, List, [], ◌∷◌, ◌++◌,
  append_assoc, append-nil, map, ◌==◌, if◌then◌else◌, arith, Bool-cases, Option-cases,
}
use ya_nfd.Prelude.Assoc
use ya_nfd.Prelude.Assoc.{get-delete}
use ya_nfd.Packets.{Name, Data, PendingPacket, violates_scope}
use ya_nfd.Pit.{PitEntry, InRecord, find}
use ya_nfd.Fw.Tables.{PitCsTable, IsPitCsTable, Environment}
use ya_nfd.Fw.Thread.{Thread, faces_of, process_outgoing_data, send_data, send_data_each}

-- Whether Data under a name may go to a face: the face exists, and the name may pass it.
unfoldable pub deliverable : Environment → Name → ℕ → Bool
deliverable env name f = elim (env.get_face f) [
  | none ↦ false
  | some out ↦ not (violates_scope name out)
]

unfoldable pub deliverable_faces : Environment → Name → List ℕ → List ℕ
deliverable_faces env name [] = []
deliverable_faces env name (f ∷ fs) =
    let rest = deliverable_faces env name fs in if deliverable env name f then f ∷ rest else rest

-- The faces that Data was handed to, the latest last.
abbrev pub recipients : List (ℕ × PendingPacket Data) → List ℕ
recipients sent = map (λ x. x.0) sent

map-append :
    (xs ys : List (ℕ × PendingPacket Data)) → recipients (xs ++ ys) ≡ recipients xs ++ recipients ys
map-append [] ys = refl
map-append (x ∷ xs) ys = ap (λ r. x.0 ∷ r) (map-append xs ys)

-- The keys of a map that are still to be deleted.
unfoldable pub delete_each : List ℕ → List (ℕ × InRecord) → List (ℕ × InRecord)
delete_each [] m = m
delete_each (k ∷ ks) m = delete_each ks (Assoc.delete ℕ_discrete k m)

unfoldable pub has_face : ℕ → List ℕ → Bool
has_face j [] = false
has_face j (k ∷ ks) = if k == j then true else has_face j ks

pub faces_of-find :
    (j : ℕ) (m : List (ℕ × InRecord)) → has_face j (faces_of m) ≡ false → find j m ≡ none
unfolding has_face Assoc.get
faces_of-find j [] h = refl
faces_of-find j ((k, r) ∷ m) h = ground (arith, faces_of-find j m)

nothing_found : (m : List (ℕ × InRecord)) → ((j : ℕ) → find j m ≡ none) → m ≡ []
unfolding Assoc.get
nothing_found [] h = refl
nothing_found ((k, r) ∷ m) h = let e = h k in ground arith

pub delete_each-nothing :
    (ks : List ℕ) (m : List (ℕ × InRecord))
    → ((j : ℕ) → has_face j ks ≡ false → find j m ≡ none)
    → delete_each ks m ≡ []
unfolding delete_each has_face
delete_each-nothing [] m h = nothing_found m (λ j. h j refl)
delete_each-nothing (k ∷ ks) m h =
    delete_each-nothing ks (Assoc.delete ℕ_discrete k m)
      (λ j g. let e = get-delete ℕ_discrete k j m in let i = h j in ground arith)

delete_absent :
    (f : ℕ) (m : List (ℕ × InRecord)) → find f m ≡ none → Assoc.delete ℕ_discrete f m ≡ m
unfolding Assoc.get Assoc.delete
delete_absent f [] h = refl
delete_absent f ((k, r) ∷ m) h = ground (arith, delete_absent f m)

pub deliverable_faces-append :
    (env : Environment) (name : Name) (f : ℕ) (fs : List ℕ)
    → deliverable_faces env name (f ∷ []) ++ deliverable_faces env name fs
      ≡ deliverable_faces env name (f ∷ fs)
unfolding deliverable_faces
deliverable_faces-append env name f fs = ground arith

module _ {S D : Type 0} (table : PitCsTable S) (env : Environment) where
  pub outgoing_data-recipients :
      (t : Thread S D) (p : PendingPacket Data) (f : ℕ) (token : List ℕ) (in_face : ℕ)
      → recipients (process_outgoing_data table env t p f token in_face).0.sent_datas
        ≡ recipients t.sent_datas ++ deliverable_faces env p.packet.name (f ∷ [])
  unfolding process_outgoing_data deliverable_faces deliverable
  outgoing_data-recipients t p f token in_face = elim (Option-cases (env.get_face f)) [
    | inl n ↦ ground (arith, append-nil (recipients t.sent_datas))
    | inr (out, o) ↦ elim (Bool-cases (violates_scope p.packet.name out)) [
      | inl v ↦ ground (arith, append-nil (recipients t.sent_datas))
      | inr v ↦ rw (o, process_outgoing_data, deliverable_faces, deliverable, v, map-append)
    ]
  ]

  pub outgoing_data_table :
      (t : Thread S D) (p : PendingPacket Data) (f : ℕ) (token : List ℕ) (in_face : ℕ)
      → (process_outgoing_data table env t p f token in_face).0.pit_cs ≡ t.pit_cs
  unfolding process_outgoing_data
  outgoing_data_table t p f token in_face = ground arith

  pub outgoing_data_packet :
      (t : Thread S D) (p : PendingPacket Data) (f : ℕ) (token : List ℕ) (in_face : ℕ)
      → (process_outgoing_data table env t p f token in_face).1.packet ≡ p.packet
  unfolding process_outgoing_data
  outgoing_data_packet t p f token in_face = ground arith

  send_data-recipients :
      (t : Thread S D) (p : PendingPacket Data) (e f in_face : ℕ)
      → recipients (send_data table env t p e f in_face).0.sent_datas
        ≡ recipients t.sent_datas ++ deliverable_faces env p.packet.name (f ∷ [])
  unfolding send_data
  send_data-recipients t p e f in_face =
      elim (Option-cases (find f (table.entry t.pit_cs e).in_records)) [
        | inl n ↦ rw (n, send_data) (outgoing_data-recipients t p f [] in_face)
        | inr (r, o) ↦
            rw (o, send_data)
              (outgoing_data-recipients (record t { pit_cs = _ }) p f r.pit_token in_face)
      ]

  send_data_packet :
      (t : Thread S D) (p : PendingPacket Data) (e f in_face : ℕ)
      → (send_data table env t p e f in_face).1.packet ≡ p.packet
  unfolding send_data
  send_data_packet t p e f in_face =
      elim (Option-cases (find f (table.entry t.pit_cs e).in_records)) [
        | inl n ↦ rw (n, send_data) (outgoing_data_packet t p f [] in_face)
        | inr (r, o) ↦
            rw (o, send_data)
              (outgoing_data_packet (record t { pit_cs = _ }) p f r.pit_token in_face)
      ]

  pub send_data_each-recipients :
      (fs : List ℕ) (t : Thread S D) (p : PendingPacket Data) (e in_face : ℕ)
      → recipients (send_data_each table env t p e in_face fs).0.sent_datas
        ≡ recipients t.sent_datas ++ deliverable_faces env p.packet.name fs
  unfolding send_data_each deliverable_faces
  send_data_each-recipients [] t p e in_face = sym (append-nil (recipients t.sent_datas))
  send_data_each-recipients (f ∷ fs) t p e in_face =
      let (t', p') = send_data table env t p e f in_face in
      let first = send_data-recipients t p e f in_face in
      let rest = send_data_each-recipients fs t' p' e in_face in
      rest ∙ rw (first, send_data_packet t p e f in_face, append_assoc, deliverable_faces-append)

-- An entry with some of its in-records deleted.
abbrev pub without : PitEntry → List ℕ → PitEntry
without entry fs = record entry { in_records = delete_each fs entry.in_records }

module _ {S D : Type 0} (table : PitCsTable S) (laws : IsPitCsTable table) (env : Environment) where
  send_data_entry :
      (t : Thread S D) (p : PendingPacket Data) (e f in_face : ℕ)
      → table.entry (send_data table env t p e f in_face).0.pit_cs e
        ≡ without (table.entry t.pit_cs e) (f ∷ [])
  unfolding send_data delete_each
  send_data_entry t p e f in_face =
      let entry = table.entry t.pit_cs e in
      elim (Option-cases (find f entry.in_records)) [
        | inl n ↦ rw (n, send_data, outgoing_data_table, delete_absent f entry.in_records n) refl
        | inr (r, o) ↦ rw (o, send_data, outgoing_data_table, laws.entry-set_entry) refl
      ]

  pub send_data_each_entry :
      (fs : List ℕ) (t : Thread S D) (p : PendingPacket Data) (e in_face : ℕ)
      → table.entry (send_data_each table env t p e in_face fs).0.pit_cs e
        ≡ without (table.entry t.pit_cs e) fs
  unfolding send_data_each delete_each
  send_data_each_entry [] t p e in_face = refl
  send_data_each_entry (f ∷ fs) t p e in_face =
      let (t', p') = send_data table env t p e f in_face in
      send_data_each_entry fs t' p' e in_face ∙ rw (send_data_entry t p e f in_face) refl
