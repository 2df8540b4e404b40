-- ===== src/Fw/Tests.antt =====
-- A thread with one PIT entry, three faces and two next hops.
use native.Mathlib.Decide.{ℕ_discrete}
use ya_nfd.Prelude.{
  ℕ, ◌≡◌, ◌⊎◌, ◌≤◌, refl, true, false, Option, none, some, List, [], ◌∷◌, ◌++◌, map, All, ◌==◌,
  if◌then◌else◌, arith, Extends,
}
use ya_nfd.Prelude.Assoc
use ya_nfd.Packets.{
  Name, Interest, Data, PendingPacket, Scope, LinkType, Face, is_localhost, violates_scope,
  is_non_local, is_ad_hoc,
}
use ya_nfd.Name.{same_name}
use ya_nfd.Pit.{PitEntry, InRecord, OutRecord, find, update_expiration_time, insert_out_record}
use ya_nfd.Pit.Records.{update_expiration_time-latest}
use ya_nfd.Fib.Hops.{NextHop}
use ya_nfd.Fw.Tables.{Strategy, Environment}
use ya_nfd.Fw.Thread.{
  Thread, faces_of, after_receive_interest, send_first, process_outgoing_interest, out_of_hops,
  after_receive_data, send_data_each, send_data, process_outgoing_data,
}
use ya_nfd.Fw.Incoming.{
  expire_now, process_incoming_interest, process_incoming_data, satisfy_one, satisfy_among,
  entry_token,
}
use ya_nfd.Fw.Interests.{
  usable, usable_hops, sent_to, IsCheapest, multicast-usable_hops, best_route-IsCheapest,
}
use ya_nfd.Fw.Scopes.{InScope, RunsAdding, incoming_data-RunsAdding}
use ya_nfd.Fw.Admissions.{IsLegal, incoming_interest-IsLegal}
use ya_nfd.Fw.Satisfaction.{deliverable_faces}
use ya_nfd.Fw.Downstreams.{
  others, Satisfies, satisfy_one-Satisfies, satisfy_among-Satisfies, satisfy_one-nonces,
}
use ya_nfd.Fw.Small.{
  Entries, small_table, small_table-IsPitCsTable, small_nonces, small_nonces-IsDeadNonceList,
  sort_by_cost, sort_by_cost-IsSorting,
}

-- Face 1 is local; faces 2 and 3 are not.
abbrev small_faces : ℕ → Option Face
small_faces f =
    if f == 1
    then some (record { face_id = 1; scope = Scope.local; link_type = LinkType.point_to_point })
    else if f == 2
    then some (record { face_id = 2; scope = Scope.non_local; link_type = LinkType.point_to_point })
    else if f == 3
    then some (record { face_id = 3; scope = Scope.non_local; link_type = LinkType.multi_access })
    else none

abbrev two_hops : List NextHop
two_hops = record { nexthop = 3; cost = 20 } ∷ record { nexthop = 1; cost = 10 } ∷ []

abbrev small_environment : Environment
small_environment = record {
  thread_id = 0;
  now = 1000;
  get_face = small_faces;
  find_next_hops = λ n. two_hops;
  find_strategy = λ n. none;
  hash = λ n. 5;
  strategies = (5, Strategy.best_route) ∷ [];
  is_producer = λ n. false;
  sort_hops = sort_by_cost;
}

abbrev short_name : Name
short_name = record { typ = 8; val = 0x61 ∷ [] } ∷ []

abbrev interest : PendingPacket Interest
interest = record {
  pit_token = [];
  incoming_face_id = some 2;
  next_hop_face_id = none;
  name_cache = 0x2F ∷ 0x61 ∷ [];
  packet = record {
    name = short_name;
    can_be_prefix = false;
    must_be_fresh = false;
    nonce = some 77;
    hop_limit = some 4;
    forwarding_hint = none;
  };
}

abbrev content : PendingPacket Data
content = record {
  pit_token = [];
  incoming_face_id = some 1;
  next_hop_face_id = none;
  name_cache = 0x2F ∷ 0x61 ∷ [];
  packet = record { name = short_name; freshness_period = none };
}

abbrev in_record : InRecord
in_record = record {
  face = 2;
  latest_timestamp = 900;
  latest_interest = interest;
  latest_nonce = 77;
  expiration_time = 5000;
  pit_token = 1 ∷ 2 ∷ [];
}

abbrev out_record : OutRecord
out_record = record {
  face = 1;
  latest_timestamp = 900;
  latest_interest = interest;
  latest_nonce = 77;
  expiration_time = 5000;
}

abbrev pending_entry : PitEntry
pending_entry = record {
  name = short_name;
  can_be_prefix = false;
  must_be_fresh = false;
  forwarding_hint = none;
  in_records = (2, in_record) ∷ [];
  out_records = (1, out_record) ∷ [];
  expiration_time = 5000;
  satisfied = false;
  token = 9;
}

abbrev small_thread : Thread Entries (List ℕ)
small_thread = record {
  pit_cs = λ e. pending_entry;
  dead_nonce_list = [];
  sent_interests = [];
  sent_datas = [];
  n_in_interests = 0;
  n_in_data = 0;
  n_out_interests = 0;
  n_out_data = 0;
  n_satisfied_interests = 0;
  n_unsatisfied_interests = 0;
}

program : Unit {0}
unfolding after_receive_interest send_first process_outgoing_interest out_of_hops is_non_local
    is_ad_hoc insert_out_record satisfy_one expire_now after_receive_data send_data_each send_data
    process_outgoing_data violates_scope is_localhost same_name Assoc.get Assoc.put Assoc.delete
    ℕ_discrete
program = tt

-- Nonce 77 goes to the cheaper hop, and Data goes back to face 2.
interest_run :
    map
      (λ x. x.0)
      (after_receive_interest small_table small_environment Strategy.best_route small_thread
        interest 77 0 2 two_hops).sent_interests
    ≡ 1 ∷ []
unfolding program
interest_run = refl

data_run :
    map
      (λ x. x.0)
      (satisfy_one small_table small_nonces small_environment small_thread content 0 1
        Strategy.best_route).sent_datas
    ≡ 2 ∷ []
unfolding program
data_run = refl

update_expiration_time-latest_example :
    (1000 ≤ (update_expiration_time pending_entry 1000).expiration_time)
    × ((r : InRecord)
        → find 2 pending_entry.in_records ≡ some r
        → r.expiration_time ≤ (update_expiration_time pending_entry 1000).expiration_time)
    × ((r : OutRecord)
        → find 2 pending_entry.out_records ≡ some r
        → r.expiration_time ≤ (update_expiration_time pending_entry 1000).expiration_time)
update_expiration_time-latest_example = update_expiration_time-latest pending_entry 1000 2

multicast-usable_hops_example :
    (after_receive_interest small_table small_environment Strategy.multicast small_thread interest
      77 0 2 two_hops).sent_interests
    ≡ []
      ++ sent_to small_table small_environment small_thread interest 0 2
          (usable_hops small_environment interest 2 two_hops)
multicast-usable_hops_example =
    multicast-usable_hops small_table small_table-IsPitCsTable small_environment small_thread
      interest 77 0 2 two_hops

best_route-IsCheapest_example :
    ((after_receive_interest small_table small_environment Strategy.best_route small_thread interest
          77 0 2 two_hops).sent_interests
        ≡ []
      × All (λ x. usable small_environment interest 2 x ≡ false) two_hops)
    ⊎ ((h : NextHop) × ((after_receive_interest small_table small_environment Strategy.best_route
            small_thread interest 77 0 2 two_hops).sent_interests
          ≡ [] ++ sent_to small_table small_environment small_thread interest 0 2 (h ∷ []))
        × IsCheapest small_environment interest 2 two_hops h)
best_route-IsCheapest_example =
    best_route-IsCheapest small_table small_table-IsPitCsTable small_environment small_thread
      interest 77 0 2 two_hops sort_by_cost-IsSorting

chosen_strategy : Assoc.get ℕ_discrete 5 small_environment.strategies ≡ some Strategy.best_route
unfolding Assoc.get ℕ_discrete
chosen_strategy = refl

no_token : entry_token [] ≡ some none
unfolding entry_token
no_token = refl

incoming_data-RunsAdding_example :
    RunsAdding small_table small_nonces small_environment small_thread
      (process_incoming_data small_table small_nonces small_environment small_thread content)
incoming_data-RunsAdding_example =
    incoming_data-RunsAdding small_table small_nonces small_environment small_thread content none
      Strategy.best_route no_token (λ e. ground arith) chosen_strategy

incoming_interest-IsLegal_example :
    (t' : Thread Entries (List ℕ)) × (process_incoming_interest small_table small_nonces
        small_environment small_thread interest
      ≡ some t')
    × Extends (λ x. IsLegal small_environment interest 2 x.0 x.1) [] t'.sent_interests
    × Extends (InScope small_environment) [] t'.sent_datas
incoming_interest-IsLegal_example =
    incoming_interest-IsLegal small_table small_table-IsPitCsTable small_nonces small_environment
      small_thread interest 2 77 Strategy.best_route refl refl refl chosen_strategy

satisfy_one-Satisfies_example :
    Satisfies small_table small_environment small_thread
      (satisfy_one small_table small_nonces small_environment small_thread content 0 1
        Strategy.best_route)
      0
      (deliverable_faces small_environment short_name (2 ∷ []))
satisfy_one-Satisfies_example =
    satisfy_one-Satisfies small_table small_table-IsPitCsTable small_nonces small_environment
      small_thread content 0 1 Strategy.best_route

satisfy_among-Satisfies_example :
    Satisfies small_table small_environment small_thread
      (satisfy_among small_table small_nonces small_environment small_thread content 0 0 1).0
      0
      (deliverable_faces small_environment short_name
        (others 1 (faces_of pending_entry.in_records)))
satisfy_among-Satisfies_example =
    satisfy_among-Satisfies small_table small_table-IsPitCsTable small_nonces small_environment
      small_thread content 0 0 1

out_record_found : find 1 pending_entry.out_records ≡ some out_record
unfolding Assoc.get ℕ_discrete
out_record_found = refl

satisfy_one-nonces_example :
    small_nonces.find
      (satisfy_one small_table small_nonces small_environment small_thread content 0 1
        Strategy.best_route).dead_nonce_list
      short_name
      77
    ≡ true
satisfy_one-nonces_example =
    satisfy_one-nonces small_table small_table-IsPitCsTable small_nonces
      small_nonces-IsDeadNonceList small_environment small_thread content 0 1 Strategy.best_route 1
      out_record out_record_found
