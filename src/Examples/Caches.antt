-- ===== src/Examples/Caches.antt =====
-- Runs of the Java tables: the cache of identifiers, the request queue and the routing table.
use osak_ext_ns.Prelude.{
  ℕ, ◌≡◌, refl, arith, true, false, none, some, List, [], ◌∷◌, length, ◌==◌, All, if◌then◌else◌,
}
use osak_ext_ns.Result.{Result, ok, fault, Fault, ◌>>=◌}
use osak_ext_ns.Bytes.{ipv4, address_equals}
use osak_ext_ns.Aodv.AddressMap.{same_key}
use osak_ext_ns.Aodv.Time.{Times, in_ms, add_to, sub}
use osak_ext_ns.Aodv.IdCache.{UniqueId, IdCache, purge, new_cache}
use osak_ext_ns.Aodv.IdCache.Purge.{purge_first}
use osak_ext_ns.Aodv.IdCache.Window.{Query, run, asked, run-ideal}
use osak_ext_ns.Aodv.RequestQueue
use osak_ext_ns.Aodv.RequestQueue.{
  RequestQueue, Packet, AddressObject, Ipv4Header, QueueEntry, new_queue,
}
use osak_ext_ns.Aodv.RequestQueue.Bounded
use osak_ext_ns.Aodv.RequestQueue.Bounded.{
  Call, to_enqueue, to_dequeue, to_count, IsBounded, run-IsBounded,
}
use osak_ext_ns.Aodv.RequestQueue.Drift.{enqueue_drifts}
use osak_ext_ns.Aodv.RoutingTable
use osak_ext_ns.Aodv.RoutingTable.{
  RoutingTable, RoutingTableEntry, Ipv4Route, valid, lookup_valid_route,
}
use osak_ext_ns.Aodv.RoutingTable.Aging.{Aged, purge-Aged}
use osak_ext_ns.Aodv.RoutingTable.Lookup.{lookup_valid_route_twice}

-- Three questions within a lifetime of 3000, of which the last repeats the first.
abbrev asked_at : ℕ → ℕ → Query
asked_at t n = record { time = t; address = ipv4 1; number = n }

abbrev questions : List Query
questions = asked_at 1000 7 ∷ (asked_at 2000 8 ∷ (asked_at 3500 7 ∷ []))

run-ideal_example :
    (c : IdCache) × (run true questions (new_cache 3000) ≡ ok (false ∷ (false ∷ (true ∷ [])), c))
unfolding asked address_equals
run-ideal_example =
    run-ideal 1000 3000 true questions (omega arith)
      ((omega arith, omega arith), ((omega arith, omega arith), ((omega arith, omega arith), tt)))

abbrev seen_until : ℕ → UniqueId
seen_until expire = record { context = some (ipv4 1); uuid = none; id = expire; expire = expire }

abbrev cache : IdCache
cache = record {
  id_cache = seen_until 500 ∷ (seen_until 600 ∷ (seen_until 700 ∷ []));
  lifetime = 400;
}

purge_first_example : purge 550 cache ≡ fault Fault.concurrent_modification
purge_first_example =
    purge_first 550 cache [] (seen_until 500) (seen_until 600 ∷ (seen_until 700 ∷ [])) refl tt refl

-- Time 0 is a queue's timeout of 5 seconds, Time 1 a route's end of life.
abbrev clock : Times
clock = record { at = λ r. if r == 0 then in_ms 5000 else in_ms 9000; next = 2 }

abbrev waiting : ℕ → QueueEntry
waiting n = record {
  packet = some (record { number = n; uid = some n });
  header = some (record { destination = some (record { number = 4; address = ipv4 4 }) });
  unicast_forward_callback = true;
  error_callback = true;
  expire = 0;
}

abbrev calls : List Call
calls =
    to_enqueue 100 (waiting 1)
    ∷ (to_enqueue 200 (waiting 2) ∷ (to_dequeue 300 (some (ipv4 4)) ∷ []))

abbrev result_of : RequestQueue → Result RequestQueue → RequestQueue
result_of q (ok r) = r
result_of q (fault e) = q

abbrev start : RequestQueue
start = new_queue 1 0 clock

abbrev left : RequestQueue
left = result_of start (Bounded.run calls start)

calls_run : Bounded.run calls start ≡ ok left
unfolding Bounded.run Bounded.call RequestQueue.enqueue RequestQueue.purge RequestQueue.purge_rest
    RequestQueue.is_queued RequestQueue.admit RequestQueue.drop_first RequestQueue.drop_entry
    RequestQueue.dequeue RequestQueue.dequeue_rest RequestQueue.remove_entry
    RequestQueue.entry_equals RequestQueue.same_destination sub add_to ◌>>=◌ address_equals
calls_run = refl

run-IsBounded_example : IsBounded left
run-IsBounded_example = run-IsBounded 1 0 clock calls left (omega arith) calls_run

abbrev one_waiting : RequestQueue
one_waiting = record (new_queue 2 0 clock) { queue = waiting 1 ∷ [] }

other : RequestQueue.is_queued (waiting 2) one_waiting.queue ≡ ok false
unfolding RequestQueue.is_queued RequestQueue.same_destination ◌>>=◌
other = refl

-- With one entry the Time of 5000 stays.
enqueue_drifts_example :
    (r : RequestQueue) × (RequestQueue.enqueue 200 (waiting 2) one_waiting ≡ ok (true, r))
    × (length r.queue ≡ 2)
    × All (λ e. (r.times.at e.expire).value ≡ 5000) r.queue
enqueue_drifts_example =
    enqueue_drifts 200 5000 (waiting 2) one_waiting
      (record { bound = omega arith; positive = omega arith; shared = (refl, tt) })
      (record { reading = refl; made = omega arith }) (omega arith) (omega arith) (omega arith)
      other (omega arith)

-- A route to address 4 that lives until 9000, in a table with no other.
abbrev to_four : RoutingTableEntry
to_four = record {
  valid_seq_no = true;
  seq_no = 12;
  hops = 2;
  life_time = 1;
  ipv4_route = 0;
  iface = 0;
  flag = valid;
  precursor_list = 0;
  req_count = 0;
  black_list_state = false;
  black_list_timeout = 0;
  ack_timer = 0;
}

abbrev table : RoutingTable
table = record {
  times = clock;
  entries = λ r. to_four;
  routes = λ r. record { destination = some (ipv4 4); gateway = some 3 };
  precursors = λ r. [];
  ipv4_address_entry = (some (ipv4 4), 0) ∷ [];
  bad_link_lifetime = 0;
}

purge-Aged_example :
    (u : RoutingTable) × (RoutingTable.purge 6000 table ≡ ok u)
    × Aged 6000 table.ipv4_address_entry table u
purge-Aged_example = purge-Aged 6000 table ((refl, omega arith, refl), tt) (tt, tt)

same_address : same_key (some (ipv4 4)) (some (ipv4 4)) ≡ true
unfolding address_equals
same_address = refl

lookup_valid_route_twice_example :
    (u w : RoutingTable) × (lookup_valid_route 6000 (some (ipv4 4)) 5 table ≡ ok (true, u))
    × (lookup_valid_route 6100 (some (ipv4 4)) 5 u ≡ ok (false, w))
lookup_valid_route_twice_example =
    lookup_valid_route_twice 6000 6100 (some (ipv4 4)) (some (ipv4 4)) 5 0 9000 table
      (record { rows = refl; flag = refl; life_made = omega arith; life_value = refl }) same_address
      refl (omega arith) (omega arith) (omega arith) (omega arith)
