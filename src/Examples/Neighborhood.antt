-- ===== src/Examples/Neighborhood.antt =====
-- Runs of a neighbour list, whose timer was never started.
use osak_ext_ns.Prelude.{◌≡◌, refl, true, none, some, [], ◌==◌, if◌then◌else◌}
use osak_ext_ns.Result.{ok, fault, Fault}
use osak_ext_ns.Bytes.{ipv4}
use osak_ext_ns.Aodv.Time.{Times, in_ms}
use osak_ext_ns.Aodv.RequestQueue.{AddressObject}
use osak_ext_ns.Aodv.ArpCache.{Arp, new_arp_entry}
use osak_ext_ns.Aodv.Neighbors.{
  Neighbors, new_neighbors, add_arp_cache, set_callback, find_neighbor, purge_entries, purge,
  update,
}
use osak_ext_ns.Aodv.Neighbors.Started.{Call, IsUsed, IsIdle, IsUsed-IsIdle, update-throws}

-- Time 0 is the delay, 1 the end of a life, 2 that of another.
abbrev clock : Times
clock = record { at = λ r. if r == 1 then in_ms 900 else in_ms 5000; next = 3 }

abbrev fresh : Neighbors
fresh = new_neighbors 0 clock

abbrev prepared : Neighbors
prepared = set_callback true (add_arp_cache 8 fresh)

purged_once : purge 100 prepared ≡ ok prepared
unfolding purge purge_entries
purged_once = refl

prepared-IsUsed : IsUsed prepared
prepared-IsUsed =
    IsUsed.is_called prepared prepared
      (IsUsed.is_called (add_arp_cache 8 fresh) prepared
        (IsUsed.is_called fresh (add_arp_cache 8 fresh) (IsUsed.is_new 0 clock)
          (Call.adds_arp_cache 8 fresh))
        (Call.sets_callback true (add_arp_cache 8 fresh)))
      (Call.purges 100 prepared prepared purged_once)

IsUsed-IsIdle_example : IsIdle prepared
IsUsed-IsIdle_example = IsUsed-IsIdle prepared prepared-IsUsed

abbrev four : AddressObject
four = record { number = 4; address = ipv4 4 }

abbrev arp : Arp
arp = record {
  cache = λ c. record {
    arp_cache = [];
    alive_timeout = 0;
    dead_timeout = 0;
    wait_reply_timeout = 0;
    pending_queue_size = 3;
  };
  entry = λ e. new_arp_entry 8;
}

unknown : find_neighbor (some four) prepared.nb ≡ none
unfolding find_neighbor
unknown = refl

update-throws_example : (e : Fault) × (update 1000 arp (some four) 2 prepared ≡ fault e)
update-throws_example = update-throws 1000 arp (some four) 2 prepared refl unknown
