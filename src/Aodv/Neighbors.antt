-- ===== src/Aodv/Neighbors.antt =====
-- The active neighbours: java/main/osak/ext/ns3/aodv/Neighbors.java. `now` is the clock, still within
-- a call. An address object has a number, by which `==` compares it. A Neighbor is in the list once, so
-- `m_nb.remove(i)` takes out the one that the loop is at. The link failure callback gets the addresses
-- in `reported`; it does not call back. Null Times and headers are left out.
pub mod Started
use osak_ext_ns.Prelude.{
  ℕ, Bool, true, false, not, ◌&&◌, ◌||◌, Option, none, some, List, [], ◌∷◌, ◌++◌, length, ◌==◌,
  if◌then◌else◌,
}
use osak_ext_ns.Result.{Result, ok, fault, Fault, ◌>>=◌}
use osak_ext_ns.Bytes.{Ipv4Address}
use osak_ext_ns.Aodv.IdCache.{long_lt}
use osak_ext_ns.Aodv.RequestQueue.{AddressObject, object_number, same_reference}
use osak_ext_ns.Aodv.Time.{Times, in_ms, get_mill_seconds, add, sub, later, make}
use osak_ext_ns.Aodv.Timer.{Timer, new_timer, set_function, set_delay, cancel, schedule}
use osak_ext_ns.Aodv.ArpCache.{
  Arp, ArpCacheEntry, is_alive, is_permanent, is_entry_expired, lookup, no_mac, same_bytes,
  mac_convert_from, mac_copy_from,
}

pub record Neighbor : Type 0 where
  pub neighbor_address : Option AddressObject
  pub hardware_address : List ℕ
  pub expire_time : ℕ
  pub close : Bool

-- The object, the Times that are shared, and the calls of the link failure callback.
pub record Neighbors : Type 0 where
  pub nb : List Neighbor
  pub arp : List ℕ
  pub handle_link_failure : Bool
  pub timer : Timer
  pub times : Times
  pub reported : List (Option AddressObject)

-- `Neighbors(delay)`.
abbrev pub new_neighbors : ℕ → Times → Neighbors
new_neighbors delay ts =
    let (t, ts') = new_timer ts in
    record {
      nb = [];
      arp = [];
      handle_link_failure = false;
      timer = set_function (set_delay delay t);
      times = ts';
      reported = [];
    }

abbrev pub close_neighbor : ℕ → Times → Neighbor → Bool
close_neighbor now ts n = long_lt (get_mill_seconds (ts.at n.expire_time)) now || n.close

-- The first loop of `Purge`.
unfoldable pub closing : ℕ → Times → List Neighbor → List (Option AddressObject)
closing now ts [] = []
closing now ts (i ∷ is) =
    let others = closing now ts is in
    if close_neighbor now ts i then i.neighbor_address ∷ others else others

-- The second loop of `Purge`, which removes from the ArrayList that it walks. After a removal the
-- iterator stops if exactly one element is behind the removed one, and else `next()` throws.
unfoldable pub remove_closed : ℕ → Times → List Neighbor → Result (List Neighbor)
remove_closed now ts [] = ok []
remove_closed now ts (i ∷ is) =
    if close_neighbor now ts i
    then (if length is == 1 then ok is else fault Fault.concurrent_modification)
    else remove_closed now ts is >>= λ others. ok (i ∷ others)

-- `ScheduleTimer`, and the end of `Purge`.
unfoldable pub schedule_timer : Neighbors → Result Neighbors
schedule_timer n = do t ← cancel n.timer; t ← schedule n.times t; ok (record n { timer = t })

abbrev pub report : ℕ → Neighbors → Neighbors
report now n = record n {
  reported = if n.handle_link_failure then n.reported ++ closing now n.times n.nb else n.reported;
}

unfoldable pub purge_entries : ℕ → List Neighbor → Neighbors → Result Neighbors
purge_entries now [] n = ok n
purge_entries now (i ∷ is) n = do
  others ← remove_closed now n.times (i ∷ is)
  schedule_timer (record (report now n) { nb = others })

unfoldable pub purge : ℕ → Neighbors → Result Neighbors
purge now n = purge_entries now n.nb n

abbrev pub has_address : Option AddressObject → Neighbor → Bool
has_address addr i = same_reference (object_number i.neighbor_address) (object_number addr)

unfoldable pub find_neighbor : Option AddressObject → List Neighbor → Option Neighbor
find_neighbor addr [] = none
find_neighbor addr (i ∷ is) = if has_address addr i then some i else find_neighbor addr is

-- `Time.sub(i.m_expireTime, Time.Now())`, or a new Time of 0.
abbrev pub time_left : ℕ → Option Neighbor → Times → ℕ × Times
time_left now none ts = make (in_ms 0) ts
time_left now (some i) ts = sub i.expire_time (in_ms now) ts

unfoldable pub get_expire_time : ℕ → Option AddressObject → Neighbors → Result (ℕ × Neighbors)
get_expire_time now addr n = do
  m ← purge now n
  let (left, ts) = time_left now (find_neighbor addr m.nb) m.times
  ok (left, record m { times = ts })

unfoldable pub is_neighbor : ℕ → Option AddressObject → Neighbors → Result (Bool × Neighbors)
is_neighbor now addr n = do
  m ← purge now n
  ok (elim (find_neighbor addr m.nb) [ none ↦ false | some i ↦ true ], m)

-- An entry that `LookupMacAddress` takes.
abbrev pub is_usable : ℕ → Arp → Times → ArpCacheEntry → Bool
is_usable now a ts e = (is_alive e || is_permanent e) && not (is_entry_expired now a ts e)

abbrev pub address_value : Option AddressObject → Option Ipv4Address
address_value none = none
address_value (some a) = some a.address

unfoldable pub lookup_mac_address :
    ℕ → Arp → Times → Option AddressObject → List ℕ → Result (List ℕ)
lookup_mac_address now a ts addr [] = ok no_mac
lookup_mac_address now a ts addr (c ∷ cs) =
    let others = lookup_mac_address now a ts addr cs in
    elim (lookup (address_value addr) (a.cache c)) [
      | none ↦ others
      | some e ↦
          (if is_usable now a ts (a.entry e)
            then mac_convert_from (a.entry e).mac_address
            else others)
    ]

-- The two assignments of `Update` to the neighbour that it finds.
unfoldable pub refresh : ℕ → Arp → List ℕ → ℕ → Neighbor → Times → Result (Neighbor × Times)
refresh now a caches expire i ts = do
  let (t, ts') = add expire (in_ms now) ts
  let j : Neighbor = record i { expire_time = later t i.expire_time ts' }
  if same_bytes j.hardware_address no_mac
      then (lookup_mac_address now a ts' j.neighbor_address caches >>= λ mac.
          ok (record j { hardware_address = mac }, ts'))
      else ok (j, ts')

abbrev pub behind : Neighbor → Option (List Neighbor × Times) → Option (List Neighbor × Times)
behind i none = none
behind i (some (is, ts)) = some (i ∷ is, ts)

-- The loop of `Update`: the list after it returned, or none if no neighbour was found.
unfoldable pub refresh_first :
    ℕ
    → Arp
    → List ℕ
    → Option AddressObject
    → ℕ
    → List Neighbor
    → Times
    → Result (Option (List Neighbor × Times))
refresh_first now a caches addr expire [] ts = ok none
refresh_first now a caches addr expire (i ∷ is) ts =
    if has_address addr i
    then (refresh now a caches expire i ts >>= λ (j, ts'). ok (some (j ∷ is, ts')))
    else refresh_first now a caches addr expire is ts >>= λ found. ok (behind i found)

-- The end of `Update`.
unfoldable pub open_link : ℕ → Arp → Option AddressObject → ℕ → Neighbors → Result Neighbors
open_link now a addr expire n = do
  mac ← lookup_mac_address now a n.times addr n.arp
  let (t, ts) = add expire (in_ms now) n.times
  let neighbor : Neighbor = record {
    neighbor_address = addr;
    hardware_address = mac;
    expire_time = t;
    close = false;
  }
  purge now (record n { nb = n.nb ++ (neighbor ∷ []); times = ts })

abbrev pub end_update :
    ℕ
    → Arp
    → Option AddressObject
    → ℕ
    → Neighbors
    → Option (List Neighbor × Times)
    → Result Neighbors
end_update now a addr expire n none = open_link now a addr expire n
end_update now a addr expire n (some (nb, ts)) = ok (record n { nb = nb; times = ts })

-- `Update(addr, expire)`.
unfoldable pub update : ℕ → Arp → Option AddressObject → ℕ → Neighbors → Result Neighbors
update now a addr expire n =
    refresh_first now a n.arp addr expire n.nb n.times >>= end_update now a addr expire n

unfoldable pub clear : Neighbors → Neighbors
clear n = record n { nb = [] }

abbrev pub add_arp_cache : ℕ → Neighbors → Neighbors
add_arp_cache a n = record n { arp = n.arp ++ (a ∷ []) }

-- `m_arp.remove(a)`: the first one.
unfoldable pub remove_cache : ℕ → List ℕ → List ℕ
remove_cache a [] = []
remove_cache a (c ∷ cs) = if c == a then cs else c ∷ remove_cache a cs

abbrev pub del_arp_cache : ℕ → Neighbors → Neighbors
del_arp_cache a n = record n { arp = remove_cache a n.arp }

abbrev pub set_callback : Bool → Neighbors → Neighbors
set_callback cb n = record n { handle_link_failure = cb }

-- The loop of `ProcessTxError`.
unfoldable pub close_links : List ℕ → List Neighbor → List Neighbor
close_links mac [] = []
close_links mac (i ∷ is) =
    (if same_bytes i.hardware_address mac then record i { close = true } else i)
    ∷ close_links mac is

-- `ProcessTxError(hdr)`, of the bytes of `hdr.GetDstMac()`.
unfoldable pub process_tx_error : ℕ → List ℕ → Neighbors → Result Neighbors
process_tx_error now dst_mac n = do
  mac ← mac_copy_from dst_mac
  purge now (record n { nb = close_links mac n.nb })
