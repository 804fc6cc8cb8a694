-- ===== src/Aodv/RoutingTable.antt =====
-- The routing table: java/main/osak/ext/ns3/aodv/RoutingTable.java, its entries, RoutingTableEntry.java,
-- and RouteFlags.java. Entries, routes, precursor lists and Times are objects that are shared, so each
-- has a number; null entries and Times are left out. `now` is the clock, still within a call.
pub mod Entries
pub mod Aging
pub mod Lookup
use osak_ext_ns.Prelude.{
  ℕ, ◌+◌, ◌%◌, Bool, true, false, not, ◌&&◌, Option, none, some, List, [], ◌∷◌, ◌++◌, length, ltb,
  ◌==◌, if◌then◌else◌, update,
}
use osak_ext_ns.Result.{Result, ok, fault, Fault, ◌>>=◌}
use osak_ext_ns.Bytes.{Ipv4Address}
use osak_ext_ns.Aodv.AddressMap.{Entry, same_key, find, contains_key, put_entry, remove_key}
use osak_ext_ns.Aodv.Time.{Times, in_ms, add, sub, is_negative}

pub data RouteFlags : Type 0 where
  valid invalid in_search : RouteFlags

abbrev pub flag_number : RouteFlags → ℕ
flag_number valid = 0
flag_number invalid = 1
flag_number in_search = 2

abbrev pub same_flag : RouteFlags → RouteFlags → Bool
same_flag a b = flag_number a == flag_number b

-- What the table uses of an Ipv4Route: the destination, and which object the gateway is.
pub record Ipv4Route : Type 0 where
  pub destination : Option Ipv4Address
  pub gateway : Option ℕ

pub record RoutingTableEntry : Type 0 where
  pub valid_seq_no : Bool
  pub seq_no : ℕ
  pub hops : ℕ
  pub life_time : ℕ
  pub ipv4_route : ℕ
  pub iface : ℕ
  pub flag : RouteFlags
  pub precursor_list : ℕ
  pub req_count : ℕ
  pub black_list_state : Bool
  pub black_list_timeout : ℕ
  pub ack_timer : ℕ

-- The objects, the map from destinations to entries, and the table's Time.
pub record RoutingTable : Type 0 where
  pub times : Times
  pub entries : ℕ → RoutingTableEntry
  pub routes : ℕ → Ipv4Route
  pub precursors : ℕ → List (Option Ipv4Address)
  pub ipv4_address_entry : List Entry
  pub bad_link_lifetime : ℕ

abbrev pub set_entry : ℕ → RoutingTableEntry → RoutingTable → RoutingTable
set_entry r e t = record t { entries = update t.entries r e }

abbrev pub set_rows : List Entry → RoutingTable → RoutingTable
set_rows rows t = record t { ipv4_address_entry = rows }

-- `GetLifeTime()`: the new Time, whose subtraction changes the entry's own.
unfoldable pub get_life_time : ℕ → ℕ → RoutingTable → ℕ × RoutingTable
get_life_time now r t =
    let (s, ts) = sub (t.entries r).life_time (in_ms now) t.times in (s, record t { times = ts })

-- `SetLifeTime(lt)`.
unfoldable pub set_life_time : ℕ → ℕ → ℕ → RoutingTable → RoutingTable
set_life_time now r lt t =
    let (s, ts) = add lt (in_ms now) t.times in
    set_entry r (record (t.entries r) { life_time = s }) (record t { times = ts })

-- `Invalidate(badLinkLifetime)`.
unfoldable pub invalidate : ℕ → ℕ → ℕ → RoutingTable → RoutingTable
invalidate now r bad_link_lifetime t =
    if same_flag (t.entries r).flag invalid
    then t
    else let (s, ts) = add bad_link_lifetime (in_ms now) t.times in
      set_entry r (record (t.entries r) { flag = invalid; req_count = 0; life_time = s })
        (record t { times = ts })

unfoldable pub lookup_precursor : Option Ipv4Address → List (Option Ipv4Address) → Bool
lookup_precursor id [] = false
lookup_precursor id (p ∷ ps) = if same_key id p then true else lookup_precursor id ps

unfoldable pub insert_precursor : ℕ → Option Ipv4Address → RoutingTable → Bool × RoutingTable
insert_precursor r id t =
    let l = (t.entries r).precursor_list in
    let ps = t.precursors l in
    if lookup_precursor id ps
    then (false, t)
    else (true, record t { precursors = update t.precursors l (ps ++ (id ∷ [])) })

-- `remove(id)` of the list: the first occurrence.
unfoldable pub remove_first :
    Option Ipv4Address → List (Option Ipv4Address) → List (Option Ipv4Address)
remove_first id [] = []
remove_first id (p ∷ ps) = if same_key id p then ps else p ∷ remove_first id ps

unfoldable pub delete_precursor : ℕ → Option Ipv4Address → RoutingTable → Bool × RoutingTable
delete_precursor r id t =
    let l = (t.entries r).precursor_list in
    let ps = t.precursors l in
    if lookup_precursor id ps
    then (true, record t { precursors = update t.precursors l (remove_first id ps) })
    else (false, t)

-- `GetPrecursors(prec)`, for a list that is not the entry's own.
unfoldable pub get_precursors :
    List (Option Ipv4Address) → List (Option Ipv4Address) → List (Option Ipv4Address)
get_precursors [] prec = prec
get_precursors (p ∷ ps) prec =
    get_precursors ps (if lookup_precursor p prec then prec else prec ++ (p ∷ []))

-- `remove(key)` from the HashMap inside a for-each loop over its keys: the loop ends if the key was
-- the last, and else the iterator throws.
abbrev pub remove_in_loop : List Entry → Option Ipv4Address → RoutingTable → Result RoutingTable
remove_in_loop [] key t = ok (set_rows (remove_key key t.ipv4_address_entry) t)
remove_in_loop (row ∷ rows) key t = fault Fault.concurrent_modification

-- The rounds of `Purge`, for the keys that are still to come.
unfoldable pub purge_rows : ℕ → List Entry → RoutingTable → Result RoutingTable
purge_rows now [] t = ok t
purge_rows now ((key, r) ∷ rows) t =
    let (s, u) = get_life_time now r t in
    if is_negative (u.times.at s).value
    then elim (u.entries r).flag [
      | invalid ↦ remove_in_loop rows key u
      | valid ↦ purge_rows now rows (invalidate now r u.bad_link_lifetime u)
      | in_search ↦ purge_rows now rows u
    ]
    else purge_rows now rows u

unfoldable pub purge : ℕ → RoutingTable → Result RoutingTable
purge now t = purge_rows now t.ipv4_address_entry t

abbrev pub destination : ℕ → RoutingTable → Option Ipv4Address
destination r t = (t.routes (t.entries r).ipv4_route).destination

-- `if (r.GetFlag() != IN_SEARCH) r.SetRreqCnt(0)`.
abbrev pub settle : ℕ → RoutingTable → RoutingTable
settle r t =
    if same_flag (t.entries r).flag in_search
    then t
    else set_entry r (record (t.entries r) { req_count = 0 }) t

unfoldable pub add_route : ℕ → ℕ → RoutingTable → Result (Bool × RoutingTable)
add_route now r t = do
  t ← purge now t
  ok (true, set_rows (put_entry (destination r t) r t.ipv4_address_entry) (settle r t))

unfoldable pub delete_route : ℕ → Option Ipv4Address → RoutingTable → Result (Bool × RoutingTable)
delete_route now dst t = do
  t ← purge now t
  ok (contains_key dst t.ipv4_address_entry, set_rows (remove_key dst t.ipv4_address_entry) t)

-- `rt.Copy(o)` copies every field, references included.
abbrev pub copy : ℕ → Option ℕ → RoutingTable → Bool × RoutingTable
copy rt none t = (false, t)
copy rt (some r) t = (true, set_entry rt (t.entries r) t)

unfoldable pub lookup_route :
    ℕ → Option Ipv4Address → ℕ → RoutingTable → Result (Bool × RoutingTable)
lookup_route now dst rt t = do t ← purge now t; ok (copy rt (find dst t.ipv4_address_entry) t)

unfoldable pub lookup_valid_route :
    ℕ → Option Ipv4Address → ℕ → RoutingTable → Result (Bool × RoutingTable)
lookup_valid_route now dst rt t = do
  (found, t) ← lookup_route now dst rt t
  ok (found && same_flag (t.entries rt).flag valid, t)

unfoldable pub update_route : ℕ → RoutingTable → Bool × RoutingTable
update_route rt t =
    if contains_key (destination rt t) t.ipv4_address_entry
    then (true, set_rows (put_entry (destination rt t) rt t.ipv4_address_entry) (settle rt t))
    else (false, t)

unfoldable pub set_entry_state :
    Option Ipv4Address → RouteFlags → RoutingTable → Bool × RoutingTable
set_entry_state dst state t = elim (find dst t.ipv4_address_entry) [
  | none ↦ (false, t)
  | some r ↦ (true, set_entry r (record (t.entries r) { flag = state; req_count = 0 }) t)
]

-- The gateway is compared as a reference.
abbrev pub same_gateway : Option ℕ → Option ℕ → Bool
same_gateway none none = true
same_gateway (some a) (some b) = a == b
same_gateway a b = false

unfoldable pub unreachable_rows : Option ℕ → RoutingTable → List Entry → List Entry → List Entry
unreachable_rows next_hop t [] unreachable = unreachable
unreachable_rows next_hop t ((key, r) ∷ rows) unreachable = unreachable_rows next_hop t rows (
    if same_gateway (t.routes (t.entries r).ipv4_route).gateway next_hop
    then put_entry key (t.entries r).seq_no unreachable
    else unreachable)

unfoldable pub get_list_of_destination_with_next_hop :
    ℕ → Option ℕ → List Entry → RoutingTable → Result (List Entry × RoutingTable)
get_list_of_destination_with_next_hop now next_hop unreachable t = do
  t ← purge now t
  ok (unreachable_rows next_hop t t.ipv4_address_entry unreachable, t)

-- `put` of a key that is there does not disturb the iterator.
unfoldable pub invalidate_rows : ℕ → List Entry → List Entry → RoutingTable → RoutingTable
invalidate_rows now unreachable [] t = t
invalidate_rows now unreachable ((key, r) ∷ rows) t = invalidate_rows now unreachable rows (
    if contains_key key unreachable && same_flag (t.entries r).flag valid
    then invalidate now r t.bad_link_lifetime t
    else t)

unfoldable pub invalidate_routes_with_dst : ℕ → List Entry → RoutingTable → Result RoutingTable
invalidate_routes_with_dst now unreachable t = do
  t ← purge now t
  ok (invalidate_rows now unreachable t.ipv4_address_entry t)

unfoldable pub delete_rows_from_interface : ℕ → List Entry → RoutingTable → Result RoutingTable
delete_rows_from_interface iface [] t = ok t
delete_rows_from_interface iface ((key, r) ∷ rows) t =
    if (t.entries r).iface == iface
    then remove_in_loop rows key t
    else delete_rows_from_interface iface rows t

unfoldable pub delete_all_routes_from_interface : ℕ → RoutingTable → Result RoutingTable
delete_all_routes_from_interface iface t = delete_rows_from_interface iface t.ipv4_address_entry t

unfoldable pub clear : RoutingTable → RoutingTable
clear t = set_rows [] t

unfoldable pub mark_link_as_unidirectional :
    Option Ipv4Address → ℕ → RoutingTable → Bool × RoutingTable
mark_link_as_unidirectional neighbor blacklist_timeout t =
    elim (find neighbor t.ipv4_address_entry) [
      | none ↦ (false, t)
      | some r ↦ (
        true,
        set_entry r
            (record (t.entries r) {
              black_list_state = true;
              black_list_timeout = blacklist_timeout;
              req_count = 0;
            })
            t,
      )
    ]
