-- ===== src/Aodv/RoutingTable/Entries.antt =====
-- The setters of a routing table's entry, by its number, and the table's own Time.
use osak_ext_ns.Prelude.{ℕ, ◌+◌, ◌%◌, Bool, false, Option, [], update}
use osak_ext_ns.Bytes.{Ipv4Address}
use osak_ext_ns.Aodv.Time.{in_ms, add, make}
use osak_ext_ns.Aodv.RoutingTable.{RoutingTable, RouteFlags, valid, set_entry}

-- `RoutingTableEntry(dev, dst, vSeqNo, seqNo, iface, hops, nextHop, lifetime)`, as object `r` with a
-- new route, a new precursor list and a new blacklist Time, of these numbers. The static Time.add
-- changes the Time `lifetime` too.
unfoldable pub new_entry :
    (now r route precursor_list ack_timer : ℕ)
    → Option Ipv4Address
    → Bool
    → ℕ
    → ℕ
    → ℕ
    → Option ℕ
    → ℕ
    → RoutingTable
    → RoutingTable
new_entry now r route precursor_list ack_timer dst v_seq_no seq_no iface hops next_hop lifetime t =
    let (blacklist, ts) = make (in_ms now) t.times in
    let (life, us) = add lifetime (in_ms now) ts in
    set_entry r
      (record {
        valid_seq_no = v_seq_no;
        seq_no = seq_no;
        hops = hops;
        life_time = life;
        ipv4_route = route;
        iface = iface;
        flag = valid;
        precursor_list = precursor_list;
        req_count = 0;
        black_list_state = false;
        black_list_timeout = blacklist;
        ack_timer = ack_timer;
      })
      (record t {
        times = us;
        routes = update t.routes route (record { destination = dst; gateway = next_hop });
        precursors = update t.precursors precursor_list [];
      })

abbrev pub delete_all_precursors : ℕ → RoutingTable → RoutingTable
delete_all_precursors r t = record t {
  precursors = update t.precursors (t.entries r).precursor_list [];
}

abbrev pub set_route : ℕ → ℕ → RoutingTable → RoutingTable
set_route r route t = set_entry r (record (t.entries r) { ipv4_route = route }) t

-- The route is an object that copies of the entry share.
abbrev pub set_next_hop : ℕ → Option ℕ → RoutingTable → RoutingTable
set_next_hop r next_hop t =
    let route = (t.entries r).ipv4_route in
    record t { routes = update t.routes route (record (t.routes route) { gateway = next_hop }) }

abbrev pub set_interface : ℕ → ℕ → RoutingTable → RoutingTable
set_interface r iface t = set_entry r (record (t.entries r) { iface = iface }) t

abbrev pub set_valid_seq_no : ℕ → Bool → RoutingTable → RoutingTable
set_valid_seq_no r s t = set_entry r (record (t.entries r) { valid_seq_no = s }) t

abbrev pub set_seq_no : ℕ → ℕ → RoutingTable → RoutingTable
set_seq_no r sn t = set_entry r (record (t.entries r) { seq_no = sn }) t

abbrev pub set_hop : ℕ → ℕ → RoutingTable → RoutingTable
set_hop r hop t = set_entry r (record (t.entries r) { hops = hop }) t

abbrev pub set_flag : ℕ → RouteFlags → RoutingTable → RoutingTable
set_flag r flag t = set_entry r (record (t.entries r) { flag = flag }) t

abbrev pub set_rreq_cnt : ℕ → ℕ → RoutingTable → RoutingTable
set_rreq_cnt r n t = set_entry r (record (t.entries r) { req_count = n }) t

-- A byte, which wraps.
abbrev pub increment_rreq_cnt : ℕ → RoutingTable → RoutingTable
increment_rreq_cnt r t =
    set_entry r (record (t.entries r) { req_count = ((t.entries r).req_count + 1) % 256 }) t

abbrev pub set_unidirectional : ℕ → Bool → RoutingTable → RoutingTable
set_unidirectional r u t = set_entry r (record (t.entries r) { black_list_state = u }) t

abbrev pub set_blacklist_timeout : ℕ → ℕ → RoutingTable → RoutingTable
set_blacklist_timeout r timeout t =
    set_entry r (record (t.entries r) { black_list_timeout = timeout }) t

abbrev pub set_bad_link_lifetime : ℕ → RoutingTable → RoutingTable
set_bad_link_lifetime lifetime t = record t { bad_link_lifetime = lifetime }
