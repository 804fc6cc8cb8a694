-- ===== src/Aodv.antt =====
-- The Java port of AODV, java/main/osak/ext/ns3/aodv: its headers, cache of seen identifiers,
-- routing table, request queue and neighbours, with the times and timers of core/.
pub mod AddressMap
pub mod Types
pub mod Rreq
pub mod Rrep
pub mod Rerr
pub mod IdCache
pub mod Time
pub mod RoutingTable
pub mod RequestQueue
pub mod Timer
pub mod ArpCache
pub mod Neighbors
