-- ===== src/Inet.antt =====
-- Headers and addresses of the Java port of ns-3's internet stack, java/main/osak/ext/ns3/internet
-- and java/main/osak/ext/ns3/network.
pub mod Ipv4Header
pub mod ArpHeader
