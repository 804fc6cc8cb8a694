-- ===== src/Platform.antt =====
-- What the satellite modules (cpp/contrib/satellite) call in ns-3, which is not part of the
-- repository: packets, Ethernet headers and trailers, MAC addresses, queues, data rates, error,
-- mobility, delay and loss models. Types and operations only; a theorem that relies on the documented
-- behaviour of one of them names it as a hypothesis. `Ptr<Packet>` is the packet's contents: the
-- sender does not touch a packet after it is queued, and a receiver works on its own copy.
-- Times are in nanoseconds.
use osak_ext_ns.Prelude.{ℕ, Bool, List, Option}
use osak_ext_ns.Floats.{Floats, Vector}

-- `ns3::EthernetHeader`: what the code sets and reads of it.
pub record EthernetHeader (Mac : Type 0) : Type 0 where
  pub source : Mac
  pub destination : Mac
  pub length_type : ℕ

pub record Platform : Type 1 where
  pub floats : Floats
  pub Packet : Type 0
  pub Mac : Type 0
  pub Address : Type 0
  pub Trailer : Type 0
  pub Queue : Type 0
  pub DataRate : Type 0
  pub ErrorModel : Type 0
  pub Mobility : Type 0
  pub DelayModel : Type 0
  pub LossModel : Type 0
  -- Packet
  pub get_size : Packet → ℕ
  pub create_packet : List ℕ → Packet
  pub add_at_end : Packet → Packet → Packet
  pub remove_at_end : ℕ → Packet → Packet
  pub add_header : EthernetHeader Mac → Packet → Packet
  pub remove_header : Packet → EthernetHeader Mac × Packet
  -- `RemoveHeader` of an LlcSnapHeader, and its type.
  pub remove_llc : Packet → ℕ × Packet
  -- `CalcFcs` and `CheckFcs` of an EthernetTrailer, after `EnableFcs` of the first argument.
  pub calc_fcs : Bool → Packet → Trailer
  pub check_fcs : Bool → Trailer → Packet → Bool
  pub add_trailer : Trailer → Packet → Packet
  pub remove_trailer : Packet → Trailer × Packet
  -- Node::ChecksumEnabled()
  pub checksum_enabled : Bool
  -- Mac48Address
  pub mac_eq : Mac → Mac → Bool
  pub is_broadcast : Mac → Bool
  pub is_group : Mac → Bool
  pub broadcast : Mac
  pub multicast_ipv4 : ℕ → Mac
  pub multicast_ipv6 : ℕ → Mac
  pub is_matching_type : Address → Bool
  pub convert_from : Address → Mac
  pub to_address : Mac → Address
  -- Queue<Packet>
  pub enqueue : Packet → Queue → Bool × Queue
  pub dequeue : Queue → Option Packet × Queue
  pub calculate_bytes_tx_time : DataRate → ℕ → ℕ
  pub is_corrupt : ErrorModel → Packet → Bool × ErrorModel
  -- MobilityModel, at the time `Simulator::Now()`
  pub get_position : Mobility → ℕ → Vector floats
  pub get_distance_from : Mobility → Mobility → ℕ → floats.Real
  pub default_loss : LossModel
  pub default_delay : DelayModel
  pub get_delay : DelayModel → Mobility → Mobility → ℕ → ℕ
