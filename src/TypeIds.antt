-- ===== src/TypeIds.antt =====
-- The GetTypeId tables of cpp/contrib/satellite/model/optical-device.cc, optical-channel.cc and
-- satellite-mobility-model.cc: names, parents, attributes with their default values, trace sources.
use Prim.Native.String.{String}
use osak_ext_ns.Prelude.{ℕ, List, [], ◌∷◌}
use osak_ext_ns.World.{TraceSource}

-- The value of an attribute: a number, a MAC address or data rate as text, or a null pointer.
pub data AttributeValue : Type 0 where
  uinteger : ℕ → AttributeValue
  mac48_address : String → AttributeValue
  data_rate : String → AttributeValue
  null_pointer : AttributeValue

pub record TypeId : Type 0 where
  pub name : String
  pub parent : String
  pub group : String
  pub attributes : List (String × AttributeValue)
  pub trace_sources : List (String × TraceSource)

-- OpticalDevice::DEFAULT_MTU
abbrev pub default_mtu : ℕ
default_mtu = 1500

unfoldable pub optical_device_type_id : TypeId
optical_device_type_id = record {
  name = "ns3::OpticalDevice";
  parent = "ns3::NetDevice";
  group = "satellite";
  attributes =
      ("Mtu", AttributeValue.uinteger default_mtu)
      ∷ ("Address", AttributeValue.mac48_address "ff:ff:ff:ff:ff:ff")
      ∷ ("DataRate", AttributeValue.data_rate "32768b/s")
      ∷ ("ReceiveErrorModel", AttributeValue.null_pointer)
      ∷ ("TxQueue", AttributeValue.null_pointer)
      ∷ [];
  trace_sources =
      ("MacTx", TraceSource.mac_tx)
      ∷ ("MacTxDrop", TraceSource.mac_tx_drop)
      ∷ ("MacPromiscRx", TraceSource.mac_promisc_rx)
      ∷ ("MacRx", TraceSource.mac_rx)
      ∷ ("PhyTxBegin", TraceSource.phy_tx_begin)
      ∷ ("PhyTxEnd", TraceSource.phy_tx_end)
      ∷ ("PhyTxDrop", TraceSource.phy_tx_drop)
      ∷ ("PhyRxEnd", TraceSource.phy_rx_end)
      ∷ ("PhyRxDrop", TraceSource.phy_rx_drop)
      ∷ ("Sniffer", TraceSource.sniffer)
      ∷ ("PromiscSniffer", TraceSource.promisc_sniffer)
      ∷ [];
}

unfoldable pub optical_channel_type_id : TypeId
optical_channel_type_id = record {
  name = "ns3::OpticalChannel";
  parent = "ns3::Channel";
  group = "satellite";
  attributes = [];
  trace_sources = [];
}

unfoldable pub satellite_mobility_model_type_id : TypeId
satellite_mobility_model_type_id = record {
  name = "ns3::SatelliteMobilityModel";
  parent = "ns3::MobilityModel";
  group = "Mobility";
  attributes = [];
  trace_sources = [];
}
