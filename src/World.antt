-- ===== src/World.antt =====
-- The state that the satellite modules share: cpp/contrib/satellite/model/optical-device.h (the fields
-- of a device), model/optical-channel.h (of a channel), helper/constellation-helper.h (the link lists),
-- and of ns-3 the clock and the list of scheduled events. Objects live in stores and are named by
-- numbers; a `Ptr` is an optional number. Calls of user callbacks and trace sources go into a log,
-- newest first.
use osak_ext_ns.Prelude.{ℕ, ◌+◌, Bool, Option, List, ◌∷◌, update}
use osak_ext_ns.Platform.{Platform}

pub data TxMachineState : Type 0 where
  ready busy : TxMachineState

pub data Direction : Type 0 where
  right left forward backward up down : Direction

pub data PacketType : Type 0 where
  host broadcast multicast other_host : PacketType

-- The trace sources that the device fires.
pub data TraceSource : Type 0 where
  mac_tx mac_tx_drop mac_promisc_rx mac_rx mac_rx_drop : TraceSource
  phy_tx_begin phy_tx_end phy_tx_drop phy_rx_end phy_rx_drop : TraceSource
  sniffer promisc_sniffer : TraceSource

-- What ConstellationHelper keeps to manage links. The head of `unused_link` is the vector's back;
-- the others are sets. `connect_cb` and `disconnect_cb` are whether the callbacks are set.
pub record Links : Type 0 where
  pub connect_cb : Bool
  pub disconnect_cb : Bool
  pub unused_link : List ℕ
  pub breaked_left : List ℕ
  pub breaked_right : List ℕ
  pub over_polar : List ℕ

module _ (p : Platform) where
  open p use {
    Packet,
    Mac,
    Queue,
    DataRate,
    Mobility,
    DelayModel,
    LossModel,
    ErrorModel,
    floats.{Real},
  }

  -- The fields of class OpticalDevice. A callback is whether it is set; `receive_error_model` names
  -- an error model, which devices share.
  pub record Device : Type 0 where
    pub tx_machine_state : TxMachineState
    pub bps : DataRate
    pub queue : Option Queue
    pub receive_error_model : Option ℕ
    pub node : Option ℕ
    pub channel : Option ℕ
    pub mobility : Option Mobility
    pub current_pkt : Option Packet
    pub mtu : ℕ
    pub link_up : Bool
    pub if_index : ℕ
    pub address : Mac
    pub rx_callback : Bool
    pub promisc_callback : Bool
    pub initialized : Bool
    pub direction : Direction
    pub tx_power_dbm : Real
    pub rx_sensitivity_dbm : Real
    pub wave_length : Real
    pub tx_gain : Real
    pub rx_gain : Real

  -- The fields of class OpticalChannel; `dev0`, `dev1` and `last0`, `last1` are the two arrays.
  pub record Channel : Type 0 where
    pub loss : LossModel
    pub delay : DelayModel
    pub lat_limit : Real
    pub disconnect_cb : Bool
    pub ready_break_cb : Bool
    pub dev0 : Option ℕ
    pub dev1 : Option ℕ
    pub last0 : Real
    pub last1 : Real
    pub is_temporary : Bool
    pub threshold : Real

  pub data Event : Type 0 where
    -- OpticalDevice::TransmitComplete of a device
    transmit_complete : ℕ → Event
    -- OpticalChannel::Receive(sender, receiver, packet)
    channel_receive : ℕ → ℕ → Packet → Event
    -- ConstellationHelper::LinkMaintenance
    link_maintenance : Event

  -- Time, context (the node, of ScheduleWithContext) and what is called.
  pub record Scheduled : Type 0 where
    pub time : ℕ
    pub context : Option ℕ
    pub event : Event

  pub data Signal : Type 0 where
    trace : TraceSource → ℕ → Packet → Signal
    link_change : ℕ → Signal
    receive_callback : ℕ → Packet → ℕ → Mac → Signal
    promisc_receive_callback : ℕ → Packet → ℕ → Mac → Mac → PacketType → Signal
    ready_break : ℕ → Real → Signal
    channel_connect : ℕ → ℕ → Signal
    channel_disconnect : ℕ → ℕ → ℕ → Signal

  pub record World : Type 0 where
    pub devices : ℕ → Device
    pub channels : ℕ → Channel
    pub error_models : ℕ → ErrorModel
    pub links : Links
    -- the mobility model that is aggregated to each node
    pub mobilities : ℕ → Option Mobility
    pub events : List Scheduled
    pub log : List Signal
    pub now : ℕ

module _ {p : Platform} where
  abbrev pub set_device : ℕ → Device p → World p → World p
  set_device d v w = record w { devices = update w.devices d v }

  abbrev pub set_channel : ℕ → Channel p → World p → World p
  set_channel c v w = record w { channels = update w.channels c v }

  abbrev pub emit : Signal p → World p → World p
  emit s w = record w { log = s ∷ w.log }

  -- Simulator::Schedule and Simulator::ScheduleWithContext
  abbrev pub schedule : ℕ → Option ℕ → Event p → World p → World p
  schedule delay context e w = record w {
    events = record { time = w.now + delay; context = context; event = e } ∷ w.events;
  }
