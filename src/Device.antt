-- ===== src/Device.antt =====
-- cpp/contrib/satellite/model/optical-device.h and optical-device.cc: the setters and getters of
-- class OpticalDevice and its link to a channel. What receives is in Device/Receive.antt, what sends
-- in Device/Transmit.antt (which stands on Channel.antt).
pub mod Frame
pub mod Receive
pub mod Transmit
pub mod Machine
pub mod Outcomes
use osak_ext_ns.Prelude.{ℕ, ◌%◌, ◌^◌, Bool, true, false, Option, none, some, is_some}
use osak_ext_ns.Result.{Result, ◌>>=◌, ◌>>◌, deref, check, ok}
use osak_ext_ns.Platform.{Platform}
use osak_ext_ns.World.{Device, World, Direction, TxMachineState, Signal, set_device, emit}

module _ {p : Platform} where
  -- The methods that override ns3::NetDevice.
  unfoldable pub set_if_index : ℕ → Device p → Device p
  set_if_index index d = record d { if_index = index }

  unfoldable pub get_if_index : Device p → ℕ
  get_if_index d = d.if_index

  unfoldable pub get_channel : Device p → Option ℕ
  get_channel d = d.channel

  unfoldable pub set_address : p.Address → Device p → Device p
  set_address a d = record d { address = p.convert_from a }

  unfoldable pub get_address : Device p → p.Address
  get_address d = p.to_address d.address

  unfoldable pub is_link_up : Device p → Bool
  is_link_up d = d.link_up

  -- The body is commented out in the source.
  unfoldable pub add_link_change_callback : Device p → Device p
  add_link_change_callback d = d

  unfoldable pub is_broadcast : Device p → Bool
  is_broadcast d = true

  unfoldable pub get_broadcast : Device p → p.Address
  get_broadcast d = p.to_address p.broadcast

  unfoldable pub is_multicast : Device p → Bool
  is_multicast d = false

  unfoldable pub get_multicast_ipv4 : ℕ → Device p → p.Address
  get_multicast_ipv4 group d = p.to_address (p.multicast_ipv4 group)

  unfoldable pub get_multicast_ipv6 : ℕ → Device p → p.Address
  get_multicast_ipv6 addr d = p.to_address (p.multicast_ipv6 addr)

  unfoldable pub is_point_to_point : Device p → Bool
  is_point_to_point d = false

  unfoldable pub is_bridge : Device p → Bool
  is_bridge d = false

  unfoldable pub get_node : Device p → Option ℕ
  get_node d = d.node

  -- `mobility_of` is `node->GetObject<MobilityModel>()`; the node is dereferenced.
  unfoldable pub set_node : (ℕ → Option p.Mobility) → Option ℕ → Device p → Result (Device p)
  set_node mobility_of node d = do
    n ← deref node
    check (is_some (mobility_of n))
    ok (record d { node = some n; mobility = mobility_of n })

  unfoldable pub needs_arp : Device p → Bool
  needs_arp d = false

  unfoldable pub set_receive_callback : Bool → Device p → Device p
  set_receive_callback cb d = record d { rx_callback = cb }

  unfoldable pub set_promisc_receive_callback : Bool → Device p → Device p
  set_promisc_receive_callback cb d = record d { promisc_callback = cb }

  unfoldable pub supports_send_from : Device p → Bool
  supports_send_from d = true

  -- A `uint16_t` argument.
  unfoldable pub set_mtu : ℕ → Device p → Bool × Device p
  set_mtu mtu d = (true, record d { mtu = mtu % 2 ^ 16 })

  -- The field has 32 bits, the result 16.
  unfoldable pub get_mtu : Device p → ℕ
  get_mtu d = d.mtu % 2 ^ 16

  unfoldable pub set_data_rate : p.DataRate → Device p → Device p
  set_data_rate bps d = record d { bps = bps }

  unfoldable pub set_queue : Option p.Queue → Device p → Device p
  set_queue q d = record d { queue = q }

  unfoldable pub get_queue : Device p → Option p.Queue
  get_queue d = d.queue

  unfoldable pub set_receive_error_model : Option ℕ → Device p → Device p
  set_receive_error_model em d = record d { receive_error_model = em }

  unfoldable pub get_mobility : Device p → Option p.Mobility
  get_mobility d = d.mobility

  -- The laser terminal.
  unfoldable pub get_is_initialized : Device p → Bool
  get_is_initialized d = d.initialized

  unfoldable pub set_direction : Direction → Device p → Device p
  set_direction dir d = record d { direction = dir; initialized = true }

  unfoldable pub get_direction : Device p → Direction
  get_direction d = d.direction

  open p.floats use {Real, lit, ◌⊗◌}

  unfoldable pub set_tx_power_dbm : Real → Device p → Device p
  set_tx_power_dbm v d = record d { tx_power_dbm = v }

  unfoldable pub get_tx_power_dbm : Device p → Real
  get_tx_power_dbm d = d.tx_power_dbm

  unfoldable pub set_rx_sensitivity_dbm : Real → Device p → Device p
  set_rx_sensitivity_dbm v d = record d { rx_sensitivity_dbm = v }

  unfoldable pub get_rx_sensitivity_dbm : Device p → Real
  get_rx_sensitivity_dbm d = d.rx_sensitivity_dbm

  -- In nanometres; kept in metres.
  unfoldable pub set_wave_length : Real → Device p → Device p
  set_wave_length wl d = record d { wave_length = ◌⊗◌ wl (lit 1 9) }

  unfoldable pub get_wave_length : Device p → Real
  get_wave_length d = ◌⊗◌ d.wave_length (lit 1_000_000_000 0)

  unfoldable pub set_tx_gain : Real → Device p → Device p
  set_tx_gain v d = record d { tx_gain = v }

  unfoldable pub get_tx_gain : Device p → Real
  get_tx_gain d = d.tx_gain

  unfoldable pub set_rx_gain : Real → Device p → Device p
  set_rx_gain v d = record d { rx_gain = v }

  unfoldable pub get_rx_gain : Device p → Real
  get_rx_gain d = d.rx_gain

  -- The link.
  unfoldable pub notify_link_up : ℕ → World p → World p
  notify_link_up d w =
      emit (Signal.link_change d) (set_device d (record (w.devices d) { link_up = true }) w)

  unfoldable pub attach : ℕ → ℕ → World p → World p
  attach d c w = notify_link_up d (set_device d (record (w.devices d) { channel = some c }) w)

  unfoldable pub detach : ℕ → World p → World p
  detach d w =
      emit (Signal.link_change d)
        (set_device d (record (w.devices d) { channel = none; link_up = false }) w)

  unfoldable pub set_link_down : ℕ → World p → World p
  set_link_down d w =
      emit (Signal.link_change d) (set_device d (record (w.devices d) { link_up = false }) w)

  -- What the device releases at the end of a simulation.
  unfoldable pub do_dispose : Device p → Device p
  do_dispose d = record d {
    node = none;
    receive_error_model = none;
    current_pkt = none;
    queue = none;
    channel = none;
    mobility = none;
  }

  -- A device as the constructor leaves it, with the attributes' default values for the MTU, the
  -- address and the data rate. What the source leaves uninitialised is an argument.
  unfoldable pub new_device : p.Mac → p.DataRate → ℕ → Direction → Device p
  new_device address bps if_index direction = record {
    tx_machine_state = TxMachineState.ready;
    bps = bps;
    queue = none;
    receive_error_model = none;
    node = none;
    channel = none;
    mobility = none;
    current_pkt = none;
    mtu = 1500;
    link_up = false;
    if_index = if_index;
    address = address;
    rx_callback = false;
    promisc_callback = false;
    initialized = false;
    direction = direction;
    tx_power_dbm = lit 20 0;
    rx_sensitivity_dbm = p.floats.neg (lit 40 0);
    wave_length = ◌⊗◌ (lit 1550 0) (lit 1 9);
    tx_gain = lit 110 0;
    rx_gain = lit 110 0;
  }
