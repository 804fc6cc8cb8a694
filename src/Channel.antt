-- ===== src/Channel.antt =====
-- cpp/contrib/satellite/model/optical-channel.h and optical-channel.cc: a channel between two devices.
pub mod Ends
pub mod Latitude
pub mod Temporary
pub mod Deliver
use osak_ext_ns.Prelude.{
  ℕ, zero, suc, ◌+◌, Bool, true, false, not, ◌&&◌, ◌||◌, Option, none, some, if◌then◌else◌, is_some,
  ◌==◌,
}
use osak_ext_ns.Result.{Result, ok, ◌>>=◌, ◌>>◌, deref, fault, Fault}
use osak_ext_ns.Floats.{Floats, Vector, get_length, max}
use osak_ext_ns.Platform.{Platform}
use osak_ext_ns.World.{Device, Channel, World, Event, Signal, set_channel, emit, schedule}
use osak_ext_ns.Device.{
  get_mobility, get_node, get_tx_power_dbm, get_tx_gain, get_rx_gain, get_wave_length,
  get_rx_sensitivity_dbm,
}
use osak_ext_ns.Device.Receive.{receive}

pub data ChannelType : Type 0 where
  forever temporary : ChannelType

-- The sine of a position's latitude.
unfoldable pub get_latitude : (fl : Floats) → Vector fl → fl.Real
get_latitude fl pos = fl.◌⊘◌ (fl.abs pos.z) (get_length fl pos)

-- Pointers are compared, null ones too.
abbrev pub same_pointer : Option ℕ → Option ℕ → Bool
same_pointer none none = true
same_pointer (some a) (some b) = a == b
same_pointer _ _ = false

-- What a channel calls when it breaks: the two devices and the channel.
abbrev pub DisconnectCallback : Platform → Type 0
DisconnectCallback p = ℕ → ℕ → ℕ → World p → Result (World p)

module _ {p : Platform} where
  infixl 65 ◌⊕◌ ◌⊖◌
  infixl 70 ◌⊗◌ ◌⊘◌
  open p use {Packet, floats.{Real, lit, ◌⊕◌, ◌⊖◌, ◌⊗◌, ◌⊘◌, lt, pi, sin, log10}}

  -- The constructor. `lat_limit` is not initialised by the source; `last_lat{-1}` sets the first
  -- entry only.
  unfoldable pub new_channel : Real → Channel p
  new_channel lat_limit = record {
    loss = p.default_loss;
    delay = p.default_delay;
    lat_limit = lat_limit;
    disconnect_cb = false;
    ready_break_cb = false;
    dev0 = none;
    dev1 = none;
    last0 = p.floats.neg (lit 1 0);
    last1 = lit 0 0;
    is_temporary = false;
    threshold = lit 3 0;
  }

  unfoldable pub set_type : ChannelType → Channel p → Channel p
  set_type ChannelType.temporary c = record c { is_temporary = true }
  set_type ChannelType.forever c = record c { is_temporary = false }

  unfoldable pub set_disconnect_callback : Bool → Channel p → Channel p
  set_disconnect_callback cb c = record c { disconnect_cb = cb }

  unfoldable pub set_ready_break_callback : Bool → Channel p → Channel p
  set_ready_break_callback cb c = record c { ready_break_cb = cb }

  unfoldable pub set_propagation_loss_model : p.LossModel → Channel p → Channel p
  set_propagation_loss_model loss c = record c { loss = loss }

  unfoldable pub set_propagation_delay_model : p.DelayModel → Channel p → Channel p
  set_propagation_delay_model delay c = record c { delay = delay }

  unfoldable pub set_latitude_limit : Real → Channel p → Channel p
  set_latitude_limit limit c = record c {
    lat_limit = sin (limit ⊗ pi ⊘ lit 180 0);
    threshold = sin ((limit ⊖ lit 3 0) ⊗ pi ⊘ lit 180 0);
  }

  unfoldable pub get_n_devices : Channel p → ℕ
  get_n_devices c = 2

  -- Above 1 the read is outside the array.
  unfoldable pub get_device : Channel p → ℕ → Result (Option ℕ)
  get_device c zero = ok c.dev0
  get_device c (suc zero) = ok c.dev1
  get_device c (suc (suc i)) = fault Fault.null_pointer

  -- The latitude of a device, through its mobility model.
  unfoldable pub device_latitude : Device p → ℕ → Result Real
  device_latitude d now = do
    m ← deref (get_mobility d)
    ok (get_latitude p.floats (p.get_position m now))

  -- OpticalChannel::Attach
  unfoldable pub attach : ℕ → ℕ → World p → Result (World p)
  attach c d w = do
    let ch = w.channels c
    lat ← device_latitude (w.devices d) w.now
    ok (
        set_channel c
          (if is_some ch.dev0
            then record ch { dev1 = some d; last1 = lat }
            else record ch { dev0 = some d; last0 = lat })
          w)

  -- OpticalChannel::Detach
  unfoldable pub detach : Channel p → Channel p
  detach c = record c { dev0 = none; dev1 = none; last0 = lit 0 0; last1 = lit 0 0 }

  unfoldable pub get_another : Channel p → ℕ → Option ℕ
  get_another c self = if same_pointer (some self) c.dev0 then c.dev1 else c.dev0

  unfoldable pub get_delay : Channel p → World p → Result ℕ
  get_delay c w = do
    d0 ← deref c.dev0
    d1 ← deref c.dev1
    m0 ← deref (get_mobility (w.devices d0))
    m1 ← deref (get_mobility (w.devices d1))
    ok (p.get_delay c.delay m0 m1 w.now)

  -- Whether a device climbs towards the limit, and is past the threshold.
  abbrev pub climbs : Channel p → Real → Real → Bool
  climbs c l0 l1 = (lt c.last0 l0 && lt c.threshold l0) || (lt c.last1 l1 && lt c.threshold l1)

  abbrev pub is_over : Channel p → Real → Real → Bool
  is_over c l0 l1 = lt c.lat_limit l0 || lt c.lat_limit l1

  -- The latitude check, once the two devices and their latitudes are known.
  unfoldable pub check_latitudes :
      DisconnectCallback p → ℕ → ℕ → ℕ → Real → Real → World p → Result (Bool × World p)
  check_latitudes on_disconnect c d0 d1 l0 l1 w =
      let ch = w.channels c in
      if is_over ch l0 l1
      then (if ch.disconnect_cb
          then (on_disconnect d0 d1 c w >>= λ w'. ok (false, w'))
          else ok (false, w))
      else (let w1 : World p =
            if climbs ch l0 l1 && ch.ready_break_cb
            then emit (Signal.ready_break c (ch.lat_limit ⊖ max p.floats l0 l1)) w
            else w in
          ok (true, set_channel c (record ch { last0 = l0; last1 = l1 }) w1))

  unfoldable pub latitude_check : DisconnectCallback p → ℕ → World p → Result (Bool × World p)
  latitude_check on_disconnect c w = do
    d0 ← deref (w.channels c).dev0
    l0 ← device_latitude (w.devices d0) w.now
    d1 ← deref (w.channels c).dev1
    l1 ← device_latitude (w.devices d1) w.now
    check_latitudes on_disconnect c d0 d1 l0 l1 w

  -- The receiver's node and the delay, and the event in the receiver's context.
  unfoldable pub schedule_receive :
      ℕ → ℕ → Option ℕ → Packet → ℕ → World p → Result (Bool × World p)
  schedule_receive c sender receiver packet tx_time w = do
    r ← deref receiver
    n ← deref (get_node (w.devices r))
    delay ← get_delay (w.channels c) w
    ok (true, schedule (delay + tx_time) (some n) (Event.channel_receive sender r packet) w)

  unfoldable pub send :
      DisconnectCallback p → ℕ → ℕ → Packet → ℕ → World p → Result (Bool × World p)
  send on_disconnect c sender packet tx_time w =
      let receiver = get_another (w.channels c) sender in
      if (w.channels c).is_temporary
      then (latitude_check on_disconnect c w >>= λ r.
          if r.0 then schedule_receive c sender receiver packet tx_time r.1 else ok (false, r.1))
      else schedule_receive c sender receiver packet tx_time w

  -- The Friis budget of OpticalChannel::Receive.
  unfoldable pub rx_power : Device p → Device p → Real → Real
  rx_power sender receiver dist =
      let tx = get_tx_power_dbm sender ⊕ get_tx_gain sender in
      let loss = lit 20 0 ⊗ log10 (get_wave_length sender ⊗ lit 1 9 ⊘ (lit 4 0 ⊗ pi ⊗ dist)) in
      tx ⊕ get_rx_gain receiver ⊕ loss

  -- OpticalChannel::Receive
  unfoldable pub channel_receive : ℕ → ℕ → Packet → World p → Result (World p)
  channel_receive sender receiver packet w = do
    m ← deref (get_mobility (w.devices sender))
    m' ← deref (get_mobility (w.devices receiver))
    let power = rx_power (w.devices sender) (w.devices receiver) (p.get_distance_from m m' w.now)
    let weak = lt power (get_rx_sensitivity_dbm (w.devices receiver))
    if weak then ok w else receive receiver packet w
