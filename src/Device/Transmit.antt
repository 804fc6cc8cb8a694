-- ===== src/Device/Transmit.antt =====
-- OpticalDevice::Send, SendFrom, TransmitStart and TransmitComplete
-- (cpp/contrib/satellite/model/optical-device.cc).
use osak_ext_ns.Prelude.{
  ℕ, Bool, true, false, not, ◌||◌, Option, none, some, if◌then◌else◌, is_some,
}
use osak_ext_ns.Result.{Result, ok, ◌>>=◌, ◌>>◌, check, deref}
use osak_ext_ns.Platform.{Platform}
use osak_ext_ns.World.{
  World, TxMachineState, TraceSource, Signal, Event, set_device, emit, schedule,
}
use osak_ext_ns.Device.{is_link_up}
use osak_ext_ns.Device.Frame.{make_frame}
use osak_ext_ns.Channel.{DisconnectCallback}
use osak_ext_ns.Channel

abbrev pub is_ready : TxMachineState → Bool
is_ready TxMachineState.ready = true
is_ready TxMachineState.busy = false

module _ {p : Platform} where
  open p use {Packet, Mac, Address}

  abbrev pub traced : TraceSource → ℕ → Packet → World p → World p
  traced source d packet = emit (Signal.trace source d packet)

  -- The device is busy with the packet, and TransmitComplete is scheduled.
  unfoldable pub occupy : ℕ → Packet → ℕ → World p → World p
  occupy d packet tx_time w = schedule tx_time none (Event.transmit_complete d) (
      traced TraceSource.phy_tx_begin d packet (
        set_device d
          (record (w.devices d) {
            tx_machine_state = TxMachineState.busy;
            current_pkt = some packet;
          })
          w))

  unfoldable pub put_on_channel :
      DisconnectCallback p → ℕ → Packet → ℕ → Option ℕ → World p → Result (Bool × World p)
  put_on_channel on_disconnect d packet tx_time none w =
      ok (false, traced TraceSource.phy_tx_drop d packet w)
  put_on_channel on_disconnect d packet tx_time (some c) w =
      Channel.send on_disconnect c d packet tx_time w >>= λ sent.
      if sent.0
      then ok (true, sent.1)
      else ok (false, traced TraceSource.phy_tx_drop d packet sent.1)

  unfoldable pub transmit_start :
      DisconnectCallback p → ℕ → Packet → World p → Result (Bool × World p)
  transmit_start on_disconnect d packet w = do
    check (is_ready (w.devices d).tx_machine_state)
    let tx_time = p.calculate_bytes_tx_time (w.devices d).bps (p.get_size packet)
    put_on_channel on_disconnect d packet tx_time (w.devices d).channel (occupy d packet tx_time w)

  -- The next packet of the queue is sniffed and sent.
  unfoldable pub start_next : DisconnectCallback p → ℕ → Packet → World p → Result (Bool × World p)
  start_next on_disconnect d packet w =
      transmit_start on_disconnect d packet
        (traced TraceSource.promisc_sniffer d packet (traced TraceSource.sniffer d packet w))

  abbrev pub with_queue : ℕ → p.Queue → World p → World p
  with_queue d q w = set_device d (record (w.devices d) { queue = some q }) w

  -- The frame is queued, and taken out again if the device is free.
  unfoldable pub enqueue_frame :
      DisconnectCallback p → ℕ → Packet → World p → Result (Bool × World p)
  enqueue_frame on_disconnect d frame w = do
    q ← deref (w.devices d).queue
    let stored = p.enqueue frame q
    let w1 = with_queue d stored.1 w
    if stored.0
        then (if is_ready (w.devices d).tx_machine_state
            then (deref (p.dequeue stored.1).0 >>= λ next.
                start_next on_disconnect d next (with_queue d (p.dequeue stored.1).1 w1))
            else ok (true, w1))
        else ok (false, traced TraceSource.mac_tx_drop d frame w1)

  unfoldable pub send_from :
      DisconnectCallback p → ℕ → Packet → Address → Address → ℕ → World p → Result (Bool × World p)
  send_from on_disconnect d packet source dest protocol w = do
    check (p.is_matching_type dest)
    check (p.is_matching_type source)
    if not (is_link_up (w.devices d)) || not (is_some (w.devices d).channel)
        then ok (false, traced TraceSource.mac_tx_drop d packet w)
        else enqueue_frame on_disconnect d
            (make_frame p (p.convert_from source) (p.convert_from dest) protocol packet)
            (traced TraceSource.mac_tx d packet w)

  unfoldable pub send :
      DisconnectCallback p → ℕ → Packet → Address → ℕ → World p → Result (Bool × World p)
  send on_disconnect d packet dest protocol w =
      send_from on_disconnect d packet (p.to_address (w.devices d).address) dest protocol w

  -- The transmitter is free again, and its packet is forgotten.
  unfoldable pub release : ℕ → Packet → World p → World p
  release d packet w =
      let w1 : World p =
        set_device d (record (w.devices d) { tx_machine_state = TxMachineState.ready }) w in
      let w2 = traced TraceSource.phy_tx_end d packet w1 in
      set_device d (record (w2.devices d) { current_pkt = none }) w2

  -- The rest of TransmitComplete, with what the queue gave.
  unfoldable pub resume : DisconnectCallback p → ℕ → Option Packet → World p → Result (World p)
  resume on_disconnect d none w = ok w
  resume on_disconnect d (some packet) w = start_next on_disconnect d packet w >>= λ r. ok r.1

  unfoldable pub transmit_complete : DisconnectCallback p → ℕ → World p → Result (World p)
  transmit_complete on_disconnect d w = do
    check (not (is_ready (w.devices d).tx_machine_state))
    check (is_some (w.devices d).current_pkt)
    current ← deref (w.devices d).current_pkt
    let w1 = release d current w
    q ← deref (w1.devices d).queue
    resume on_disconnect d (p.dequeue q).0 (with_queue d (p.dequeue q).1 w1)
