-- ===== src/Device/Receive.antt =====
-- OpticalDevice::Receive (cpp/contrib/satellite/model/optical-device.cc).
use osak_ext_ns.Prelude.{ℕ, Bool, true, false, not, Option, none, some, if◌then◌else◌, update}
use osak_ext_ns.Result.{Result, ok, ◌>>=◌, Fault, fault}
use osak_ext_ns.Platform.{Platform, EthernetHeader}
use osak_ext_ns.World.{World, PacketType, TraceSource, Signal, emit}
use osak_ext_ns.Device.{is_link_up}
use osak_ext_ns.Device.Frame.{read_protocol, packet_type}

abbrev pub is_other_host : PacketType → Bool
is_other_host PacketType.other_host = true
is_other_host _ = false

module _ {p : Platform} where
  open p use {Packet, Mac}

  -- `m_receiveErrorModel && m_receiveErrorModel->IsCorrupt(copy)`, with the error model's new state.
  unfoldable pub corrupts : Option ℕ → Packet → World p → Bool × World p
  corrupts none copy w = (false, w)
  corrupts (some em) copy w =
      let r = p.is_corrupt (w.error_models em) copy in
      (r.0, record w { error_models = update w.error_models em r.1 })

  -- The two callbacks and their traces.
  unfoldable pub hand_up :
      ℕ → Packet → EthernetHeader Mac → ℕ → Packet → PacketType → World p → Result (World p)
  hand_up d packet header protocol copy kind w =
      let dev = w.devices d in
      let w1 : World p = emit (Signal.trace TraceSource.promisc_sniffer d packet) w in
      let w2 : World p =
        if dev.promisc_callback
        then emit
            (Signal.promisc_receive_callback d copy protocol header.source header.destination kind)
            (emit (Signal.trace TraceSource.mac_promisc_rx d packet) w1)
        else w1 in
      let w3 : World p =
        emit (Signal.trace TraceSource.sniffer d packet)
          (emit (Signal.trace TraceSource.mac_rx d packet) w2) in
      if is_other_host kind
      then ok w2
      else (if dev.rx_callback
          then ok (emit (Signal.receive_callback d copy protocol header.source) w3)
          else fault Fault.null_callback)

  -- What follows a good checksum.
  unfoldable pub deliver : ℕ → Packet → Packet → World p → Result (World p)
  deliver d packet copy w = do
    let header = (p.remove_header copy).0
    let body = (p.remove_header copy).1
    read ← read_protocol p header body
    hand_up d packet header read.0 read.1 (packet_type p (w.devices d) header.destination) w

  unfoldable pub receive : ℕ → Packet → World p → Result (World p)
  receive d packet w =
      if not (is_link_up (w.devices d))
      then ok (emit (Signal.trace TraceSource.mac_rx_drop d packet) w)
      else (let w1 : World p = emit (Signal.trace TraceSource.phy_rx_end d packet) w in
          let tested = corrupts (w.devices d).receive_error_model packet w1 in
          let drop = ok (emit (Signal.trace TraceSource.phy_rx_drop d packet) tested.1) in
          let split = p.remove_trailer packet in
          if tested.0
          then drop
          else (if p.check_fcs p.checksum_enabled split.0 split.1
              then deliver d packet split.1 tested.1
              else drop))
