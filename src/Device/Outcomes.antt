-- ===== src/Device/Outcomes.antt =====
-- What OpticalDevice::Receive and SendFrom do on each branch
-- (cpp/contrib/satellite/model/optical-device.cc).
use osak_ext_ns.Prelude.{ℕ, ◌<◌, ◌≡◌, Bool, true, false, none, some, arith, if◌then◌else◌, ◌⊎◌}
use osak_ext_ns.Result.{ok, ◌>>=◌}
use osak_ext_ns.Platform.{Platform, EthernetHeader}
use osak_ext_ns.World.{World, PacketType, TraceSource, TxMachineState, Signal, emit}
use osak_ext_ns.Channel.{DisconnectCallback}
use osak_ext_ns.Device.{is_link_up}
use osak_ext_ns.Device.Frame.{make_frame, pad, read_protocol, packet_type}
use osak_ext_ns.Device.Receive.{receive, corrupts, deliver, hand_up, is_other_host}
use osak_ext_ns.Device.Transmit.{send_from, enqueue_frame, start_next, with_queue, traced}

-- The documented behaviour of ns-3's trailers and headers: what was added last is removed first, and
-- a checksum that was just computed is good.
pub record IsFraming (p : Platform) : Type 0 where
  pub trailer : (t : p.Trailer) (q : p.Packet) → p.remove_trailer (p.add_trailer t q) ≡ (t, q)
  pub fcs : (b : Bool) (q : p.Packet) → p.check_fcs b (p.calc_fcs b q) q ≡ true
  pub header :
      (h : EthernetHeader p.Mac) (q : p.Packet) → p.remove_header (p.add_header h q) ≡ (h, q)

-- The header that SendFrom writes.
abbrev pub header_of : {M : Type 0} → M → M → ℕ → EthernetHeader M
header_of from to protocol = record { source = from; destination = to; length_type = protocol }

module _ {p : Platform} where
  open p use {Packet, Mac, Address}

  deliver-make_frame :
      (laws : IsFraming p) (d : ℕ) (from to : Mac) (protocol : ℕ) (frame packet : Packet)
      (w : World p)
      → 1500 < protocol
      → deliver d frame (p.add_header (header_of from to protocol) (pad p packet)) w
        ≡ hand_up d frame
            (header_of from to protocol)
            protocol
            (pad p packet)
            (packet_type p (w.devices d) to)
            w
  unfolding deliver read_protocol ◌>>=◌
  deliver-make_frame laws d from to protocol frame packet w h =
      rw (laws.header (header_of from to protocol) (pad p packet)) (ground arith)

  -- A frame that SendFrom made, and that no error model finds corrupt, is handed up with what was sent:
  -- the payload, padded to 46 bytes, the protocol number (above 1500, as a type is), the source and
  -- the destination.
  pub receive-make_frame :
      (laws : IsFraming p) (d : ℕ) (from to : Mac) (protocol : ℕ) (packet : Packet) (w : World p)
      → (w.devices d).link_up ≡ true
      → 1500 < protocol
      → let frame = make_frame p from to protocol packet in
        let tested =
          corrupts
            (w.devices d).receive_error_model
            frame
            (traced TraceSource.phy_rx_end d frame w) in
        tested.0 ≡ false
        → receive d frame w
          ≡ hand_up d frame
              (header_of from to protocol)
              protocol
              (pad p packet)
              (packet_type p (tested.1.devices d) to)
              tested.1
  unfolding receive is_link_up make_frame
  receive-make_frame laws d from to protocol packet w up h fine =
      let framed = p.add_header (header_of from to protocol) (pad p packet) in
      let t = p.calc_fcs p.checksum_enabled framed in
      let frame = p.add_trailer t framed in
      let tested =
        corrupts (w.devices d).receive_error_model frame
          (traced TraceSource.phy_rx_end d frame w) in
      ground (
        arith,
        laws.trailer t framed,
        laws.fcs p.checksum_enabled framed,
        deliver-make_frame laws d from to protocol frame packet tested.1 h,
      )

  -- What is handed up, by a device with a receive callback: promiscuous listeners get every packet;
  -- the receive callback gets the packets that are not for another host, and gets them last.
  pub hand_up_lem :
      (d : ℕ) (packet : Packet) (header : EthernetHeader Mac) (protocol : ℕ) (copy : Packet)
      (kind : PacketType) (w : World p)
      → (w.devices d).rx_callback ≡ true
      → let heard : World p = traced TraceSource.promisc_sniffer d packet w in
        let told : World p =
          (if (w.devices d).promisc_callback
            then emit
                (Signal.promisc_receive_callback d copy protocol header.source header.destination
                  kind)
                (traced TraceSource.mac_promisc_rx d packet heard)
            else heard) in
        (is_other_host kind ≡ true → hand_up d packet header protocol copy kind w ≡ ok told)
        × (is_other_host kind ≡ false
            → hand_up d packet header protocol copy kind w
              ≡ ok (
                  emit (Signal.receive_callback d copy protocol header.source) (
                    traced TraceSource.sniffer d packet (traced TraceSource.mac_rx d packet told))))
  unfolding hand_up
  hand_up_lem d packet header protocol copy kind w h = (λ o. ground arith, λ o. ground arith)

  send_from_unlinked :
      (on_disconnect : DisconnectCallback p) (d : ℕ) (packet : Packet) (source dest : Address)
      (protocol : ℕ) (w : World p)
      → p.is_matching_type source ≡ true
      → p.is_matching_type dest ≡ true
      → ((w.devices d).link_up ≡ false) ⊎ ((w.devices d).channel ≡ none)
      → send_from on_disconnect d packet source dest protocol w
        ≡ ok (false, traced TraceSource.mac_tx_drop d packet w)
  unfolding send_from is_link_up ◌>>=◌
  send_from_unlinked on_disconnect d packet source dest protocol w ms md o = ground arith

  send_from_linked :
      (on_disconnect : DisconnectCallback p) (d c : ℕ) (packet : Packet) (source dest : Address)
      (protocol : ℕ) (q : p.Queue) (w : World p)
      → p.is_matching_type source ≡ true
      → p.is_matching_type dest ≡ true
      → (w.devices d).link_up ≡ true
      → (w.devices d).channel ≡ some c
      → (w.devices d).queue ≡ some q
      → let frame = make_frame p (p.convert_from source) (p.convert_from dest) protocol packet in
        let stored = p.enqueue frame q in
        let queued = with_queue d stored.1 (traced TraceSource.mac_tx d packet w) in
        let sent = send_from on_disconnect d packet source dest protocol w in
        (stored.0 ≡ false → sent ≡ ok (false, traced TraceSource.mac_tx_drop d frame queued))
        × (stored.0 ≡ true
            → (w.devices d).tx_machine_state ≡ TxMachineState.busy
            → sent ≡ ok (true, queued))
        × ((next : Packet)
            → stored.0 ≡ true
            → (w.devices d).tx_machine_state ≡ TxMachineState.ready
            → (p.dequeue stored.1).0 ≡ some next
            → sent ≡ start_next on_disconnect d next (with_queue d (p.dequeue stored.1).1 queued))
  unfolding send_from enqueue_frame is_link_up ◌>>=◌
  send_from_linked on_disconnect d c packet source dest protocol q w ms md up ch hq =
      (λ s. ground arith, λ s b. ground arith, λ next s r n. ground arith)

  -- SendFrom on all branches, between addresses of the right type, for a device with a queue. With no
  -- link or no channel the packet is dropped, and nothing else happens. With both the frame is queued:
  -- if the queue refuses it, it is dropped; if the device is busy, it waits; if the device is ready, the
  -- first frame of the queue is sent.
  pub send_from_lem :
      (on_disconnect : DisconnectCallback p) (d : ℕ) (packet : Packet) (source dest : Address)
      (protocol : ℕ) (q : p.Queue) (w : World p)
      → p.is_matching_type source ≡ true
      → p.is_matching_type dest ≡ true
      → (w.devices d).queue ≡ some q
      → let frame = make_frame p (p.convert_from source) (p.convert_from dest) protocol packet in
        let stored = p.enqueue frame q in
        let queued = with_queue d stored.1 (traced TraceSource.mac_tx d packet w) in
        let sent = send_from on_disconnect d packet source dest protocol w in
        (((w.devices d).link_up ≡ false) ⊎ ((w.devices d).channel ≡ none)
          → sent ≡ ok (false, traced TraceSource.mac_tx_drop d packet w))
        × ((c : ℕ)
            → (w.devices d).link_up ≡ true
            → (w.devices d).channel ≡ some c
            → (stored.0 ≡ false → sent ≡ ok (false, traced TraceSource.mac_tx_drop d frame queued))
              × (stored.0 ≡ true
                  → (w.devices d).tx_machine_state ≡ TxMachineState.busy
                  → sent ≡ ok (true, queued))
              × ((next : Packet)
                  → stored.0 ≡ true
                  → (w.devices d).tx_machine_state ≡ TxMachineState.ready
                  → (p.dequeue stored.1).0 ≡ some next
                  → sent
                    ≡ start_next on_disconnect d next (with_queue d (p.dequeue stored.1).1 queued)))
  send_from_lem on_disconnect d packet source dest protocol q w ms md hq = (
    λ o. send_from_unlinked on_disconnect d packet source dest protocol w ms md o,
    λ c up ch. send_from_linked on_disconnect d c packet source dest protocol q w ms md up ch hq,
  )
