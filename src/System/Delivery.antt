-- ===== src/System/Delivery.antt =====
-- A packet from one device to the other: OpticalDevice::SendFrom, OpticalChannel::Send, and what arrives
-- (cpp/contrib/satellite/model/optical-device.cc and optical-channel.cc).
use osak_ext_ns.Prelude.{ℕ, ◌+◌, ◌≡◌, ◌≢◌, ◌∙◌, true, false, some, none, ◌∷◌, arith}
use osak_ext_ns.Result.{ok, ◌>>=◌, bind_ok}
use osak_ext_ns.Platform.{Platform}
use osak_ext_ns.World.{World, Event, TraceSource, TxMachineState}
use osak_ext_ns.Device.Frame.{make_frame}
use osak_ext_ns.Device.Transmit.{
  send_from, start_next, transmit_start, put_on_channel, occupy, with_queue, traced,
}
use osak_ext_ns.Device.Outcomes.{send_from_lem}
use osak_ext_ns.Channel.{DisconnectCallback, channel_receive}
use osak_ext_ns.Channel
use osak_ext_ns.Channel.Latitude.{IsWired, AreEnds, send_forever, in_flight}

module _ {p : Platform} where
  -- An idle device `a` on a permanent channel whose ends are `e0` and `e1`.
  pub record IsIdleOn (c e0 e1 a : ℕ) (ma mb : p.Mobility) (na nb : ℕ) (q : p.Queue) (w : World p)
      : Type 0 where
    pub wired : IsWired c e0 e1 ma mb na nb w
    pub apart : e0 ≢ e1
    pub forever : (w.channels c).is_temporary ≡ false
    pub up : (w.devices a).link_up ≡ true
    pub channel : (w.devices a).channel ≡ some c
    pub queue : (w.devices a).queue ≡ some q
    pub state : (w.devices a).tx_machine_state ≡ TxMachineState.ready

  unfoldable pub sniffed : ℕ → p.Packet → World p → World p
  sniffed d frame w =
      traced TraceSource.promisc_sniffer d frame (traced TraceSource.sniffer d frame w)

  start_next-ready :
      (on_disconnect : DisconnectCallback p) (c d : ℕ) (frame : p.Packet) (w : World p)
      → (w.devices d).tx_machine_state ≡ TxMachineState.ready
      → (w.devices d).channel ≡ some c
      → let t = p.calculate_bytes_tx_time (w.devices d).bps (p.get_size frame) in
        start_next on_disconnect d frame w
        ≡ put_on_channel on_disconnect d frame t (some c) (occupy d frame t (sniffed d frame w))
  unfolding start_next transmit_start sniffed ◌>>=◌
  start_next-ready on_disconnect c d frame w ready linked = ground arith

  occupy-IsWired :
      (c a b : ℕ) (ma mb : p.Mobility) (na nb d : ℕ) (frame : p.Packet) (t : ℕ) (w : World p)
      → IsWired c a b ma mb na nb w
      → IsWired c a b ma mb na nb (occupy d frame t (sniffed d frame w))
  unfolding occupy sniffed
  occupy-IsWired c a b ma mb na nb d frame t w v = record {
    end0 = v.end0;
    end1 = v.end1;
    model_a = ground (arith, v.model_a);
    model_b = ground (arith, v.model_b);
    node_a = ground (arith, v.node_a);
    node_b = ground (arith, v.node_b);
  }

  stays_forever :
      (c d : ℕ) (frame : p.Packet) (t : ℕ) (w : World p)
      → (w.channels c).is_temporary ≡ false
      → ((occupy d frame t (sniffed d frame w)).channels c).is_temporary ≡ false
  unfolding occupy sniffed
  stays_forever c d frame t w h = h

  with_queue-IsWired :
      (c a b : ℕ) (ma mb : p.Mobility) (na nb d : ℕ) (q : p.Queue) (w : World p)
      → IsWired c a b ma mb na nb w
      → IsWired c a b ma mb na nb (with_queue d q w)
  with_queue-IsWired c a b ma mb na nb d q w v = record {
    end0 = v.end0;
    end1 = v.end1;
    model_a = ground (arith, v.model_a);
    model_b = ground (arith, v.model_b);
    node_a = ground (arith, v.node_a);
    node_b = ground (arith, v.node_b);
  }

  traced-IsWired :
      (c a b : ℕ) (ma mb : p.Mobility) (na nb d : ℕ) (source : TraceSource) (packet : p.Packet)
      (w : World p)
      → IsWired c a b ma mb na nb w
      → IsWired c a b ma mb na nb (traced source d packet w)
  traced-IsWired c a b ma mb na nb d source packet w v = record {
    end0 = v.end0;
    end1 = v.end1;
    model_a = v.model_a;
    model_b = v.model_b;
    node_a = v.node_a;
    node_b = v.node_b;
  }

  module _ (on_disconnect : DisconnectCallback p) (c a b : ℕ) (ma mb : p.Mobility) (na nb : ℕ) where
    send_between :
        (s r n : ℕ) (packet : p.Packet) (t : ℕ) (w : World p)
        → AreEnds a b na nb s r n
        → IsWired c a b ma mb na nb w
        → a ≢ b
        → (w.channels c).is_temporary ≡ false
        → Channel.send on_disconnect c s packet t w
          ≡ ok (true, in_flight on_disconnect c a b ma mb na nb s r n packet t w)
    send_between _ _ _ packet t w AreEnds.first_to_second v n forever =
        (send_forever on_disconnect c a b ma mb na nb packet t w v n forever).0
    send_between _ _ _ packet t w AreEnds.second_to_first v n forever =
        (send_forever on_disconnect c a b ma mb na nb packet t w v n forever).1

    start_next-forever :
        (s r n : ℕ) (frame : p.Packet) (w : World p)
        → AreEnds a b na nb s r n
        → IsWired c a b ma mb na nb w
        → a ≢ b
        → (w.channels c).is_temporary ≡ false
        → (w.devices s).tx_machine_state ≡ TxMachineState.ready
        → (w.devices s).channel ≡ some c
        → let t = p.calculate_bytes_tx_time (w.devices s).bps (p.get_size frame) in
          start_next on_disconnect s frame w
          ≡ ok (
            true,
            in_flight on_disconnect c a b ma mb na nb s r n frame t
                (occupy s frame t (sniffed s frame w)),
          )
    unfolding put_on_channel
    start_next-forever s r n frame w ends v apart forever ready linked =
        let t = p.calculate_bytes_tx_time (w.devices s).bps (p.get_size frame) in
        let w1 = occupy s frame t (sniffed s frame w) in
        start_next-ready on_disconnect c s frame w ready linked
        ∙ bind_ok (Channel.send on_disconnect c s frame t w1) _ (
            send_between s r n frame t w1 ends (occupy-IsWired c a b ma mb na nb s frame t w v)
              apart (stays_forever c s frame t w forever))

    -- A packet that an idle device, whose link is up, sends from either end of a permanent channel between
    -- two different devices, each with a mobility model and a node, between addresses of the right
    -- type, its queue taking the frame and giving it back, is on its way: SendFrom returns `true`;
    -- one reception at the other end, in the context of its node, is scheduled after the time of
    -- transmission and the propagation delay, and the device's TransmitComplete after the time of
    -- transmission; the device is left busy with the frame; no other device changes.
    pub send_from_delivers :
        (s r n : ℕ) (packet : p.Packet) (source dest : p.Address) (protocol : ℕ) (q : p.Queue)
        (w : World p)
        → AreEnds a b na nb s r n
        → IsIdleOn c a b s ma mb na nb q w
        → p.is_matching_type source ≡ true
        → p.is_matching_type dest ≡ true
        → let frame = make_frame p (p.convert_from source) (p.convert_from dest) protocol packet in
          let t = p.calculate_bytes_tx_time (w.devices s).bps (p.get_size frame) in
          (p.enqueue frame q).0 ≡ true
          → (p.dequeue (p.enqueue frame q).1).0 ≡ some frame
          → (w' : World p) × (send_from on_disconnect s packet source dest protocol w
              ≡ ok (true, w'))
            × (w'.events
                ≡ record {
                  time = w.now + (p.get_delay (w.channels c).delay ma mb w.now + t);
                  context = some n;
                  event = Event.channel_receive s r frame;
                }
                  ∷ record { time = w.now + t; context = none; event = Event.transmit_complete s }
                  ∷ w.events)
            × ((w'.devices s).tx_machine_state ≡ TxMachineState.busy)
            × ((w'.devices s).current_pkt ≡ some frame)
            × ((d : ℕ) → d ≢ s → w'.devices d ≡ w.devices d)
    unfolding occupy sniffed
    send_from_delivers s r n packet source dest protocol q w ends idle ms md taken given =
        let frame = make_frame p (p.convert_from source) (p.convert_from dest) protocol packet in
        let q1 = (p.enqueue frame q).1 in
        let q2 = (p.dequeue q1).1 in
        let w1 = with_queue s q1 (traced TraceSource.mac_tx s packet w) in
        let w2 = with_queue s q2 w1 in
        let v2 = with_queue-IsWired c a b ma mb na nb s q2 w1 (
          with_queue-IsWired c a b ma mb na nb s q1 (traced TraceSource.mac_tx s packet w)
            (traced-IsWired c a b ma mb na nb s TraceSource.mac_tx packet w idle.wired)) in
        let t2 = p.calculate_bytes_tx_time (w2.devices s).bps (p.get_size frame) in
        (
          in_flight on_disconnect c a b ma mb na nb s r n frame t2
              (occupy s frame t2 (sniffed s frame w2)),
          ((send_from_lem on_disconnect s packet source dest protocol q w ms md idle.queue).1 c
                  idle.up idle.channel).2
                frame taken idle.state given
              ∙ start_next-forever s r n frame w2 ends v2 idle.apart idle.forever
                  (ground (arith, idle.state)) (ground (arith, idle.channel)),
          ground arith,
          ground arith,
          ground arith,
          λ d m. ground arith,
        )
