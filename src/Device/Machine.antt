-- ===== src/Device/Machine.antt =====
-- The transmit machine of OpticalDevice (m_txMachineState, m_currentPkt and the scheduled
-- TransmitComplete, cpp/contrib/satellite/model/optical-device.cc): what each operation does to it.
use osak_ext_ns.Prelude.{
  ℕ, ◌+◌, ◌≡◌, sym, subst, Bool, true, not, Option, none, some, List, [], ◌∷◌, if◌then◌else◌,
  is_some, ◌==◌, arith, Bool-cases, inl, inr, if_cases, ◌||◌,
}
use osak_ext_ns.Result.{ok, check-eq-ok, ok-state, ok-injective, >>=-eq-ok, ◌>>=◌}
use osak_ext_ns.Platform.{Platform}
use osak_ext_ns.World.{World, TxMachineState, TraceSource, Event, Scheduled}
use osak_ext_ns.Channel.{
  DisconnectCallback, latitude_check, check_latitudes, device_latitude, schedule_receive, get_delay,
  channel_receive, get_another,
}
use osak_ext_ns.Channel
use osak_ext_ns.Device.{is_link_up}
use osak_ext_ns.Device.Frame.{make_frame}
use osak_ext_ns.Device.Transmit.{
  is_ready, occupy, put_on_channel, transmit_start, start_next, enqueue_frame, send_from, release,
  resume, transmit_complete, with_queue, traced,
}

pub record Machine (Packet : Type 0) : Type 0 where
  pub state : TxMachineState
  pub current : Option Packet
  pub has_queue : Bool
  pub calls : ℕ

-- An idle device has no packet and no call scheduled; a busy one has a packet and one call.
pub record IsMatched {Packet : Type 0} (m : Machine Packet) : Type 0 where
  pub held : is_some m.current ≡ not (is_ready m.state)
  pub called : m.calls ≡ (if is_ready m.state then 0 else 1)
  pub queued : m.has_queue ≡ true

module _ {p : Platform} where
  abbrev pub completes : ℕ → Event p → ℕ
  completes d (Event.transmit_complete e) = if e == d then 1 else 0
  completes d (Event.channel_receive s r packet) = 0
  completes d Event.link_maintenance = 0

  -- How many calls of TransmitComplete are scheduled for a device.
  abbrev pub pending : ℕ → List (Scheduled p) → ℕ
  pending d [] = 0
  pending d (s ∷ ss) = completes d s.event + pending d ss

  abbrev pub machine : World p → ℕ → Machine p.Packet
  machine w d = record {
    state = (w.devices d).tx_machine_state;
    current = (w.devices d).current_pkt;
    has_queue = is_some (w.devices d).queue;
    calls = pending d w.events;
  }

  -- No transmit machine has changed.
  abbrev pub Same : World p → World p → Type 0
  Same w w' = (e : ℕ) → machine w' e ≡ machine w e

  -- The transmit machine of every device is matched.
  abbrev pub Matched : World p → Type 0
  Matched w = (e : ℕ) → IsMatched (machine w e)

  -- So it is but for a call of TransmitComplete of `d`, which was taken off the events.
  abbrev pub Fired : ℕ → World p → Type 0
  Fired d w =
      (e : ℕ)
      → IsMatched (record (machine w e) { calls = (if d == e then 1 else 0) + pending e w.events })

  abbrev pub Keeps : DisconnectCallback p → Type 0
  Keeps on_disconnect = (a b c : ℕ) (w w' : World p) → on_disconnect a b c w ≡ ok w' → Same w w'

  module _ (on_disconnect : DisconnectCallback p) (keeps : Keeps on_disconnect) where
    check_latitudes-Same :
        (c d0 d1 : ℕ) (l0 l1 : p.floats.Real) (w : World p) {r : Bool} {w' : World p}
        → check_latitudes on_disconnect c d0 d1 l0 l1 w ≡ ok (r, w')
        → Same w w'
    unfolding check_latitudes ◌>>=◌
    check_latitudes-Same c d0 d1 l0 l1 w {r} {w'} h e =
        ground (arith, λ (q : on_disconnect d0 d1 c w ≡ ok w'). keeps d0 d1 c w w' q e)

    latitude_check-Same :
        (c : ℕ) (w : World p) {r : Bool} {w' : World p}
        → latitude_check on_disconnect c w ≡ ok (r, w')
        → Same w w'
    unfolding latitude_check
    latitude_check-Same c w h e =
        let (d0, _, h0) = >>=-eq-ok _ _ h in
        let (l0, _, h1) = >>=-eq-ok _ _ h0 in
        let (d1, _, h2) = >>=-eq-ok _ _ h1 in
        let (l1, _, h3) = >>=-eq-ok _ _ h2 in check_latitudes-Same c d0 d1 l0 l1 w h3 e

    schedule_receive-Same :
        (c s : ℕ) (r : Option ℕ) (packet : p.Packet) (t : ℕ) (w : World p) {b : Bool} {w' : World p}
        → schedule_receive c s r packet t w ≡ ok (b, w')
        → Same w w'
    unfolding schedule_receive
    schedule_receive-Same c s r packet t w h e =
        let (d, _, h0) = >>=-eq-ok _ _ h in
        let (n, _, h1) = >>=-eq-ok _ _ h0 in let (delay, _, h2) = >>=-eq-ok _ _ h1 in ground arith

    send-Same :
        (c s : ℕ) (packet : p.Packet) (t : ℕ) (w : World p) {b : Bool} {w' : World p}
        → Channel.send on_disconnect c s packet t w ≡ ok (b, w')
        → Same w w'
    unfolding Channel.send
    send-Same c s packet t w {b} {w'} h e = elim (Bool-cases (w.channels c).is_temporary) [
      | inl temporary ↦
          let (r, checked, rest) = >>=-eq-ok _ _ (rw temporary at h) in
          ground (
            arith,
            latitude_check-Same c w checked e,
            λ (q : schedule_receive c s (get_another (w.channels c) s) packet t r.1 ≡ ok (b, w')).
                schedule_receive-Same c s _ packet t r.1 q e,
          )
      | inr forever ↦ schedule_receive-Same c s _ packet t w (rw forever at h) e
    ]

    put_on_channel-Same :
        (d : ℕ) (packet : p.Packet) (t : ℕ) (c : Option ℕ) (w : World p) {b : Bool} {w' : World p}
        → put_on_channel on_disconnect d packet t c w ≡ ok (b, w')
        → Same w w'
    unfolding put_on_channel
    put_on_channel-Same d packet t none w h e = ground arith
    put_on_channel-Same d packet t (some c) w h e =
        let (sent, sending, rest) = >>=-eq-ok _ _ h in
        ground (arith, send-Same c d packet t w sending e)

    occupy-Matched :
        (d : ℕ) (packet : p.Packet) (t : ℕ) (w : World p)
        → is_ready (w.devices d).tx_machine_state ≡ true
        → Matched w
        → Matched (occupy d packet t w)
    unfolding occupy
    occupy-Matched d packet t w h m e = ground (arith, m e, m d)

    transmit_start-Matched :
        (d : ℕ) (packet : p.Packet) (w : World p) {b : Bool} {w' : World p}
        → transmit_start on_disconnect d packet w ≡ ok (b, w')
        → Matched w
        → Matched w'
    unfolding transmit_start
    transmit_start-Matched d packet w {b} {w'} h m e =
        let (_, free, rest) = >>=-eq-ok _ _ h in
        let t = p.calculate_bytes_tx_time (w.devices d).bps (p.get_size packet) in
        subst IsMatched
          (sym (put_on_channel-Same d packet t (w.devices d).channel (occupy d packet t w) rest e))
          (occupy-Matched d packet t w (check-eq-ok _ free) m e)

    start_next-Matched :
        (d : ℕ) (packet : p.Packet) (w : World p) {b : Bool} {w' : World p}
        → start_next on_disconnect d packet w ≡ ok (b, w')
        → Matched w
        → Matched w'
    unfolding start_next
    start_next-Matched d packet w h m =
        transmit_start-Matched d packet
          (traced TraceSource.promisc_sniffer d packet (traced TraceSource.sniffer d packet w)) h m

    with_queue-Matched :
        (d : ℕ) (q : p.Queue) (w : World p) → Matched w → Matched (with_queue d q w)
    with_queue-Matched d q w m e = ground (arith, m e, m d)

    enqueue_frame-Matched :
        (d : ℕ) (frame : p.Packet) (w : World p) {b : Bool} {w' : World p}
        → enqueue_frame on_disconnect d frame w ≡ ok (b, w')
        → Matched w
        → Matched w'
    unfolding enqueue_frame
    enqueue_frame-Matched d frame w {b} {w'} h m =
        let (q, _, rest) = >>=-eq-ok _ _ h in
        let stored = p.enqueue frame q in
        let w1 = with_queue d stored.1 w in
        let m1 = with_queue-Matched d stored.1 w m in
        elim (if_cases stored.0 rest) [
          | inl (_, go) ↦ elim (if_cases (is_ready (w.devices d).tx_machine_state) go) [
            | inl (_, sends) ↦
                let (next, _, started) = >>=-eq-ok _ _ sends in
                let q2 = (p.dequeue stored.1).1 in
                start_next-Matched d next (with_queue d q2 w1) started
                  (with_queue-Matched d q2 w1 m1)
            | inr (_, waits) ↦ subst Matched (ok-state waits) m1
          ]
          | inr (_, full) ↦ subst Matched (ok-state full) m1
        ]

    -- Any call of SendFrom that succeeds, dropped, queued or sent, leaves every transmit machine matched:
    -- no packet and no TransmitComplete scheduled for an idle device, a packet and exactly one for a busy
    -- one; if the disconnect callback changes none of them.
    pub send_from-Matched :
        (d : ℕ) (packet : p.Packet) (source dest : p.Address) (protocol : ℕ) (w : World p)
        {b : Bool} {w' : World p}
        → send_from on_disconnect d packet source dest protocol w ≡ ok (b, w')
        → Matched w
        → Matched w'
    unfolding send_from
    send_from-Matched d packet source dest protocol w h m =
        let (_, _, h1) = >>=-eq-ok _ _ h in
        let (_, _, h2) = >>=-eq-ok _ _ h1 in
        elim (if_cases (not (is_link_up (w.devices d)) || not (is_some (w.devices d).channel)) h2) [
          | inl (_, drop) ↦ subst Matched (ok-state drop) m
          | inr (_, go) ↦
              enqueue_frame-Matched d
                (make_frame p (p.convert_from source) (p.convert_from dest) protocol packet)
                (traced TraceSource.mac_tx d packet w) go m
        ]

    release-Matched :
        (d : ℕ) (packet : p.Packet) (w : World p) → Fired d w → Matched (release d packet w)
    unfolding release
    release-Matched d packet w m e = ground (arith, m e, m d)

    resume-Matched :
        (d : ℕ) (next : Option p.Packet) (w : World p) {w' : World p}
        → resume on_disconnect d next w ≡ ok w'
        → Matched w
        → Matched w'
    unfolding resume
    resume-Matched d none w h m = subst Matched (ok-injective h) m
    resume-Matched d (some packet) w h m =
        let (r, started, done) = >>=-eq-ok _ _ h in
        subst Matched (ok-injective done) (start_next-Matched d packet w started m)

    -- When the scheduled TransmitComplete of a device runs and succeeds, in a world whose transmit
    -- machines are matched but for that call, which was taken off the events, every transmit
    -- machine is matched after it, whether the queue gave a next packet or the device falls idle;
    -- if the disconnect callback changes none of them.
    pub transmit_complete-Matched :
        (d : ℕ) (w : World p) {w' : World p}
        → transmit_complete on_disconnect d w ≡ ok w'
        → Fired d w
        → Matched w'
    unfolding transmit_complete
    transmit_complete-Matched d w h m =
        let (_, _, h1) = >>=-eq-ok _ _ h in
        let (_, _, h2) = >>=-eq-ok _ _ h1 in
        let (current, _, h3) = >>=-eq-ok _ _ h2 in
        let w1 = release d current w in
        let (q, _, h4) = >>=-eq-ok _ _ h3 in
        resume-Matched d (p.dequeue q).0 (with_queue d (p.dequeue q).1 w1) h4
          (with_queue-Matched d (p.dequeue q).1 w1 (release-Matched d current w m))
