-- ===== src/Channel/Latitude.antt =====
-- OpticalChannel::Send and LatitudeCheck (cpp/contrib/satellite/model/optical-channel.cc).
use osak_ext_ns.Prelude.{ℕ, ◌+◌, ◌≡◌, ◌≢◌, ◌∙◌, true, false, ◌&&◌, some, ◌∷◌, arith, if◌then◌else◌}
use osak_ext_ns.Result.{ok, ◌>>=◌}
use osak_ext_ns.Floats.{max}
use osak_ext_ns.Platform.{Platform}
use osak_ext_ns.World.{World, Event, Signal, set_channel, emit}
use osak_ext_ns.Device.{get_mobility, get_node}
use osak_ext_ns.Channel.{
  DisconnectCallback, get_another, get_latitude, device_latitude, check_latitudes, latitude_check,
  schedule_receive, get_delay, send, is_over, climbs,
}

-- `s` and `r` are the two ends `a` and `b`, in either order, and `n` is the node of `r`.
pub data AreEnds (a b na nb : ℕ) : ℕ → ℕ → ℕ → Type 0 where
  first_to_second : AreEnds a b na nb a b nb
  second_to_first : AreEnds a b na nb b a na

module _ {p : Platform} where
  -- A channel `c` whose ends are `a` and `b`, with their mobility models and nodes.
  pub record IsWired (c a b : ℕ) (ma mb : p.Mobility) (na nb : ℕ) (w : World p) : Type 0 where
    pub end0 : (w.channels c).dev0 ≡ some a
    pub end1 : (w.channels c).dev1 ≡ some b
    pub model_a : (w.devices a).mobility ≡ some ma
    pub model_b : (w.devices b).mobility ≡ some mb
    pub node_a : (w.devices a).node ≡ some na
    pub node_b : (w.devices b).node ≡ some nb

  abbrev pub sine_of : p.Mobility → World p → p.floats.Real
  sine_of m w = get_latitude p.floats (p.get_position m w.now)

  module _ (on_disconnect : DisconnectCallback p) (c a b : ℕ) (ma mb : p.Mobility) (na nb : ℕ) where
    latitude_check-eq :
        (w : World p)
        → IsWired c a b ma mb na nb w
        → latitude_check on_disconnect c w
          ≡ check_latitudes on_disconnect c a b (sine_of ma w) (sine_of mb w) w
    unfolding latitude_check device_latitude get_mobility ◌>>=◌
    latitude_check-eq w v = ground (arith, v.end0, v.end1, v.model_a, v.model_b)

    schedule_receive-eq :
        (s r n : ℕ) (packet : p.Packet) (t : ℕ) (w : World p)
        → IsWired c a b ma mb na nb w
        → (w.devices r).node ≡ some n
        → schedule_receive c s (some r) packet t w
          ≡ ok (
            true,
            record w {
              events =
                  record {
                    time = w.now + (p.get_delay (w.channels c).delay ma mb w.now + t);
                    context = some n;
                    event = Event.channel_receive s r packet;
                  }
                  ∷ w.events;
            },
          )
    unfolding schedule_receive get_delay get_mobility get_node ◌>>=◌
    schedule_receive-eq s r n packet t w v h = ground (arith, v.end0, v.end1, v.model_a, v.model_b)

    pub send_over :
        (s : ℕ) (packet : p.Packet) (t : ℕ) (w : World p)
        → IsWired c a b ma mb na nb w
        → (w.channels c).is_temporary ≡ true
        → is_over (w.channels c) (sine_of ma w) (sine_of mb w) ≡ true
        → send on_disconnect c s packet t w ≡ (
            if (w.channels c).disconnect_cb
            then (on_disconnect a b c w >>= λ w'. ok (false, w'))
            else ok (false, w))
    unfolding send check_latitudes ◌>>=◌
    send_over s packet t w v temporary over = ground (arith, latitude_check-eq w v)

    -- What the channel holds after a check that passed.
    abbrev pub checked : World p → World p
    checked w =
        let ch = w.channels c in
        let la = sine_of ma w in
        let lb = sine_of mb w in
        let w1 : World p =
          if climbs ch la lb && ch.ready_break_cb
          then emit (Signal.ready_break c (p.floats.◌⊖◌ ch.lat_limit (max p.floats la lb))) w
          else w in
        set_channel c (record ch { last0 = la; last1 = lb }) w1

    -- The world with the reception scheduled.
    abbrev pub in_flight : ℕ → ℕ → ℕ → p.Packet → ℕ → World p → World p
    in_flight s r n packet t w = record w {
      events =
          record {
            time = w.now + (p.get_delay (w.channels c).delay ma mb w.now + t);
            context = some n;
            event = Event.channel_receive s r packet;
          }
          ∷ w.events;
    }

    pub checked-IsWired :
        (w : World p) → IsWired c a b ma mb na nb w → IsWired c a b ma mb na nb (checked w)
    checked-IsWired w v = record {
      end0 = ground (arith, v.end0);
      end1 = ground (arith, v.end1);
      model_a = ground (arith, v.model_a);
      model_b = ground (arith, v.model_b);
      node_a = ground (arith, v.node_a);
      node_b = ground (arith, v.node_b);
    }

    latitude_check-clear :
        (w : World p)
        → IsWired c a b ma mb na nb w
        → is_over (w.channels c) (sine_of ma w) (sine_of mb w) ≡ false
        → latitude_check on_disconnect c w ≡ ok (true, checked w)
    unfolding check_latitudes
    latitude_check-clear w v clear = latitude_check-eq w v ∙ rw clear

    -- On a permanent channel a packet from either end is received at the other: one reception is
    -- scheduled, in the context of that end's node, after the propagation delay and the time of
    -- transmission; nothing else changes, and `true` is returned.
    pub send_forever :
        (packet : p.Packet) (t : ℕ) (w : World p)
        → IsWired c a b ma mb na nb w
        → a ≢ b
        → (w.channels c).is_temporary ≡ false
        → (send on_disconnect c a packet t w ≡ ok (true, in_flight a b nb packet t w))
          × (send on_disconnect c b packet t w ≡ ok (true, in_flight b a na packet t w))
    unfolding send get_another
    send_forever packet t w v n forever = (
      ground (arith, v.end0, v.end1, schedule_receive-eq a b nb packet t w v v.node_b),
      ground (arith, v.end0, v.end1, schedule_receive-eq b a na packet t w v v.node_a),
    )

    pub send_clear :
        (packet : p.Packet) (t : ℕ) (w : World p)
        → IsWired c a b ma mb na nb w
        → a ≢ b
        → (w.channels c).is_temporary ≡ true
        → is_over (w.channels c) (sine_of ma w) (sine_of mb w) ≡ false
        → (send on_disconnect c a packet t w ≡ ok (true, in_flight a b nb packet t (checked w)))
          × (send on_disconnect c b packet t w ≡ ok (true, in_flight b a na packet t (checked w)))
    unfolding send get_another ◌>>=◌
    send_clear packet t w v n temporary clear =
        let v' = checked-IsWired w v in
        let passed = latitude_check-clear w v clear in
        (
          ground (
            arith,
            v.end0,
            v.end1,
            passed,
            schedule_receive-eq a b nb packet t (checked w) v' v'.node_b,
          ),
          ground (
            arith,
            v.end0,
            v.end1,
            passed,
            schedule_receive-eq b a na packet t (checked w) v' v'.node_a,
          ),
        )
