-- ===== src/Channel/Temporary.antt =====
-- Temporary channels: OpticalChannel::Send over LatitudeCheck
-- (cpp/contrib/satellite/model/optical-channel.cc), by the latitudes of the two ends.
use osak_ext_ns.Prelude.{
  ℕ, ◌+◌, ◌≡◌, ◌≢◌, Bool, true, false, ◌&&◌, ◌||◌, some, ◌∷◌, arith, if◌then◌else◌, ◌⊎◌, inl, inr,
  Bool-cases,
}
use osak_ext_ns.Result.{ok, ◌>>=◌}
use osak_ext_ns.Floats.{max}
use osak_ext_ns.Platform.{Platform}
use osak_ext_ns.World.{World, Event, Signal, emit}
use osak_ext_ns.Channel.{DisconnectCallback, send, is_over, climbs}
use osak_ext_ns.Channel.Latitude.{
  AreEnds, IsWired, sine_of, checked, checked-IsWired, in_flight, send_over, send_clear,
}

either_both :
    (x y z u : Bool)
    → ((x && y) || (z && u)) ≡ true
    → ((x ≡ true) × (y ≡ true)) ⊎ ((z ≡ true) × (u ≡ true))
either_both x y z u h = ground arith

module _ {p : Platform} where
  module _ (on_disconnect : DisconnectCallback p) (c a b : ℕ) (ma mb : p.Mobility) (na nb : ℕ) where
    -- An end is over the limit; no end is.
    abbrev pub AnyOver : World p → Type 0
    AnyOver w =
        (p.floats.lt (w.channels c).lat_limit (sine_of ma w) ≡ true)
        ⊎ (p.floats.lt (w.channels c).lat_limit (sine_of mb w) ≡ true)

    pub record NoneOver (w : World p) : Type 0 where
      pub first : p.floats.lt (w.channels c).lat_limit (sine_of ma w) ≡ false
      pub second : p.floats.lt (w.channels c).lat_limit (sine_of mb w) ≡ false

    -- An end is past the threshold, and higher than when it was looked at last.
    abbrev pub Climbing : World p → Type 0
    Climbing w =
        ((p.floats.lt (w.channels c).last0 (sine_of ma w) ≡ true)
          × (p.floats.lt (w.channels c).threshold (sine_of ma w) ≡ true))
        ⊎ ((p.floats.lt (w.channels c).last1 (sine_of mb w) ≡ true)
            × (p.floats.lt (w.channels c).threshold (sine_of mb w) ≡ true))

    -- The warning that the user gets.
    abbrev pub warned : World p → World p
    warned w =
        emit
          (Signal.ready_break c
            (p.floats.◌⊖◌ (w.channels c).lat_limit (max p.floats (sine_of ma w) (sine_of mb w))))
          w

    over-is_over :
        (w : World p) → AnyOver w → is_over (w.channels c) (sine_of ma w) (sine_of mb w) ≡ true
    over-is_over w (inl h) = ground arith
    over-is_over w (inr h) = ground arith

    none-is_over :
        (w : World p) → NoneOver w → is_over (w.channels c) (sine_of ma w) (sine_of mb w) ≡ false
    none-is_over w h = ground (arith, h.first, h.second)

    Climbing-climbs :
        (w : World p) → Climbing w → climbs (w.channels c) (sine_of ma w) (sine_of mb w) ≡ true
    Climbing-climbs w (inl (h, k)) = ground arith
    Climbing-climbs w (inr (h, k)) = ground arith

    climbs-Climbing :
        (w : World p) → climbs (w.channels c) (sine_of ma w) (sine_of mb w) ≡ true → Climbing w
    climbs-Climbing w h = either_both _ _ _ _ h

    send_ends :
        (s r n : ℕ) (packet : p.Packet) (t : ℕ) (w : World p)
        → AreEnds a b na nb s r n
        → IsWired c a b ma mb na nb w
        → a ≢ b
        → (w.channels c).is_temporary ≡ true
        → NoneOver w
        → send on_disconnect c s packet t w
          ≡ ok (
            true,
            in_flight on_disconnect c a b ma mb na nb s r n packet t
                (checked on_disconnect c a b ma mb na nb w),
          )
    send_ends _ _ _ packet t w AreEnds.first_to_second v n temporary clear =
        (send_clear on_disconnect c a b ma mb na nb packet t w v n temporary
          (none-is_over w clear)).0
    send_ends _ _ _ packet t w AreEnds.second_to_first v n temporary clear =
        (send_clear on_disconnect c a b ma mb na nb packet t w v n temporary
          (none-is_over w clear)).1

    checked-log :
        (w : World p)
        → (w.channels c).ready_break_cb ≡ true
        → Climbing w
        → (checked on_disconnect c a b ma mb na nb w).log ≡ (warned w).log
    checked-log w cb climbing = rw (Climbing-climbs w climbing) (ground arith)

    checked-silent :
        (w : World p) → ¬ Climbing w → (checked on_disconnect c a b ma mb na nb w).log ≡ w.log
    checked-silent w still =
        elim (Bool-cases (climbs (w.channels c) (sine_of ma w) (sine_of mb w))) [
          | inl h ↦ absurd (still (climbs-Climbing w h))
          | inr h ↦ ground arith
        ]

    checked-now : (w : World p) → (checked on_disconnect c a b ma mb na nb w).now ≡ w.now
    checked-now w = ground arith

    checked-events : (w : World p) → (checked on_disconnect c a b ma mb na nb w).events ≡ w.events
    checked-events w = ground arith

    checked-devices :
        (w : World p) → (checked on_disconnect c a b ma mb na nb w).devices ≡ w.devices
    checked-devices w = ground arith

    -- A temporary channel between two different devices, each with a mobility model and a node. If an
    -- end is over the latitude limit, whoever sends, the disconnect callback is called, if it is set,
    -- nothing else happens, and `false` is returned. If no end is over it, a packet from either end is
    -- let through: one reception is scheduled at the other, after the time of transmission and the
    -- propagation delay, the channel remembers both latitudes, and no device changes; the user is
    -- warned, if the callback is set and an end climbs past the threshold, and not warned if none does.
    pub send_temporary :
        (packet : p.Packet) (t : ℕ) (w : World p)
        → IsWired c a b ma mb na nb w
        → a ≢ b
        → (w.channels c).is_temporary ≡ true
        → (AnyOver w
            → (s : ℕ)
            → send on_disconnect c s packet t w ≡ (
                if (w.channels c).disconnect_cb
                then (on_disconnect a b c w >>= λ w'. ok (false, w'))
                else ok (false, w)))
          × (NoneOver w
              → (s r n : ℕ) → AreEnds a b na nb s r n
              → (w' : World p) × (send on_disconnect c s packet t w ≡ ok (true, w'))
                × (w'.events
                    ≡ record {
                      time = w.now + (p.get_delay (w.channels c).delay ma mb w.now + t);
                      context = some n;
                      event = Event.channel_receive s r packet;
                    }
                      ∷ w.events)
                × ((w'.channels c).last0 ≡ sine_of ma w)
                × ((w'.channels c).last1 ≡ sine_of mb w)
                × (w'.devices ≡ w.devices)
                × ((w.channels c).ready_break_cb ≡ true → Climbing w → w'.log ≡ (warned w).log)
                × (¬ Climbing w → w'.log ≡ w.log))
    send_temporary packet t w v apart temporary = (
      λ over s.
          send_over on_disconnect c a b ma mb na nb s packet t w v temporary (over-is_over w over),
      λ clear s r n ends. (
        in_flight on_disconnect c a b ma mb na nb s r n packet t
            (checked on_disconnect c a b ma mb na nb w),
        send_ends s r n packet t w ends v apart temporary clear,
        ground arith,
        ground arith,
        ground arith,
        checked-devices w,
        checked-log w,
        checked-silent w,
      ),
    )

    -- What the channel is after a check that passed.
    abbrev Remembers : World p → World p → Type 0
    Remembers w w1 =
        w1.channels c ≡ record (w.channels c) { last0 = sine_of ma w; last1 = sine_of mb w }

    checked-Remembers : (w : World p) → Remembers w (checked on_disconnect c a b ma mb na nb w)
    checked-Remembers w = ground arith

    remembered-NoneOver :
        (w w1 : World p) → w1.now ≡ w.now → Remembers w w1 → NoneOver w → NoneOver w1
    remembered-NoneOver w w1 clock ch clear = record {
      first = rw (ch, clock) clear.first;
      second = rw (ch, clock) clear.second;
    }

    remembered-still :
        (w w1 : World p)
        → ((x : p.floats.Real) → p.floats.lt x x ≡ false)
        → w1.now ≡ w.now
        → Remembers w w1
        → ¬ Climbing w1
    remembered-still w w1 irrefl clock ch (inl (h, k)) =
        cc (rw (ch, clock) at h, irrefl (sine_of ma w))
    remembered-still w w1 irrefl clock ch (inr (h, k)) =
        cc (rw (ch, clock) at h, irrefl (sine_of mb w))

    remembered-temporary :
        (w w1 : World p)
        → Remembers w w1
        → (w.channels c).is_temporary ≡ true
        → (w1.channels c).is_temporary ≡ true
    remembered-temporary w w1 ch temporary = rw ch temporary

    in_flight-IsWired :
        (s r n : ℕ) (packet : p.Packet) (t : ℕ) (w : World p)
        → IsWired c a b ma mb na nb w
        → IsWired c a b ma mb na nb (in_flight on_disconnect c a b ma mb na nb s r n packet t w)
    in_flight-IsWired s r n packet t w v = record {
      end0 = v.end0;
      end1 = v.end1;
      model_a = v.model_a;
      model_b = v.model_b;
      node_a = v.node_a;
      node_b = v.node_b;
    }

    -- The second of two packets, in a world that remembers the latitudes of its own instant.
    sent_silently :
        (s r n : ℕ) (packet : p.Packet) (t : ℕ) (w w1 : World p)
        → ((x : p.floats.Real) → p.floats.lt x x ≡ false)
        → AreEnds a b na nb s r n
        → IsWired c a b ma mb na nb w1
        → a ≢ b
        → (w.channels c).is_temporary ≡ true
        → NoneOver w
        → w1.now ≡ w.now
        → Remembers w w1
        → (w2 : World p) × (send on_disconnect c s packet t w1 ≡ ok (true, w2)) × (w2.log ≡ w1.log)
    sent_silently s r n packet t w w1 irrefl ends v apart temporary clear clock ch = (
      in_flight on_disconnect c a b ma mb na nb s r n packet t
          (checked on_disconnect c a b ma mb na nb w1),
      send_ends s r n packet t w1 ends v apart (remembered-temporary w w1 ch temporary)
          (remembered-NoneOver w w1 clock ch clear),
      checked-silent w1 (remembered-still w w1 irrefl clock ch),
    )

    -- On a temporary channel between two different devices, each with a mobility model and a node, with
    -- no end over the latitude limit, and if no float is less than itself: of two packets sent at the
    -- same instant, from either end each, both are let through, and the second gives no warning,
    -- whatever the first gave.
    pub warns_once :
        (s r n s' r' n' : ℕ) (packet packet' : p.Packet) (t t' : ℕ) (w : World p)
        → ((x : p.floats.Real) → p.floats.lt x x ≡ false)
        → AreEnds a b na nb s r n
        → AreEnds a b na nb s' r' n'
        → IsWired c a b ma mb na nb w
        → a ≢ b
        → (w.channels c).is_temporary ≡ true
        → NoneOver w
        → (w1 w2 : World p) × (send on_disconnect c s packet t w ≡ ok (true, w1))
          × (send on_disconnect c s' packet' t' w1 ≡ ok (true, w2))
          × (w2.log ≡ w1.log)
    warns_once s r n s' r' n' packet packet' t t' w irrefl ends ends' v apart temporary clear =
        let w0 = checked on_disconnect c a b ma mb na nb w in
        let w1 = in_flight on_disconnect c a b ma mb na nb s r n packet t w0 in
        let (w2, second, silent) =
          sent_silently s' r' n' packet' t' w w1 irrefl ends'
            (in_flight-IsWired s r n packet t w0
              (checked-IsWired on_disconnect c a b ma mb na nb w v))
            apart temporary clear (checked-now w) (checked-Remembers w) in
        (w1, w2, send_ends s r n packet t w ends v apart temporary clear, second, silent)
