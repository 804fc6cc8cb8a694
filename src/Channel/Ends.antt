-- ===== src/Channel/Ends.antt =====
-- The two ends of an OpticalChannel (cpp/contrib/satellite/model/optical-channel.cc).
use osak_ext_ns.Prelude.{ℕ, ◌≡◌, ◌≢◌, ◌∙◌, some, arith, is_some, if◌then◌else◌}
use osak_ext_ns.Result.{ok, ◌>>=◌, bind_ok}
use osak_ext_ns.Platform.{Platform}
use osak_ext_ns.World.{Channel, World, set_channel}
use osak_ext_ns.Device.{get_mobility}
use osak_ext_ns.Channel.{attach, detach, get_another, device_latitude, get_latitude}

module _ {p : Platform} where
  -- The channel after `d` was attached at latitude `lat`.
  abbrev pub with_end : Channel p → ℕ → p.floats.Real → Channel p
  with_end ch d lat =
      if is_some ch.dev0
      then record ch { dev1 = some d; last1 = lat }
      else record ch { dev0 = some d; last0 = lat }

  abbrev pub sine : p.Mobility → World p → p.floats.Real
  sine m w = get_latitude p.floats (p.get_position m w.now)

  pub attach_lem :
      (c d : ℕ) (w : World p) {m : p.Mobility}
      → (w.devices d).mobility ≡ some m
      → attach c d w ≡ ok (set_channel c (with_end (w.channels c) d (sine m w)) w)
  unfolding attach device_latitude get_mobility ◌>>=◌
  attach_lem c d w h = ground arith

  both : ℕ → ℕ → ℕ → p.Mobility → p.Mobility → World p → World p
  both c a b ma mb w =
      let w1 = set_channel c (with_end (w.channels c) a (sine ma w)) w in
      set_channel c (with_end (w1.channels c) b (sine mb w1)) w1

  -- Two different devices with mobility models that are attached, one after the other, to a channel
  -- that was detached are its two ends, the first one at index 0, and each finds the other.
  pub attach-get_another :
      (c a b : ℕ) (ma mb : p.Mobility) (w : World p)
      → a ≢ b
      → (w.devices a).mobility ≡ some ma
      → (w.devices b).mobility ≡ some mb
      → let w0 = set_channel c (detach (w.channels c)) w in
        (w' : World p) × ((attach c a w0 >>= attach c b) ≡ ok w')
        × ((w'.channels c).dev0 ≡ some a)
        × (get_another (w'.channels c) a ≡ some b)
        × (get_another (w'.channels c) b ≡ some a)
  unfolding detach get_another both
  attach-get_another c a b ma mb w n ha hb =
      let w0 = set_channel c (detach (w.channels c)) w in
      let w1 = set_channel c (with_end (w0.channels c) a (sine ma w0)) w0 in
      (
        both c a b ma mb w0,
        bind_ok (attach c a w0) _ (attach_lem c a w0 ha) ∙ attach_lem c b w1 hb,
        ground arith,
        ground arith,
        ground arith,
      )
