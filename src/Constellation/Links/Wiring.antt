-- ===== src/Constellation/Links/Wiring.antt =====
-- What Connect and DisConnect of ConstellationHelper
-- (cpp/contrib/satellite/helper/constellation-helper.cc) do to the wiring.
use osak_ext_ns.Prelude.{
  ℕ, ◌≡◌, ◌≢◌, refl, Bool, true, false, ◌||◌, none, ◌∷◌, ◌==◌, arith, contains, contains-insert,
}
use osak_ext_ns.Result.{ok}
use osak_ext_ns.Platform.{Platform}
use osak_ext_ns.World.{World, Signal, set_channel, emit}
use osak_ext_ns.Device.{get_direction, get_mobility}
use osak_ext_ns.Device
use osak_ext_ns.Device.Machine.{Keeps}
use osak_ext_ns.Channel.{device_latitude}
use osak_ext_ns.Channel
use osak_ext_ns.Constellation.Links.{
  right_end, left_end, mark_broken, notify, dis_connect, set_links,
}

module _ {p : Platform} where
  -- A DisConnect that succeeds changes no transmit machine.
  pub dis_connect-Keeps : Keeps {p = p} dis_connect
  unfolding dis_connect Device.detach notify
  dis_connect-Keeps a b c w w' h e = ground arith

  -- What a broken link leaves.
  pub record IsBroken (a b c : ℕ) (w w' : World p) : Type 0 where
    pub left_alone : (d : ℕ) → d ≢ a → d ≢ b → w'.devices d ≡ w.devices d
    pub mobility : (d : ℕ) → (w'.devices d).mobility ≡ (w.devices d).mobility
    pub direction : (d : ℕ) → (w'.devices d).direction ≡ (w.devices d).direction
    pub channel_a : (w'.devices a).channel ≡ none
    pub channel_b : (w'.devices b).channel ≡ none
    pub down_a : (w'.devices a).link_up ≡ false
    pub down_b : (w'.devices b).link_up ≡ false
    pub end0 : (w'.channels c).dev0 ≡ none
    pub end1 : (w'.channels c).dev1 ≡ none
    pub callback : w'.links.connect_cb ≡ w.links.connect_cb
    pub unused : w'.links.unused_link ≡ c ∷ w.links.unused_link
    pub right :
        (d : ℕ)
        → contains w'.links.breaked_right d
          ≡ d == right_end (w.devices a).direction a b || contains w.links.breaked_right d
    pub left :
        (d : ℕ)
        → contains w'.links.breaked_left d
          ≡ d == left_end (w.devices a).direction a b || contains w.links.breaked_left d

  pub notify_set :
      (cb : Bool) (s : Signal p) (w : World p) → cb ≡ true → notify cb s w ≡ ok (emit s w)
  unfolding notify
  notify_set cb s w h = rw h

  abbrev broken : ℕ → ℕ → ℕ → World p → World p
  broken a b c w =
      let w1 = Device.detach b (Device.detach a w) in
      let w2 = set_links (mark_broken (get_direction (w1.devices a)) a b w1.links) w1 in
      let w3 = set_channel c (Channel.detach (w2.channels c)) w2 in
      emit (Signal.channel_disconnect a b c)
        (set_links (record (w3.links) { unused_link = c ∷ w3.links.unused_link }) w3)

  broken-IsBroken : (a b c : ℕ) (w : World p) → IsBroken a b c w (broken a b c w)
  unfolding Device.detach mark_broken Channel.detach get_direction
  broken-IsBroken a b c w = record {
    left_alone = λ d n m. ground arith;
    mobility = λ d. ground arith;
    direction = λ d. ground arith;
    channel_a = ground arith;
    channel_b = ground arith;
    down_a = ground arith;
    down_b = ground arith;
    end0 = ground arith;
    end1 = ground arith;
    callback = refl;
    unused = refl;
    right = λ d.
        ground
          (arith, contains-insert (right_end (w.devices a).direction a b) d w.links.breaked_right);
    left = λ d.
        ground
          (arith, contains-insert (left_end (w.devices a).direction a b) d w.links.breaked_left);
  }

  -- If the user's callback is set, DisConnect succeeds: both terminals lose their channel and are
  -- down, no other device changes, the channel has no ends and is unused, and one terminal is
  -- recorded as broken on the right, the other on the left.
  pub dis_connect-IsBroken :
      (a b c : ℕ) (w : World p)
      → w.links.disconnect_cb ≡ true
      → (w' : World p) × (dis_connect a b c w ≡ ok w') × IsBroken a b c w w'
  unfolding dis_connect Device.detach mark_broken
  dis_connect-IsBroken a b c w h = (broken a b c w, notify_set _ _ _ h, broken-IsBroken a b c w)
