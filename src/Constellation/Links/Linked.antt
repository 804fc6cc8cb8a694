-- ===== src/Constellation/Links/Linked.antt =====
-- What ConstellationHelper::Connect (cpp/contrib/satellite/helper/constellation-helper.cc) leaves.
use osak_ext_ns.Prelude.{
  ℕ, ◌≡◌, ◌≢◌, refl, ◌∙◌, true, not, ◌&&◌, none, some, List, ◌==◌, arith, contains, contains-erase,
}
use osak_ext_ns.Result.{ok, ◌>>=◌}
use osak_ext_ns.Platform.{Platform}
use osak_ext_ns.World.{World, Signal, set_channel, emit}
use osak_ext_ns.Device.{get_direction, get_mobility}
use osak_ext_ns.Device
use osak_ext_ns.Channel.{device_latitude}
use osak_ext_ns.Channel
use osak_ext_ns.Constellation.Links.{right_end, left_end, mark_connected, set_links}

module _ {p : Platform} where
  -- What a new link on channel `c` leaves, `rest` being the links that are still unused.
  pub record IsLinked (a b c : ℕ) (rest : List ℕ) (w w' : World p) : Type 0 where
    pub left_alone : (d : ℕ) → d ≢ a → d ≢ b → w'.devices d ≡ w.devices d
    pub channel_a : (w'.devices a).channel ≡ some c
    pub channel_b : (w'.devices b).channel ≡ some c
    pub up_a : (w'.devices a).link_up ≡ true
    pub up_b : (w'.devices b).link_up ≡ true
    pub end0 : (w'.channels c).dev0 ≡ some a
    pub end1 : (w'.channels c).dev1 ≡ some b
    pub unused : w'.links.unused_link ≡ rest
    pub other_channels : (e : ℕ) → e ≢ c → w'.channels e ≡ w.channels e
    pub mobility : (d : ℕ) → (w'.devices d).mobility ≡ (w.devices d).mobility
    pub direction : (d : ℕ) → (w'.devices d).direction ≡ (w.devices d).direction
    pub callback : w'.links.connect_cb ≡ w.links.connect_cb
    pub right :
        (d : ℕ)
        → contains w'.links.breaked_right d
          ≡ (not (d == right_end (w.devices a).direction a b) && contains w.links.breaked_right d)
    pub left :
        (d : ℕ)
        → contains w'.links.breaked_left d
          ≡ (not (d == left_end (w.devices a).direction a b) && contains w.links.breaked_left d)

  abbrev pub with_end0 : ℕ → ℕ → p.floats.Real → World p → World p
  with_end0 c d lat w = set_channel c (record (w.channels c) { dev0 = some d; last0 = lat }) w

  abbrev pub with_end1 : ℕ → ℕ → p.floats.Real → World p → World p
  with_end1 c d lat w = set_channel c (record (w.channels c) { dev1 = some d; last1 = lat }) w

  pub attach_first :
      (c d : ℕ) (w : World p) {m : p.Mobility}
      → (w.channels c).dev0 ≡ none
      → (w.devices d).mobility ≡ some m
      → Channel.attach c d w
        ≡ ok (with_end0 c d (Channel.get_latitude p.floats (p.get_position m w.now)) w)
  unfolding Channel.attach device_latitude get_mobility ◌>>=◌
  attach_first c d w e h = ground arith

  pub attach_second :
      (c d x : ℕ) (w : World p) {m : p.Mobility}
      → (w.channels c).dev0 ≡ some x
      → (w.devices d).mobility ≡ some m
      → Channel.attach c d w
        ≡ ok (with_end1 c d (Channel.get_latitude p.floats (p.get_position m w.now)) w)
  unfolding Channel.attach device_latitude get_mobility ◌>>=◌
  attach_second c d x w e h = ground arith

  abbrev pub attached : ℕ → ℕ → ℕ → List ℕ → World p → World p
  attached a b c rest w =
      Device.attach b c (Device.attach a c (set_links (record (w.links) { unused_link = rest }) w))

  abbrev pub linked : ℕ → ℕ → ℕ → List ℕ → p.floats.Real → p.floats.Real → World p → World p
  linked a b c rest lat_a lat_b w =
      let w3 = with_end1 c b lat_b (with_end0 c a lat_a (attached a b c rest w)) in
      emit (Signal.channel_connect a b)
        (set_links (mark_connected (get_direction (w3.devices a)) a b w3.links) w3)

  unused-linked :
      (a b c : ℕ) (rest : List ℕ) (la lb : p.floats.Real) (w : World p)
      → (linked a b c rest la lb w).links.unused_link ≡ rest
  unfolding Device.attach Device.notify_link_up mark_connected get_direction
  unused-linked a b c rest la lb w = refl

  callback-linked :
      (a b c : ℕ) (rest : List ℕ) (la lb : p.floats.Real) (w : World p)
      → (linked a b c rest la lb w).links.connect_cb ≡ w.links.connect_cb
  unfolding Device.attach Device.notify_link_up mark_connected get_direction
  callback-linked a b c rest la lb w = refl

  left_alone-linked :
      (a b c d : ℕ) (rest : List ℕ) (la lb : p.floats.Real) (w : World p)
      → d ≢ a
      → d ≢ b
      → (linked a b c rest la lb w).devices d ≡ w.devices d
  unfolding Device.attach Device.notify_link_up mark_connected get_direction
  left_alone-linked a b c d rest la lb w n m = ground arith

  mobility-linked :
      (a b c d : ℕ) (rest : List ℕ) (la lb : p.floats.Real) (w : World p)
      → ((linked a b c rest la lb w).devices d).mobility ≡ (w.devices d).mobility
  unfolding Device.attach Device.notify_link_up mark_connected get_direction
  mobility-linked a b c d rest la lb w = ground arith

  direction-linked :
      (a b c d : ℕ) (rest : List ℕ) (la lb : p.floats.Real) (w : World p)
      → ((linked a b c rest la lb w).devices d).direction ≡ (w.devices d).direction
  unfolding Device.attach Device.notify_link_up mark_connected get_direction
  direction-linked a b c d rest la lb w = ground arith

  channels-linked :
      (a b c e : ℕ) (rest : List ℕ) (la lb : p.floats.Real) (w : World p)
      → e ≢ c
      → (linked a b c rest la lb w).channels e ≡ w.channels e
  unfolding Device.attach Device.notify_link_up mark_connected get_direction
  channels-linked a b c e rest la lb w n = ground arith

  devices-linked :
      (a b c : ℕ) (rest : List ℕ) (la lb : p.floats.Real) (w : World p)
      → (((linked a b c rest la lb w).devices a).channel ≡ some c)
        × (((linked a b c rest la lb w).devices b).channel ≡ some c)
        × (((linked a b c rest la lb w).devices a).link_up ≡ true)
        × (((linked a b c rest la lb w).devices b).link_up ≡ true)
  unfolding Device.attach Device.notify_link_up mark_connected get_direction
  devices-linked a b c rest la lb w = (ground arith, ground arith, ground arith, ground arith)

  ends-linked :
      (a b c : ℕ) (rest : List ℕ) (la lb : p.floats.Real) (w : World p)
      → (((linked a b c rest la lb w).channels c).dev0 ≡ some a)
        × (((linked a b c rest la lb w).channels c).dev1 ≡ some b)
  unfolding Device.attach Device.notify_link_up mark_connected get_direction
  ends-linked a b c rest la lb w = (ground arith, ground arith)

  direction_end :
      (a b c : ℕ) (rest : List ℕ) (w : World p)
      → ((attached a b c rest w).devices a).direction ≡ (w.devices a).direction
  unfolding Device.attach Device.notify_link_up
  direction_end a b c rest w = ground arith

  right-linked :
      (a b c d : ℕ) (rest : List ℕ) (la lb : p.floats.Real) (w : World p)
      → contains (linked a b c rest la lb w).links.breaked_right d
        ≡ (not (d == right_end (w.devices a).direction a b) && contains w.links.breaked_right d)
  unfolding mark_connected get_direction Device.attach Device.notify_link_up
  right-linked a b c d rest la lb w =
      contains-erase (right_end ((attached a b c rest w).devices a).direction a b) d
        w.links.breaked_right
      ∙ rw (direction_end a b c rest w)

  left-linked :
      (a b c d : ℕ) (rest : List ℕ) (la lb : p.floats.Real) (w : World p)
      → contains (linked a b c rest la lb w).links.breaked_left d
        ≡ (not (d == left_end (w.devices a).direction a b) && contains w.links.breaked_left d)
  unfolding mark_connected get_direction Device.attach Device.notify_link_up
  left-linked a b c d rest la lb w =
      contains-erase (left_end ((attached a b c rest w).devices a).direction a b) d
        w.links.breaked_left
      ∙ rw (direction_end a b c rest w)

  pub linked-IsLinked :
      (a b c : ℕ) (rest : List ℕ) (la lb : p.floats.Real) (w : World p)
      → IsLinked a b c rest w (linked a b c rest la lb w)
  linked-IsLinked a b c rest la lb w =
      let (channel_a, channel_b, up_a, up_b) = devices-linked a b c rest la lb w in
      let (end0, end1) = ends-linked a b c rest la lb w in
      record {
        left_alone = λ d n m. left_alone-linked a b c d rest la lb w n m;
        channel_a = channel_a;
        channel_b = channel_b;
        up_a = up_a;
        up_b = up_b;
        end0 = end0;
        end1 = end1;
        unused = unused-linked a b c rest la lb w;
        other_channels = λ e n. channels-linked a b c e rest la lb w n;
        mobility = λ d. mobility-linked a b c d rest la lb w;
        direction = λ d. direction-linked a b c d rest la lb w;
        callback = callback-linked a b c rest la lb w;
        right = λ d. right-linked a b c d rest la lb w;
        left = λ d. left-linked a b c d rest la lb w;
      }
