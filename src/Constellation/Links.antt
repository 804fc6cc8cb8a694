-- ===== src/Constellation/Links.antt =====
-- ConstellationHelper::Connect and DisConnect (cpp/contrib/satellite/helper/constellation-helper.cc):
-- two terminals are given an unused channel, and give it back.
pub mod Wiring
pub mod Linked
pub mod Reconnect
use osak_ext_ns.Prelude.{ℕ, Bool, true, false, List, [], ◌∷◌, if◌then◌else◌, insert, erase}
use osak_ext_ns.Result.{Result, ok, fault, Fault, ◌>>=◌}
use osak_ext_ns.Platform.{Platform}
use osak_ext_ns.World.{Device, World, Links, Direction, Signal, set_channel, emit}
use osak_ext_ns.Device.{get_direction}
use osak_ext_ns.Device
use osak_ext_ns.Channel

abbrev pub is_right : Direction → Bool
is_right Direction.right = true
is_right _ = false

-- The terminal that goes into `breaked_right`, and the one that goes into `breaked_left`.
abbrev pub right_end : Direction → ℕ → ℕ → ℕ
right_end dir a b = if is_right dir then a else b

abbrev pub left_end : Direction → ℕ → ℕ → ℕ
left_end dir a b = if is_right dir then b else a

unfoldable pub mark_connected : Direction → ℕ → ℕ → Links → Links
mark_connected dir a b l = record l {
  breaked_right = erase (right_end dir a b) l.breaked_right;
  breaked_left = erase (left_end dir a b) l.breaked_left;
}

unfoldable pub mark_broken : Direction → ℕ → ℕ → Links → Links
mark_broken dir a b l = record l {
  breaked_right = insert (right_end dir a b) l.breaked_right;
  breaked_left = insert (left_end dir a b) l.breaked_left;
}

-- Whether the user's callbacks are set.
unfoldable pub set_channel_connect_callback : Bool → Links → Links
set_channel_connect_callback cb l = record l { connect_cb = cb }

unfoldable pub set_channel_disconnect_callback : Bool → Links → Links
set_channel_disconnect_callback cb l = record l { disconnect_cb = cb }

module _ {p : Platform} where
  abbrev pub set_links : Links → World p → World p
  set_links l w = record w { links = l }

  -- The callback of the user.
  unfoldable pub notify : Bool → Signal p → World p → Result (World p)
  notify true s w = ok (emit s w)
  notify false s w = fault Fault.null_callback

  unfoldable pub connect_on : ℕ → ℕ → ℕ → World p → Result (World p)
  connect_on c a b w = do
    let w1 = Device.attach b c (Device.attach a c w)
    w2 ← Channel.attach c a w1
    w3 ← Channel.attach c b w2
    let dir = get_direction (w3.devices a)
    let w4 = set_links (mark_connected dir a b w3.links) w3
    notify w4.links.connect_cb (Signal.channel_connect a b) w4

  unfoldable pub take_link : List ℕ → ℕ → ℕ → World p → Result (World p)
  take_link [] a b w = fault Fault.empty_vector
  take_link (c ∷ rest) a b w =
      connect_on c a b (set_links (record (w.links) { unused_link = rest }) w)

  unfoldable pub connect : ℕ → ℕ → World p → Result (World p)
  connect a b w = take_link w.links.unused_link a b w

  unfoldable pub dis_connect : ℕ → ℕ → ℕ → World p → Result (World p)
  dis_connect a b c w =
      let w1 = Device.detach b (Device.detach a w) in
      let w2 = set_links (mark_broken (get_direction (w1.devices a)) a b w1.links) w1 in
      let w3 = set_channel c (Channel.detach (w2.channels c)) w2 in
      let w4 = set_links (record (w3.links) { unused_link = c ∷ w3.links.unused_link }) w3 in
      notify w4.links.disconnect_cb (Signal.channel_disconnect a b c) w4
