-- ===== src/Constellation/Relink.antt =====
-- What ConstellationHelper::LinkMaintenance (cpp/contrib/satellite/helper/constellation-helper.cc) does
-- when a satellite leaves the polar region and both neighbouring satellites' left terminals are broken.
use osak_ext_ns.Prelude.{
  ℕ, ◌≡◌, ◌≢◌, sym, ap, ◌∙◌, true, false, none, some, List, ◌∷◌, arith, contains,
}
use osak_ext_ns.Result.{ok, ◌>>=◌, bind_ok}
use osak_ext_ns.Platform.{Platform}
use osak_ext_ns.World.{World, Direction}
use osak_ext_ns.Constellation.Devices.{device_number}
use osak_ext_ns.Constellation.Links.{connect}
use osak_ext_ns.Constellation.Links.Reconnect.{connect-IsLinked}
use osak_ext_ns.Constellation.Links.Linked.{IsLinked}
use osak_ext_ns.Constellation.Maintenance.{reconnect, reconnect_right, reconnect_left}

module _ {p : Platform} where
  -- The left terminal of satellite `x` is broken, the right one is not; it is a left terminal.
  pub record IsLeftBroken (x : ℕ) (w : World p) : Type 0 where
    pub right : contains w.links.breaked_right (device_number x 0) ≡ false
    pub left : contains w.links.breaked_left (device_number x 1) ≡ true
    pub direction : (w.devices (device_number x 1)).direction ≡ Direction.left

  reconnect-left :
      (node x : ℕ) (w : World p)
      → IsLeftBroken x w
      → reconnect node (some x) w ≡ connect (device_number x 1) (device_number node 0) w
  unfolding reconnect reconnect_right reconnect_left ◌>>=◌
  reconnect-left node x w b = ground (arith, b.right, b.left)

  still_broken :
      (c node x y : ℕ) (rest : List ℕ) (w w' : World p)
      → x ≢ y
      → node ≢ y
      → IsLeftBroken x w
      → IsLeftBroken y w
      → IsLinked (device_number x 1) (device_number node 0) c rest w w'
      → IsLeftBroken y w'
  still_broken c node x y rest w w' n m b d l = record {
    right = l.right (device_number y 0) ∙ ground (arith, d.right);
    left = l.left (device_number y 1) ∙ rw b.direction (ground (arith, d.left));
    direction = l.direction (device_number y 1) ∙ d.direction;
  }

  -- If the left terminals of both neighbours of a satellite, all three different, are broken and
  -- their right ones are not, the loop over the neighbours that LinkMaintenance runs when the
  -- satellite leaves the polar region connects its right terminal twice: the first channel still
  -- has it as an end, and the first neighbour's terminal as the other one, but the terminal itself
  -- is on the second channel only. There are two unused channels with no ends, the terminals have
  -- mobility models, and the user's callback is set.
  pub reconnect_twice :
      (node x y c1 c2 : ℕ) (rest : List ℕ) (mn mx my : p.Mobility) (w : World p)
      → x ≢ y
      → node ≢ x
      → node ≢ y
      → c1 ≢ c2
      → IsLeftBroken x w
      → IsLeftBroken y w
      → w.links.unused_link ≡ c1 ∷ (c2 ∷ rest)
      → (w.channels c1).dev0 ≡ none
      → (w.channels c2).dev0 ≡ none
      → (w.devices (device_number node 0)).mobility ≡ some mn
      → (w.devices (device_number x 1)).mobility ≡ some mx
      → (w.devices (device_number y 1)).mobility ≡ some my
      → w.links.connect_cb ≡ true
      → (w' : World p) × ((reconnect node (some x) w >>= reconnect node (some y)) ≡ ok w')
        × ((w'.channels c1).dev0 ≡ some (device_number x 1))
        × ((w'.channels c1).dev1 ≡ some (device_number node 0))
        × ((w'.devices (device_number x 1)).channel ≡ some c1)
        × ((w'.devices (device_number node 0)).channel ≡ some c2)
  reconnect_twice node x y c1 c2 rest mn mx my w xy nx ny apart bx by unused f1 f2 hn hx hy cb =
      let (w1, first, l1) =
        connect-IsLinked (device_number x 1) (device_number node 0) c1 (c2 ∷ rest) mx mn w unused f1
          hx hn cb in
      let by' = still_broken c1 node x y (c2 ∷ rest) w w1 xy ny bx by l1 in
      let (w2, second, l2) =
        connect-IsLinked (device_number y 1) (device_number node 0) c2 rest my mn w1 l1.unused
          (ap (λ ch. ch.dev0) (l1.other_channels c2 (λ e. apart (sym e))) ∙ f2)
          (l1.mobility (device_number y 1) ∙ hy) (l1.mobility (device_number node 0) ∙ hn)
          (l1.callback ∙ cb) in
      (
        w2,
        bind_ok (reconnect node (some x) w) _ (reconnect-left node x w bx ∙ first)
            ∙ reconnect-left node y w1 by'
            ∙ second,
        ap (λ ch. ch.dev0) (l2.other_channels c1 apart) ∙ l1.end0,
        ap (λ ch. ch.dev1) (l2.other_channels c1 apart) ∙ l1.end1,
        ap (λ d. d.channel)
              (l2.left_alone (device_number x 1) (λ e. xy (omega arith)) (λ e. omega arith))
            ∙ l1.channel_a,
        l2.channel_b,
      )
