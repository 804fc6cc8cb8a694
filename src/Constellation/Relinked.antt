-- ===== src/Constellation/Relinked.antt =====
-- What Connect, DisConnect and the two halves of LinkMaintenance of ConstellationHelper
-- (cpp/contrib/satellite/helper/constellation-helper.cc) leave alone.
use osak_ext_ns.Prelude.{
  ℕ, ◌≡◌, refl, subst, ◌∙◌, Bool, true, false, Option, none, some, List, [], ◌∷◌, insert, erase,
  contains, arith, if_cases, inl, inr,
}
use osak_ext_ns.Result.{ok, >>=-eq-ok, ok-injective}
use osak_ext_ns.Platform.{Platform}
use osak_ext_ns.World.{World, Signal}
use osak_ext_ns.Device
use osak_ext_ns.Device.Machine.{Same}
use osak_ext_ns.Channel
use osak_ext_ns.Constellation.Devices.{device_number}
use osak_ext_ns.Constellation.Links.{
  notify, connect_on, take_link, connect, dis_connect, mark_connected, mark_broken, set_links,
}
use osak_ext_ns.Constellation.Maintenance.{
  break_link, set_polar, enter, reconnect_right, reconnect_left, reconnect, leave,
}

module _ {p : Platform} where
  -- What a change of links leaves alone: the polar set, the mobility models, the clock and the
  -- transmit machines.
  pub record IsRelinked (w w' : World p) : Type 0 where
    pub over : w'.links.over_polar ≡ w.links.over_polar
    pub models : w'.mobilities ≡ w.mobilities
    pub clock : w'.now ≡ w.now
    pub machines : Same w w'

  pub IsRelinked-trans : (u v w : World p) → IsRelinked u v → IsRelinked v w → IsRelinked u w
  IsRelinked-trans u v w a b = record {
    over = b.over ∙ a.over;
    models = b.models ∙ a.models;
    clock = b.clock ∙ a.clock;
    machines = λ e. b.machines e ∙ a.machines e;
  }

  pub IsRelinked-refl : (w : World p) → IsRelinked w w
  IsRelinked-refl w = record { over = refl; models = refl; clock = refl; machines = λ e. refl }

  notify-IsRelinked :
      (cb : Bool) (s : Signal p) (w : World p) {w' : World p}
      → notify cb s w ≡ ok w'
      → IsRelinked w w'
  unfolding notify
  notify-IsRelinked true s w h =
      subst (IsRelinked w) (ok-injective h)
        (record { over = refl; models = refl; clock = refl; machines = λ e. refl })
  notify-IsRelinked false s w h = cc

  channel_attach-IsRelinked :
      (c d : ℕ) (w : World p) {w' : World p} → Channel.attach c d w ≡ ok w' → IsRelinked w w'
  unfolding Channel.attach
  channel_attach-IsRelinked c d w h =
      let (lat, _, done) = >>=-eq-ok _ _ h in
      subst (IsRelinked w) (ok-injective done)
        (record { over = refl; models = refl; clock = refl; machines = λ e. refl })

  device_attach-IsRelinked : (d c : ℕ) (w : World p) → IsRelinked w (Device.attach d c w)
  unfolding Device.attach Device.notify_link_up
  device_attach-IsRelinked d c w = record {
    over = refl;
    models = refl;
    clock = refl;
    machines = λ e. ground arith;
  }

  connect_on-IsRelinked :
      (c a b : ℕ) (w : World p) {w' : World p} → connect_on c a b w ≡ ok w' → IsRelinked w w'
  unfolding connect_on mark_connected
  connect_on-IsRelinked c a b w {w'} h =
      let w1 = Device.attach b c (Device.attach a c w) in
      let (w2, e2, h2) = >>=-eq-ok _ _ h in
      let (w3, e3, h3) = >>=-eq-ok _ _ h2 in
      let w4 : World p =
        set_links (mark_connected (Device.get_direction (w3.devices a)) a b w3.links) w3 in
      let marked =
        IsRelinked-trans w3 w4 w'
          (record { over = refl; models = refl; clock = refl; machines = λ e. refl })
          (notify-IsRelinked _ _ w4 h3) in
      let r1 =
        IsRelinked-trans w (Device.attach a c w) w1 (device_attach-IsRelinked a c w)
          (device_attach-IsRelinked b c (Device.attach a c w)) in
      let r2 = IsRelinked-trans w w1 w2 r1 (channel_attach-IsRelinked c a w1 e2) in
      let r3 = IsRelinked-trans w w2 w3 r2 (channel_attach-IsRelinked c b w2 e3) in
      IsRelinked-trans w w3 w' r3 marked

  take_link-IsRelinked :
      (l : List ℕ) (a b : ℕ) (w : World p) {w' : World p}
      → take_link l a b w ≡ ok w'
      → IsRelinked w w'
  unfolding take_link
  take_link-IsRelinked [] a b w h = cc
  take_link-IsRelinked (c ∷ rest) a b w {w'} h =
      let w1 : World p = set_links (record (w.links) { unused_link = rest }) w in
      IsRelinked-trans w w1 w'
        (record { over = refl; models = refl; clock = refl; machines = λ e. refl })
        (connect_on-IsRelinked c a b w1 h)

  pub connect-IsRelinked :
      (a b : ℕ) (w : World p) {w' : World p} → connect a b w ≡ ok w' → IsRelinked w w'
  unfolding connect
  connect-IsRelinked a b w h = take_link-IsRelinked w.links.unused_link a b w h

  pub dis_connect-IsRelinked :
      (a b c : ℕ) (w : World p) {w' : World p} → dis_connect a b c w ≡ ok w' → IsRelinked w w'
  unfolding dis_connect notify mark_broken Device.detach
  dis_connect-IsRelinked a b c w {w'} h = record {
    over = ground arith;
    models = ground arith;
    clock = ground arith;
    machines = λ e. ground arith;
  }

  break_link-IsRelinked :
      (d : ℕ) (c : Option ℕ) (w : World p) {w' : World p}
      → break_link d c w ≡ ok w'
      → IsRelinked w w'
  unfolding break_link
  break_link-IsRelinked d none w h = subst (IsRelinked w) (ok-injective h) (IsRelinked-refl w)
  break_link-IsRelinked d (some c) w h =
      let (other, _, broken) = >>=-eq-ok _ _ h in dis_connect-IsRelinked other d c w broken

  reconnect_right-IsRelinked :
      (node adj : ℕ) (w : World p) {w' : World p}
      → reconnect_right node adj w ≡ ok w'
      → IsRelinked w w'
  unfolding reconnect_right
  reconnect_right-IsRelinked node adj w h =
      elim (if_cases (contains w.links.breaked_right (device_number adj 0)) h) [
        | inl (_, made) ↦ connect-IsRelinked _ _ w made
        | inr (_, none_made) ↦ subst (IsRelinked w) (ok-injective none_made) (IsRelinked-refl w)
      ]

  reconnect_left-IsRelinked :
      (node adj : ℕ) (w : World p) {w' : World p}
      → reconnect_left node adj w ≡ ok w'
      → IsRelinked w w'
  unfolding reconnect_left
  reconnect_left-IsRelinked node adj w h =
      elim (if_cases (contains w.links.breaked_left (device_number adj 1)) h) [
        | inl (_, made) ↦ connect-IsRelinked _ _ w made
        | inr (_, none_made) ↦ subst (IsRelinked w) (ok-injective none_made) (IsRelinked-refl w)
      ]

  reconnect-IsRelinked :
      (node : ℕ) (adj : Option ℕ) (w : World p) {w' : World p}
      → reconnect node adj w ≡ ok w'
      → IsRelinked w w'
  unfolding reconnect
  reconnect-IsRelinked node none w h = subst (IsRelinked w) (ok-injective h) (IsRelinked-refl w)
  reconnect-IsRelinked node (some adj) w {w'} h =
      let (w1, first, second) = >>=-eq-ok _ _ h in
      IsRelinked-trans w w1 w' (reconnect_right-IsRelinked node adj w first)
        (reconnect_left-IsRelinked node adj w1 second)

  pub enter-IsRelinked :
      (node : ℕ) (w : World p) {w' : World p}
      → enter node w ≡ ok w'
      → IsRelinked (set_polar (insert node w.links.over_polar) w) w'
  unfolding enter
  enter-IsRelinked node w {w'} h =
      let (w1, first, second) = >>=-eq-ok _ _ h in
      IsRelinked-trans _ w1 w' (break_link-IsRelinked _ _ _ first)
        (break_link-IsRelinked _ _ w1 second)

  pub leave-IsRelinked :
      (n planes node : ℕ) (w : World p) {w' : World p}
      → leave n planes node w ≡ ok w'
      → IsRelinked (set_polar (erase node w.links.over_polar) w) w'
  unfolding leave
  leave-IsRelinked n planes node w {w'} h =
      let (_, _, h0) = >>=-eq-ok _ _ h in
      let (w1, first, second) = >>=-eq-ok _ _ h0 in
      IsRelinked-trans _ w1 w' (reconnect-IsRelinked node _ _ first)
        (reconnect-IsRelinked node _ w1 second)
