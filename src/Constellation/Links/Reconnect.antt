-- ===== src/Constellation/Links/Reconnect.antt =====
-- ConstellationHelper::Connect (cpp/contrib/satellite/helper/constellation-helper.cc): what it needs,
-- what it leaves, and that it undoes DisConnect.
use osak_ext_ns.Prelude.{
  ℕ, ◌≡◌, refl, ap, ◌∙◌, true, false, not, ◌||◌, ◌&&◌, none, some, List, [], ◌∷◌, ◌==◌, arith,
  Bool-cases, ==_iff, inl, inr, contains,
}
use osak_ext_ns.Result.{ok, fault, Fault, bind_ok}
use osak_ext_ns.Platform.{Platform}
use osak_ext_ns.World.{World}
use osak_ext_ns.Device.{get_direction, get_mobility}
use osak_ext_ns.Device
use osak_ext_ns.Channel.{device_latitude}
use osak_ext_ns.Channel
use osak_ext_ns.Constellation.Links.{
  right_end, left_end, mark_connected, connect_on, take_link, connect, dis_connect,
}
use osak_ext_ns.Constellation.Links.Wiring.{notify_set, dis_connect-IsBroken}
use osak_ext_ns.Constellation.Links.Linked.{
  IsLinked, with_end0, attached, linked, attach_first, attach_second, linked-IsLinked,
}

-- To erase what was inserted, and was not there before, leaves the set as it was.
erase_inserted :
    (a b : ℕ) (xs : List ℕ)
    → contains xs a ≡ false
    → (not (b == a) && (b == a || contains xs b)) ≡ contains xs b
erase_inserted a b xs h = elim (Bool-cases (b == a)) [
  | inl e ↦ rw (e, (==_iff b a).0 e, h)
  | inr e ↦ rw e
]

module _ {p : Platform} where
  -- With no unused link, Connect takes the back of an empty vector.
  connect_empty :
      (a b : ℕ) (w : World p) → w.links.unused_link ≡ [] → connect a b w ≡ fault Fault.empty_vector
  unfolding connect take_link
  connect_empty a b w h = rw h

  mobility-attached :
      (a b c d : ℕ) (rest : List ℕ) (w : World p)
      → ((attached a b c rest w).devices d).mobility ≡ (w.devices d).mobility
  unfolding Device.attach Device.notify_link_up
  mobility-attached a b c d rest w = ground arith

  dev0-attached :
      (a b c : ℕ) (rest : List ℕ) (w : World p)
      → ((attached a b c rest w).channels c).dev0 ≡ (w.channels c).dev0
  unfolding Device.attach Device.notify_link_up
  dev0-attached a b c rest w = refl

  dev0-with_end0 :
      (c d : ℕ) (lat : p.floats.Real) (w : World p)
      → ((with_end0 c d lat w).channels c).dev0 ≡ some d
  dev0-with_end0 c d lat w = ground arith

  -- If an unused link `c` with no ends is there, both terminals have a mobility model and the user's
  -- callback is set, Connect succeeds: both terminals are on `c` and up, `c` has the two ends, no
  -- other device changes, and the terminals are no longer recorded as broken.
  pub connect-IsLinked :
      (a b c : ℕ) (rest : List ℕ) (ma mb : p.Mobility) (w : World p)
      → w.links.unused_link ≡ c ∷ rest
      → (w.channels c).dev0 ≡ none
      → (w.devices a).mobility ≡ some ma
      → (w.devices b).mobility ≡ some mb
      → w.links.connect_cb ≡ true
      → (w' : World p) × (connect a b w ≡ ok w') × IsLinked a b c rest w w'
  unfolding connect take_link connect_on mark_connected Device.attach Device.notify_link_up
  connect-IsLinked a b c rest ma mb w unused free ha hb cb =
      let la = Channel.get_latitude p.floats (p.get_position ma w.now) in
      let lb = Channel.get_latitude p.floats (p.get_position mb w.now) in
      let w1 = attached a b c rest w in
      let w2 = with_end0 c a la w1 in
      (
        linked a b c rest la lb w,
        ap (λ l. take_link l a b w) unused
            ∙ bind_ok (Channel.attach c a w1) _ (
                attach_first c a w1 (dev0-attached a b c rest w ∙ free)
                  (mobility-attached a b c a rest w ∙ ha))
            ∙ bind_ok (Channel.attach c b w2) _ (
                attach_second c b a w2 (dev0-with_end0 c a la w1)
                  (mobility-attached a b c b rest w ∙ hb))
            ∙ notify_set _ _ _ cb,
        linked-IsLinked a b c rest la lb w,
      )

  -- Connect undoes DisConnect, when both terminals have mobility models and both of the user's
  -- callbacks are set: a link that was broken, and is made again between the same terminals, is on
  -- the same channel, and the unused links and the broken terminals are what they were before, if
  -- the two terminals were not recorded as broken then.
  pub connect-dis_connect :
      (a b c : ℕ) (ma mb : p.Mobility) (w : World p)
      → (w.devices a).mobility ≡ some ma
      → (w.devices b).mobility ≡ some mb
      → w.links.connect_cb ≡ true
      → w.links.disconnect_cb ≡ true
      → contains w.links.breaked_right (right_end (w.devices a).direction a b) ≡ false
      → contains w.links.breaked_left (left_end (w.devices a).direction a b) ≡ false
      → (w' w'' : World p) × (dis_connect a b c w ≡ ok w')
        × (connect a b w' ≡ ok w'')
        × ((w''.devices a).channel ≡ some c)
        × ((w''.devices b).channel ≡ some c)
        × (w''.links.unused_link ≡ w.links.unused_link)
        × ((d : ℕ) → contains w''.links.breaked_right d ≡ contains w.links.breaked_right d)
        × ((d : ℕ) → contains w''.links.breaked_left d ≡ contains w.links.breaked_left d)
  connect-dis_connect a b c ma mb w ha hb cb db r l =
      let (w', broke, x) = dis_connect-IsBroken a b c w db in
      let (w'', made, y) =
        connect-IsLinked a b c w.links.unused_link ma mb w' x.unused x.end0 (x.mobility a ∙ ha)
          (x.mobility b ∙ hb) (x.callback ∙ cb) in
      (
        w',
        w'',
        broke,
        made,
        y.channel_a,
        y.channel_b,
        y.unused,
        λ d.
            y.right d
            ∙ rw (x.right d, x.direction a)
                (erase_inserted (right_end (w.devices a).direction a b) d _ r),
        λ d.
            y.left d
            ∙ rw (x.left d, x.direction a)
                (erase_inserted (left_end (w.devices a).direction a b) d _ l),
      )
