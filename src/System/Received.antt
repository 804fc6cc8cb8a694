-- ===== src/System/Received.antt =====
-- OpticalDevice::Receive (cpp/contrib/satellite/model/optical-device.cc) and OpticalChannel::Receive
-- (cpp/contrib/satellite/model/optical-channel.cc) leave the transmit machines alone.
use osak_ext_ns.Prelude.{
  ℕ, ◌≡◌, refl, ◌∙◌, Bool, true, false, Option, none, some, arith, subst, if◌then◌else◌, not,
}
use osak_ext_ns.Result.{Result, ok, >>=-eq-ok, ok-injective}
use osak_ext_ns.Platform.{Platform, EthernetHeader}
use osak_ext_ns.World.{World, PacketType, TraceSource}
use osak_ext_ns.Device.{is_link_up, get_rx_sensitivity_dbm}
use osak_ext_ns.Device.Receive.{receive, corrupts, deliver, hand_up}
use osak_ext_ns.Device.Transmit.{traced}
use osak_ext_ns.Device.Machine.{Same, machine}
use osak_ext_ns.Channel.{channel_receive, rx_power}

module _ {p : Platform} where
  hand_up-Same :
      (d : ℕ) (packet : p.Packet) (header : EthernetHeader p.Mac) (protocol : ℕ) (copy : p.Packet)
      (kind : PacketType) (w : World p) {w' : World p}
      → hand_up d packet header protocol copy kind w ≡ ok w'
      → Same w w'
  unfolding hand_up
  hand_up-Same d packet header protocol copy kind w h e = ground arith

  deliver-Same :
      (d : ℕ) (packet copy : p.Packet) (w : World p) {w' : World p}
      → deliver d packet copy w ≡ ok w'
      → Same w w'
  unfolding deliver
  deliver-Same d packet copy w h =
      let (r, _, rest) = >>=-eq-ok _ _ h in hand_up-Same _ _ _ _ _ _ w rest

  corrupts-Same : (em : Option ℕ) (copy : p.Packet) (w : World p) → Same w (corrupts em copy w).1
  unfolding corrupts
  corrupts-Same none copy w e = refl
  corrupts-Same (some em) copy w e = refl

  choice-Same :
      (b : Bool) {x y : Result (World p)} (w : World p) {w' : World p}
      → (if b then x else y) ≡ ok w'
      → (x ≡ ok w' → Same w w')
      → (y ≡ ok w' → Same w w')
      → Same w w'
  choice-Same true w h f g = f h
  choice-Same false w h f g = g h

  done-Same : (w v : World p) {w' : World p} → Same w v → ok v ≡ ok w' → Same w w'
  done-Same w v same h e =
      subst (λ (u : World p). machine u e ≡ machine w e) (ok-injective h) (same e)

  pub receive-Same :
      (d : ℕ) (packet : p.Packet) (w : World p) {w' : World p}
      → receive d packet w ≡ ok w'
      → Same w w'
  unfolding receive
  receive-Same d packet w h =
      let seen = traced TraceSource.phy_rx_end d packet w in
      let tested = corrupts (w.devices d).receive_error_model packet seen in
      let split = p.remove_trailer packet in
      let untouched : Same w tested.1 =
        corrupts-Same (w.devices d).receive_error_model packet seen in
      let dropped = traced TraceSource.phy_rx_drop d packet tested.1 in
      choice-Same (not (is_link_up (w.devices d))) w h
        (done-Same w (traced TraceSource.mac_rx_drop d packet w) (λ e. refl))
        λ up. choice-Same tested.0 w up (done-Same w dropped untouched) λ fine.
          choice-Same (p.check_fcs p.checksum_enabled split.0 split.1) w fine
            (λ good e. deliver-Same d packet split.1 tested.1 good e ∙ untouched e)
            (done-Same w dropped untouched)

  pub channel_receive-Same :
      (s r : ℕ) (packet : p.Packet) (w : World p) {w' : World p}
      → channel_receive s r packet w ≡ ok w'
      → Same w w'
  unfolding channel_receive
  channel_receive-Same s r packet w h =
      let (ms, _, h0) = >>=-eq-ok _ _ h in
      let (mr, _, h1) = >>=-eq-ok _ _ h0 in
      let power = rx_power (w.devices s) (w.devices r) (p.get_distance_from ms mr w.now) in
      choice-Same (p.floats.lt power (get_rx_sensitivity_dbm (w.devices r))) w h1
        (done-Same w w (λ e. refl)) (receive-Same r packet w)
