-- ===== src/Channel/Deliver.antt =====
-- OpticalChannel::Receive (cpp/contrib/satellite/model/optical-channel.cc): the power budget.
use osak_ext_ns.Prelude.{ℕ, ◌≡◌, true, false, some, arith}
use osak_ext_ns.Result.{ok, ◌>>=◌}
use osak_ext_ns.Platform.{Platform}
use osak_ext_ns.World.{World}
use osak_ext_ns.Device.{get_mobility, get_rx_sensitivity_dbm}
use osak_ext_ns.Device.Receive.{receive}
use osak_ext_ns.Channel.{channel_receive, rx_power}

module _ {p : Platform} where
  -- A packet reaches the receiving device exactly when the received power is not below the receiver's
  -- sensitivity; otherwise nothing happens.
  pub channel_receive_lem :
      (s r : ℕ) (packet : p.Packet) (ms mr : p.Mobility) (w : World p)
      → (w.devices s).mobility ≡ some ms
      → (w.devices r).mobility ≡ some mr
      → let power = rx_power (w.devices s) (w.devices r) (p.get_distance_from ms mr w.now) in
        (p.floats.lt power (w.devices r).rx_sensitivity_dbm ≡ true
          → channel_receive s r packet w ≡ ok w)
        × (p.floats.lt power (w.devices r).rx_sensitivity_dbm ≡ false
            → channel_receive s r packet w ≡ receive r packet w)
  unfolding channel_receive get_mobility get_rx_sensitivity_dbm ◌>>=◌
  channel_receive_lem s r packet ms mr w hs hr = (λ l. ground arith, λ l. ground arith)
