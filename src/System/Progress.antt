-- ===== src/System/Progress.antt =====
-- OpticalDevice::TransmitComplete (cpp/contrib/satellite/model/optical-device.cc) on all branches, when
-- the simulator calls it.
use osak_ext_ns.Prelude.{ℕ, ◌≡◌, some, Option, List, ◌≢◌}
use osak_ext_ns.Platform.{Platform}
use osak_ext_ns.World.{World, TxMachineState, Scheduled}

module _ {p : Platform} where
  -- `w1` is `w` with state `s`, packet `o` and queue `q` in device `d`, and the events `es`.
  pub record IsAfter (d : ℕ) (s : TxMachineState) (o : Option p.Packet) (q : p.Queue)
      (es : List (Scheduled p)) (w w1 : World p) : Type 0 where
    pub state : (w1.devices d).tx_machine_state ≡ s
    pub current : (w1.devices d).current_pkt ≡ o
    pub queue : (w1.devices d).queue ≡ some q
    pub channel : (w1.devices d).channel ≡ (w.devices d).channel
    pub events : w1.events ≡ es
    pub channels : w1.channels ≡ w.channels
    pub others : (e : ℕ) → e ≢ d → w1.devices e ≡ w.devices e
