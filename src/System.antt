-- ===== src/System.antt =====
-- Runs of the whole program: what ns-3's simulator and the applications above the devices call
-- (OpticalDevice::SendFrom of cpp/contrib/satellite/model/optical-device.cc), and the events that the
-- program schedules: OpticalDevice::TransmitComplete, OpticalChannel::Receive
-- (cpp/contrib/satellite/model/optical-channel.cc) and ConstellationHelper::LinkMaintenance
-- (cpp/contrib/satellite/helper/constellation-helper.cc). Any order of events is a run, so those in
-- the order of time are. The disconnect callback of every channel is ConstellationHelper::DisConnect.
pub mod Received
pub mod Reachable
pub mod Delivery
pub mod Progress
use osak_ext_ns.Prelude.{ℕ, ◌≡◌, Bool, List, ◌∷◌, ◌++◌}
use osak_ext_ns.Result.{ok}
use osak_ext_ns.Platform.{Platform}
use osak_ext_ns.World.{World, Event, Scheduled}
use osak_ext_ns.Device.Transmit.{send_from, transmit_complete}
use osak_ext_ns.Channel.{channel_receive}
use osak_ext_ns.Constellation.{Helper}
use osak_ext_ns.Constellation.Links.{dis_connect}
use osak_ext_ns.Constellation.Maintenance.{link_maintenance}

module _ {p : Platform} where
  -- The world in which an event runs: its time, and the events that are left.
  abbrev pub at_event : ℕ → List (Scheduled p) → World p → World p
  at_event time events w = record w { now = time; events = events }

module _ {p : Platform} (h : Helper p.floats) (nodes : ℕ) where
  pub data Step : World p → World p → Type 0 where
    sends :
        (d : ℕ) (packet : p.Packet) (source dest : p.Address) (protocol : ℕ) (b : Bool)
        (w w' : World p)
        → send_from dis_connect d packet source dest protocol w ≡ ok (b, w')
        → Step w w'
    completes :
        (d : ℕ) (s : Scheduled p) (before after : List (Scheduled p)) (w w' : World p)
        → w.events ≡ before ++ (s ∷ after)
        → s.event ≡ Event.transmit_complete d
        → transmit_complete dis_connect d (at_event s.time (before ++ after) w) ≡ ok w'
        → Step w w'
    receives :
        (a b : ℕ) (packet : p.Packet) (s : Scheduled p) (before after : List (Scheduled p))
        (w w' : World p)
        → w.events ≡ before ++ (s ∷ after)
        → s.event ≡ Event.channel_receive a b packet
        → channel_receive a b packet (at_event s.time (before ++ after) w) ≡ ok w'
        → Step w w'
    maintains :
        (s : Scheduled p) (before after : List (Scheduled p)) (w w' : World p)
        → w.events ≡ before ++ (s ∷ after)
        → s.event ≡ Event.link_maintenance
        → link_maintenance h nodes (at_event s.time (before ++ after) w) ≡ ok w'
        → Step w w'

  -- The worlds that a run reaches.
  pub data Run : World p → World p → Type 0 where
    start : (w : World p) → Run w w
    step : (u v w : World p) → Run u v → Step v w → Run u w
