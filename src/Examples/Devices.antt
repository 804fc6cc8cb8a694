-- ===== src/Examples/Devices.antt =====
-- Runs of the device: frames that are sent, wait, and are received.
use osak_ext_ns.Prelude.{refl, Bool, true, false, some, [], ◌∷◌, arith}
use osak_ext_ns.Result.{Result, ◌>>=◌}
use osak_ext_ns.World.{World, TraceSource, TxMachineState, set_device}
use osak_ext_ns.Channel
use osak_ext_ns.Channel.{
  latitude_check, check_latitudes, device_latitude, schedule_receive, get_delay, get_another,
  get_latitude,
}
use osak_ext_ns.Device.{is_link_up, get_mobility, get_node}
use osak_ext_ns.Device.Frame.{make_frame, pad}
use osak_ext_ns.Device.Transmit.{
  occupy, put_on_channel, transmit_start, start_next, enqueue_frame, send_from, release, resume,
  transmit_complete, traced,
}
use osak_ext_ns.Device.Machine.{Matched, Fired, send_from-Matched, transmit_complete-Matched}
use osak_ext_ns.Device.Outcomes.{IsFraming}
use osak_ext_ns.Constellation.Links.{dis_connect}
use osak_ext_ns.Constellation.Links.Wiring.{dis_connect-Keeps}
use osak_ext_ns.Examples.{Frame, bench, equator, world_at, world_of, left_by, terminal_at}

abbrev pub quiet : World bench
quiet = world_at equator false []

pub quiet-Matched : Matched quiet
quiet-Matched e = record { held = refl; called = refl; queued = refl }

abbrev cut : World bench
cut = set_device 0 (record (terminal_at equator 0) { link_up = false }) quiet

abbrev pub small : Frame
small = Frame.payload 10

abbrev pub sent : Result (Bool × World bench)
sent = send_from dis_connect 0 small 0 1 2048 quiet

-- One frame is sent, and TransmitComplete runs.
send_from-Matched_example : Matched (world_of quiet sent)
unfolding send_from enqueue_frame start_next transmit_start occupy put_on_channel Channel.send
    schedule_receive get_delay get_another get_node get_mobility is_link_up ◌>>=◌ make_frame pad
send_from-Matched_example =
    send_from-Matched dis_connect dis_connect-Keeps 0 small 0 1 2048 quiet {b = true} refl
      quiet-Matched

-- Terminal 0 sends, with another frame waiting; its TransmitComplete was taken off the events.
abbrev pub sending : World bench
sending =
    set_device 0
      (record (terminal_at equator 0) {
        tx_machine_state = TxMachineState.busy;
        current_pkt = some small;
        queue = some (small ∷ []);
      })
      quiet

pub sending-Fired : Fired 0 sending
sending-Fired e = record { held = ground arith; called = ground arith; queued = ground arith }

transmit_complete-Matched_example :
    Matched (left_by quiet (transmit_complete dis_connect 0 sending))
unfolding transmit_complete release resume start_next transmit_start occupy put_on_channel
    Channel.send schedule_receive get_delay get_another get_node get_mobility ◌>>=◌
transmit_complete-Matched_example =
    transmit_complete-Matched dis_connect dis_connect-Keeps 0 sending refl sending-Fired

pub bench-IsFraming : IsFraming bench
bench-IsFraming = record { trailer = λ t q. refl; fcs = λ b q. refl; header = λ h q. refl }

abbrev pub wired : Frame
wired = make_frame bench 1 0 2048 small

abbrev pub heard : World bench
heard = traced TraceSource.phy_rx_end 0 wired quiet

abbrev pub framed : Frame
framed = make_frame bench 0 1 2048 small
