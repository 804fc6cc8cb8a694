-- ===== src/Examples/Runs.antt =====
-- A run: terminal 0 sends a packet to terminal 1, and completes the transmission.
use osak_ext_ns.Prelude.{◌+◌, ◌*◌, ℕ, ◌≡◌, ◌≢◌, refl, true, none, some, [], ◌∷◌, arith}
use osak_ext_ns.Result.{ok, ◌>>=◌}
use osak_ext_ns.World.{World, Event, Scheduled, TxMachineState}
use osak_ext_ns.Channel
use osak_ext_ns.Channel.{schedule_receive, get_another, channel_receive}
use osak_ext_ns.Device.{is_link_up, get_mobility, get_node}
use osak_ext_ns.Device.Frame.{make_frame, pad}
use osak_ext_ns.Device.Transmit.{
  occupy, put_on_channel, transmit_start, start_next, enqueue_frame, send_from, release, resume,
  transmit_complete,
}
use osak_ext_ns.Device.Machine.{Matched}
use osak_ext_ns.Constellation.{new_helper}
use osak_ext_ns.Constellation.Links.{dis_connect}
use osak_ext_ns.System.{Step, Run, at_event}
use osak_ext_ns.System.Reachable.{Run-Matched}
use osak_ext_ns.Channel.Latitude.{AreEnds}
use osak_ext_ns.System.Delivery.{IsIdleOn, send_from_delivers}
use osak_ext_ns.Examples.{size, Frame, bench, equator, world_of, left_by, terminal_at}
use osak_ext_ns.Examples.Devices.{quiet, quiet-Matched, small, sent, framed, wired}
use osak_ext_ns.Examples.Channels.{fixed-IsWired}

abbrev w1 : World bench
w1 = world_of quiet sent

-- What is scheduled then: the reception after the delay of 5, and the completion.
abbrev arrival : Scheduled bench
arrival = record { time = 233; context = some 1; event = Event.channel_receive 0 1 framed }

abbrev completion : Scheduled bench
completion = record { time = 228; context = none; event = Event.transmit_complete 0 }

abbrev w2 : World bench
w2 = left_by w1 (transmit_complete dis_connect 0 (at_event 228 (arrival ∷ []) w1))

two_steps : Run new_helper 2 quiet w2
unfolding send_from enqueue_frame start_next transmit_start occupy put_on_channel Channel.send
    schedule_receive Channel.get_delay get_another get_node get_mobility is_link_up ◌>>=◌ make_frame
    pad transmit_complete release resume
two_steps =
    Run.step quiet w1 w2
      (Run.step quiet quiet w1 (Run.start quiet) (Step.sends 0 small 0 1 2048 true quiet w1 refl))
      (Step.completes 0 completion (arrival ∷ []) [] w1 w2 refl refl refl)

Run-Matched_example : Matched w2
Run-Matched_example = Run-Matched new_helper 2 quiet w2 two_steps quiet-Matched

quiet-IsIdleOn : IsIdleOn 7 0 1 1 equator equator 0 1 [] quiet
quiet-IsIdleOn = record {
  wired = fixed-IsWired;
  apart = λ e. omega arith;
  forever = refl;
  up = refl;
  channel = refl;
  queue = refl;
  state = refl;
}

-- The second end sends to the first.
abbrev returned : Frame
returned = make_frame bench 1 0 2048 small

send_from_delivers_example :
    (w' : World bench) × (send_from dis_connect 1 small 1 0 2048 quiet ≡ ok (true, w'))
    × (w'.events
        ≡ record {
          time = 100 + (5 + 2 * size returned);
          context = some 0;
          event = Event.channel_receive 1 0 returned;
        }
          ∷ record {
            time = 100 + 2 * size returned;
            context = none;
            event = Event.transmit_complete 1;
          }
          ∷ [])
    × ((w'.devices 1).tx_machine_state ≡ TxMachineState.busy)
    × ((w'.devices 1).current_pkt ≡ some returned)
    × ((d : ℕ) → d ≢ 1 → w'.devices d ≡ terminal_at equator d)
send_from_delivers_example =
    send_from_delivers dis_connect 7 0 1 equator equator 0 1 1 0 0 small 1 0 2048 [] quiet
      AreEnds.second_to_first quiet-IsIdleOn refl refl refl refl
