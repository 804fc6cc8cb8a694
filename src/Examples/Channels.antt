-- ===== src/Examples/Channels.antt =====
-- Runs of the channel: attaching, sending and receiving.
use osak_ext_ns.Prelude.{ℕ, ◌≡◌, refl, true, false, some, [], ◌∷◌, inl, ltb, arith}
use osak_ext_ns.Result.{ok, ◌>>=◌}
use osak_ext_ns.World.{World, Event}
use osak_ext_ns.Channel.{send, get_latitude}
use osak_ext_ns.Channel.Latitude.{IsWired, AreEnds}
use osak_ext_ns.Channel.Temporary.{NoneOver, Climbing, warned, send_temporary, warns_once}
use osak_ext_ns.Constellation.Links.{dis_connect}
use osak_ext_ns.Examples.{Frame, bench, equator, pole, world_at}

abbrev small : Frame
small = Frame.payload 10

abbrev low : World bench
low = world_at equator true []

abbrev high : World bench
high = world_at pole true []

abbrev fixed : World bench
fixed = world_at equator false []

low-IsWired : IsWired 7 0 1 equator equator 0 1 low
low-IsWired = record {
  end0 = refl;
  end1 = refl;
  model_a = refl;
  model_b = refl;
  node_a = refl;
  node_b = refl;
}

high-IsWired : IsWired 7 0 1 pole pole 0 1 high
high-IsWired = record {
  end0 = refl;
  end1 = refl;
  model_a = refl;
  model_b = refl;
  node_a = refl;
  node_b = refl;
}

pub fixed-IsWired : IsWired 7 0 1 equator equator 0 1 fixed
fixed-IsWired = record {
  end0 = refl;
  end1 = refl;
  model_a = refl;
  model_b = refl;
  node_a = refl;
  node_b = refl;
}

none_over : NoneOver dis_connect 7 0 1 equator equator 0 1 low
unfolding get_latitude
none_over = record { first = refl; second = refl }

-- The second end sends.
send_temporary_example :
    (w' : World bench) × (send dis_connect 7 1 small 3 low ≡ ok (true, w'))
    × (w'.events
        ≡ record { time = 108; context = some 0; event = Event.channel_receive 1 0 small } ∷ [])
    × ((w'.channels 7).last0 ≡ 0)
    × ((w'.channels 7).last1 ≡ 0)
    × (w'.devices ≡ low.devices)
    × (false ≡ true
        → Climbing dis_connect 7 0 1 equator equator 0 1 low
        → w'.log ≡ (warned dis_connect 7 0 1 equator equator 0 1 low).log)
    × (¬ Climbing dis_connect 7 0 1 equator equator 0 1 low → w'.log ≡ [])
unfolding get_latitude
send_temporary_example =
    (send_temporary dis_connect 7 0 1 equator equator 0 1 small 3 low low-IsWired (λ e. omega arith)
        refl).1
      none_over 1 0 0 AreEnds.second_to_first

-- Over the poles the same channel breaks.
send_over_run :
    send dis_connect 7 0 small 3 high ≡ (dis_connect 0 1 7 high >>= λ w'. ok (false, w'))
unfolding get_latitude
send_over_run =
    (send_temporary dis_connect 7 0 1 pole pole 0 1 small 3 high high-IsWired (λ e. omega arith)
        refl).0
      (inl refl) 0

irreflexive : (x : ℕ) → ltb x x ≡ false
irreflexive x = ground arith

-- With the warning's callback set, the first packet of an end that climbs past the threshold.
abbrev climbing : World bench
climbing = record high {
  channels = λ c. record (high.channels c) { lat_limit = 9; ready_break_cb = true };
}

climbing-IsWired : IsWired 7 0 1 pole pole 0 1 climbing
climbing-IsWired = record {
  end0 = refl;
  end1 = refl;
  model_a = refl;
  model_b = refl;
  node_a = refl;
  node_b = refl;
}

under_the_limit : NoneOver dis_connect 7 0 1 pole pole 0 1 climbing
unfolding get_latitude
under_the_limit = record { first = refl; second = refl }

warns_once_example :
    (w1 w2 : World bench) × (send dis_connect 7 0 small 3 climbing ≡ ok (true, w1))
    × (send dis_connect 7 1 small 3 w1 ≡ ok (true, w2))
    × (w2.log ≡ w1.log)
warns_once_example =
    warns_once dis_connect 7 0 1 pole pole 0 1 0 1 1 1 0 0 small small 3 3 climbing irreflexive
      AreEnds.first_to_second AreEnds.second_to_first climbing-IsWired (λ e. omega arith) refl
      under_the_limit
