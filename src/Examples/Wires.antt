-- ===== src/Examples/Wires.antt =====
-- Runs of the links of a constellation: broken, made again, kept.
use osak_ext_ns.Prelude.{
  arith, ℕ, ◌*◌, ◌≡◌, ◌<◌, ◌≤◌, refl, true, false, none, some, [], ◌∷◌, if◌then◌else◌, ◌==◌,
  contains,
}
use osak_ext_ns.Result.{Result, ok, ◌>>=◌}
use osak_ext_ns.World.{World, set_channel}
use osak_ext_ns.Channel.{detach}
use osak_ext_ns.Device.Machine.{Same}
use osak_ext_ns.Device
use osak_ext_ns.Floats.{Vector}
use osak_ext_ns.Channel
use osak_ext_ns.Constellation.{Helper, new_helper, set_latitude_limit}
use osak_ext_ns.Constellation.Devices.{Supplies, device_number, install_nodes}
use osak_ext_ns.Constellation.Terminals.{IsInstalled, install_nodes-IsInstalled}
use osak_ext_ns.World.{Direction}
use osak_ext_ns.Constellation.Links.{dis_connect, connect, notify, mark_broken}
use osak_ext_ns.Constellation.Links.Wiring.{IsBroken, dis_connect-IsBroken}
use osak_ext_ns.Constellation.Links.Reconnect.{connect-IsLinked, connect-dis_connect}
use osak_ext_ns.Constellation.Links.Linked.{IsLinked}
use osak_ext_ns.Constellation.Maintenance.{
  link_maintenance, visit_from, visit, visit_at, enter, break_link,
}
use osak_ext_ns.Constellation.Config.{latitude_degrees}
use osak_ext_ns.Constellation.Relink.{IsLeftBroken, reconnect_twice}
use osak_ext_ns.Constellation.Maintenance.{reconnect}
use osak_ext_ns.Constellation.Polar.{polar_after, latitude_of, link_maintenance-polar_after}
use osak_ext_ns.Examples.{bench, numbers, equator, pole, world_at, left_by}

abbrev linked : World bench
linked = world_at equator false []

abbrev unlinked : World bench
unlinked = let w = world_at equator false (7 ∷ 8 ∷ []) in set_channel 7 (detach (w.channels 7)) w

dis_connect-IsBroken_example :
    (w' : World bench) × (dis_connect 0 1 7 linked ≡ ok w') × IsBroken 0 1 7 linked w'
dis_connect-IsBroken_example = dis_connect-IsBroken 0 1 7 linked refl

connect-IsLinked_example :
    (w' : World bench) × (connect 0 1 unlinked ≡ ok w') × IsLinked 0 1 7 (8 ∷ []) unlinked w'
unfolding detach
connect-IsLinked_example =
    connect-IsLinked 0 1 7 (8 ∷ []) equator equator unlinked refl refl refl refl refl

connect-dis_connect_example :
    (w' w'' : World bench) × (dis_connect 0 1 7 linked ≡ ok w')
    × (connect 0 1 w' ≡ ok w'')
    × ((w''.devices 0).channel ≡ some 7)
    × ((w''.devices 1).channel ≡ some 7)
    × (w''.links.unused_link ≡ [])
    × ((d : ℕ) → contains w''.links.breaked_right d ≡ false)
    × ((d : ℕ) → contains w''.links.breaked_left d ≡ false)
unfolding contains
connect-dis_connect_example =
    connect-dis_connect 0 1 7 equator equator linked refl refl refl refl refl refl

-- Terminal 0 of satellite 0, which is above the limit of 50 degrees, is linked to terminal 5 of
-- satellite 1.
abbrev polar : World bench
polar =
    let w = world_at pole true [] in
    record w {
      devices = λ d. record (w.devices d) { channel = if d == 0 then some 7 else none };
      channels = λ c. record (w.channels c) { dev1 = some 5 };
    }

abbrev helper : Helper numbers
helper = set_latitude_limit 50 new_helper

abbrev round : Result (World bench)
round = link_maintenance helper 1 polar

link_maintenance-polar_after_example :
    ((k : ℕ)
      → k < 1
      → (m : Vector numbers) × (polar.mobilities k ≡ some m)
        × (contains (left_by polar round).links.over_polar k
            ≡ polar_after bench helper (latitude_of m polar) (contains polar.links.over_polar k)))
    × ((k : ℕ)
        → 1 ≤ k
        → contains (left_by polar round).links.over_polar k ≡ contains polar.links.over_polar k)
    × Same polar (left_by polar round)
unfolding link_maintenance visit_from visit visit_at enter break_link dis_connect notify mark_broken
    set_latitude_limit new_helper latitude_degrees Device.get_channel Channel.get_another
    Device.detach contains ◌>>=◌
link_maintenance-polar_after_example = link_maintenance-polar_after helper 1 polar refl

abbrev supplies : Supplies bench
supplies = record {
  make_queue = [];
  allocate_address = λ n. n;
  default_address = 255;
  default_rate = 1;
  rate = 2;
  rem = 0;
  stale_index = 0;
  stale_direction = Direction.up;
}

install_nodes-IsInstalled_example :
    (w' : World bench) × (install_nodes new_helper supplies 3 0 polar ≡ ok w')
    × ((i j : ℕ)
        → i < 3
        → j < 4
        → IsInstalled supplies i j (some pole) (w'.devices (device_number i j)))
    × ((d : ℕ) → 4 * 3 ≤ d → w'.devices d ≡ polar.devices d)
install_nodes-IsInstalled_example =
    install_nodes-IsInstalled new_helper supplies 3 polar (λ i l. (pole, refl))

-- One satellite in each of three planes; the left terminals of the first and the last are broken.
abbrev torn : World bench
torn =
    let w = world_at equator false (7 ∷ 8 ∷ []) in
    record w {
      channels = λ c. detach (w.channels c);
      links = record (w.links) { breaked_left = 1 ∷ 9 ∷ [] };
    }

torn-IsLeftBroken0 : IsLeftBroken 0 torn
unfolding contains
torn-IsLeftBroken0 = record { right = refl; left = refl; direction = refl }

torn-IsLeftBroken2 : IsLeftBroken 2 torn
unfolding contains
torn-IsLeftBroken2 = record { right = refl; left = refl; direction = refl }

reconnect_twice_example :
    (w' : World bench) × ((reconnect 1 (some 0) torn >>= reconnect 1 (some 2)) ≡ ok w')
    × ((w'.channels 7).dev0 ≡ some 1)
    × ((w'.channels 7).dev1 ≡ some 4)
    × ((w'.devices 1).channel ≡ some 7)
    × ((w'.devices 4).channel ≡ some 8)
unfolding detach
reconnect_twice_example =
    reconnect_twice 1 0 2 7 8 [] equator equator equator torn (λ e. omega arith) (λ e. omega arith)
      (λ e. omega arith) (λ e. omega arith) torn-IsLeftBroken0 torn-IsLeftBroken2 refl refl refl
      refl refl refl refl
