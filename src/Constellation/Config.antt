-- ===== src/Constellation/Config.antt =====
-- ConstellationHelper::LinkConfig and InstallDev (cpp/contrib/satellite/helper/constellation-helper.cc): the ring of
-- permanent links in each plane, and the temporary links between neighbouring planes. `find` is
-- Names::Find<OpticalDevice>, `pad2` fmt's `{:02}`. Channels are numbered as they are made; `stale` is
-- the `lat_limit` that a new channel's constructor leaves uninitialised.
use osak_ext_ns.Prelude.{
  ℕ, zero, suc, ◌+◌, ◌-◌, ◌*◌, ◌/◌, ◌%◌, Bool, true, false, ◌||◌, Option, none, ◌∷◌, if◌then◌else◌,
  insert,
}
use osak_ext_ns.Result.{Result, ok, ◌>>=◌, ◌>>◌, deref, divisor}
use osak_ext_ns.Floats.{Floats, Vector, get_length}
use osak_ext_ns.Platform.{Platform}
use osak_ext_ns.World.{Device, Channel, World, Event, set_channel, schedule}
use osak_ext_ns.Device.{get_mobility, get_node}
use osak_ext_ns.Device
use osak_ext_ns.Channel.{
  ChannelType, new_channel, set_type, set_latitude_limit, set_disconnect_callback,
  set_ready_break_callback,
}
use osak_ext_ns.Channel
use osak_ext_ns.Constellation.{Helper}
use osak_ext_ns.Constellation.Placement.{Text, satellite_name}
use osak_ext_ns.Constellation.Devices.{terminal_name, Supplies, install_nodes}
use osak_ext_ns.Constellation.Links.{set_links}

-- The terminal of a satellite, by its name, as both loops look it up.
unfoldable pub terminal : (Text → Option ℕ) → (ℕ → Text) → ℕ → ℕ → ℕ → Option ℕ
terminal find pad2 i j letter = find (terminal_name (satellite_name pad2 i j) letter)

-- The file's own GetLatitude: in degrees.
unfoldable pub latitude_degrees : (fl : Floats) → Vector fl → fl.Real
latitude_degrees fl pos =
    fl.◌⊗◌ (fl.◌⊘◌ (fl.lit 180 0) fl.pi) (fl.asin (fl.◌⊘◌ (fl.abs pos.z) (get_length fl pos)))

module _ {p : Platform} where
  -- Both ends are put on the channel, the first one first.
  unfoldable pub link_up : ℕ → ℕ → ℕ → World p → Result (World p)
  link_up c a b w = do
    w1 ← Channel.attach c a w
    w2 ← Channel.attach c b w1
    ok (Device.attach b c (Device.attach a c w2))

  unfoldable pub device_degrees : Device p → ℕ → Result p.floats.Real
  device_degrees d now = do
    m ← deref (get_mobility d)
    ok (latitude_degrees p.floats (p.get_position m now))

  -- `overPolar.insert(dev->GetNode()->GetId())`
  unfoldable pub mark_polar : Bool → Option ℕ → World p → Result (World p)
  mark_polar false owner w = ok w
  mark_polar true owner w = do
    n ← deref owner
    ok (set_links (record (w.links) { over_polar = insert n w.links.over_polar }) w)

  -- A temporary link that begins broken.
  unfoldable pub keep_broken : ℕ → ℕ → ℕ → Bool → Bool → World p → Result (World p)
  keep_broken c a b over_a over_b w = do
    let l = w.links
    let w1 =
        set_links
          (record l {
            unused_link = c ∷ l.unused_link;
            breaked_left = insert b l.breaked_left;
            breaked_right = insert a l.breaked_right;
          })
          w
    w2 ← mark_polar over_a (get_node (w1.devices a)) w1
    mark_polar over_b (get_node (w2.devices b)) w2

module _ {p : Platform} (find : Text → Option ℕ) (pad2 : ℕ → Text) (stale : p.floats.Real) where
  -- The body of the first loop.
  unfoldable pub permanent_link : ℕ → ℕ → ℕ → ℕ → World p → Result (World p)
  permanent_link n i j c w = do
    a ← deref (terminal find pad2 i j b'F')
    b ← deref (terminal find pad2 i ((j + 1) % n) b'B')
    link_up c a b (set_channel c (set_type ChannelType.forever (new_channel stale)) w)

  -- `for (int j = 0; j < N; j++)`, with `rounds` left and `c` the next channel.
  unfoldable pub permanent_row : ℕ → ℕ → ℕ → ℕ → ℕ → World p → Result (World p)
  permanent_row n i zero j c w = ok w
  permanent_row n i (suc rounds) j c w =
      permanent_link n i j c w >>= permanent_row n i rounds (j + 1) (c + 1)

  unfoldable pub permanent_rows : ℕ → ℕ → ℕ → ℕ → World p → Result (World p)
  permanent_rows n zero i c w = ok w
  permanent_rows n (suc rounds) i c w =
      permanent_row n i n 0 c w >>= permanent_rows n rounds (i + 1) (c + n)

  abbrev pub temporary_channel : Helper p.floats → Channel p
  temporary_channel h = set_ready_break_callback h.ready_break_cb (
      set_disconnect_callback true
        (set_latitude_limit h.lat_limit (set_type ChannelType.temporary (new_channel stale))))

  -- The body of the second loop: satellite `i` of planes `j` and `j + 1`.
  unfoldable pub temporary_link : Helper p.floats → ℕ → ℕ → ℕ → World p → Result (World p)
  temporary_link h i j c w0 = do
    let w = set_channel c (temporary_channel h) w0
    a ← deref (terminal find pad2 j i b'R')
    b ← deref (terminal find pad2 (j + 1) i b'L')
    lat1 ← device_degrees (w.devices a) w.now
    lat2 ← device_degrees (w.devices b) w.now
    let over1 = p.floats.lt h.lat_limit lat1
    let over2 = p.floats.lt h.lat_limit lat2
    if over1 || over2 then keep_broken c a b over1 over2 w else link_up c a b w

  unfoldable pub temporary_row : Helper p.floats → ℕ → ℕ → ℕ → ℕ → World p → Result (World p)
  temporary_row h i zero j c w = ok w
  temporary_row h i (suc rounds) j c w =
      temporary_link h i j c w >>= temporary_row h i rounds (j + 1) (c + 1)

  unfoldable pub temporary_rows : Helper p.floats → ℕ → ℕ → ℕ → ℕ → World p → Result (World p)
  temporary_rows h planes zero i c w = ok w
  temporary_rows h planes (suc rounds) i c w =
      temporary_row h i (planes - 1) 0 c w
      >>= temporary_rows h planes rounds (i + 1) (c + (planes - 1))

  unfoldable pub link_config : Helper p.floats → ℕ → World p → Result (World p)
  link_config h c w = do
    divisor h.params.p
    let n = h.params.t / h.params.p
    w1 ← permanent_rows n h.params.p 0 c w
    w2 ← temporary_rows h h.params.p n 0 (c + h.params.p * n) w1
    ok (schedule h.link_check_interval none Event.link_maintenance w2)

  -- InstallDev: the devices of the `nodes` nodes, and their links.
  unfoldable pub install_dev : Helper p.floats → Supplies p → ℕ → ℕ → World p → Result (World p)
  install_dev h k nodes c w = install_nodes h k nodes 0 w >>= link_config h c
