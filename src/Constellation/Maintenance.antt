-- ===== src/Constellation/Maintenance.antt =====
-- ConstellationHelper::LinkMaintenance (cpp/contrib/satellite/helper/constellation-helper.cc): links
-- are broken where a satellite enters the polar region, and made again where one leaves it.
-- `nodes.Get(k)` is node `k`, with the identifier `k`.
use osak_ext_ns.Prelude.{
  ℕ, zero, suc, ◌+◌, ◌-◌, ◌/◌, Bool, not, ◌&&◌, Option, none, some, List, if◌then◌else◌, ◌==◌,
  insert, erase, contains,
}
use osak_ext_ns.Result.{Result, ok, ◌>>=◌, ◌>>◌, deref, divisor}
use osak_ext_ns.Platform.{Platform}
use osak_ext_ns.World.{World, Event, schedule}
use osak_ext_ns.Device.{get_channel}
use osak_ext_ns.Channel.{get_another}
use osak_ext_ns.Constellation.{Helper}
use osak_ext_ns.Constellation.Devices.{device_number}
use osak_ext_ns.Constellation.Config.{latitude_degrees}
use osak_ext_ns.Constellation.Links.{set_links, connect, dis_connect}

-- `adj1` and `adj2`: the same place in the planes before and after, if that satellite is there and
-- is not in the polar region.
unfoldable pub outside_polar : List ℕ → Bool → ℕ → Option ℕ
outside_polar over exists adj = if exists && not (contains over adj) then some adj else none

unfoldable pub plane_before : ℕ → List ℕ → ℕ → Option ℕ
plane_before n over node = outside_polar over (not (node / n == 0)) (node - n)

unfoldable pub plane_after : ℕ → ℕ → List ℕ → ℕ → Option ℕ
plane_after n planes over node = outside_polar over (not (node / n == planes - 1)) (node + n)

module _ {p : Platform} where
  -- DisConnect of the terminal `d` and the one at the other end of its channel, if it has one.
  unfoldable pub break_link : ℕ → Option ℕ → World p → Result (World p)
  break_link d none w = ok w
  break_link d (some c) w =
      deref (get_another (w.channels c) d) >>= λ other. dis_connect other d c w

  abbrev pub set_polar : List ℕ → World p → World p
  set_polar over w = set_links (record (w.links) { over_polar = over }) w

  -- A satellite enters the polar region.
  unfoldable pub enter : ℕ → World p → Result (World p)
  enter node w0 = do
    let w = set_polar (insert node w0.links.over_polar) w0
    let right = device_number node 0
    let left = device_number node 1
    let channel_left = get_channel (w.devices left)
    w1 ← break_link right (get_channel (w.devices right)) w
    break_link left channel_left w1

  -- A neighbour's terminal that is recorded as broken is linked to the opposite one of the node.
  unfoldable pub reconnect_right : ℕ → ℕ → World p → Result (World p)
  reconnect_right node adj w =
      if contains w.links.breaked_right (device_number adj 0)
      then connect (device_number adj 0) (device_number node 1) w
      else ok w

  unfoldable pub reconnect_left : ℕ → ℕ → World p → Result (World p)
  reconnect_left node adj w =
      if contains w.links.breaked_left (device_number adj 1)
      then connect (device_number adj 1) (device_number node 0) w
      else ok w

  unfoldable pub reconnect : ℕ → Option ℕ → World p → Result (World p)
  reconnect node none w = ok w
  reconnect node (some adj) w = reconnect_right node adj w >>= reconnect_left node adj

  -- A satellite leaves the polar region.
  unfoldable pub leave : ℕ → ℕ → ℕ → World p → Result (World p)
  leave n planes node w0 = do
    divisor n
    let over = erase node w0.links.over_polar
    let before = plane_before n over node
    let after = plane_after n planes over node
    w1 ← reconnect node before (set_polar over w0)
    reconnect node after w1

  -- The body of the loop, for a satellite at latitude `lat`.
  unfoldable pub visit_at : Helper p.floats → ℕ → p.floats.Real → World p → Result (World p)
  visit_at h node lat w = do
    let n = h.params.t / h.params.p
    w1 ←
        (if p.floats.lt h.lat_limit lat && not (contains w.links.over_polar node)
          then enter node w
          else ok w)
    if p.floats.lt lat h.lat_limit && contains w1.links.over_polar node
        then leave n h.params.p node w1
        else ok w1

  unfoldable pub visit : Helper p.floats → ℕ → World p → Result (World p)
  visit h node w = do
    m ← deref (w.mobilities node)
    visit_at h node (latitude_degrees p.floats (p.get_position m w.now)) w

  -- `for (uint32_t i = 0; i < nodes.GetN(); i++)`, with `rounds` left.
  unfoldable pub visit_from : Helper p.floats → ℕ → ℕ → World p → Result (World p)
  visit_from h zero node w = ok w
  visit_from h (suc rounds) node w = visit h node w >>= visit_from h rounds (node + 1)

  unfoldable pub link_maintenance : Helper p.floats → ℕ → World p → Result (World p)
  link_maintenance h nodes w = do
    divisor h.params.p
    w' ← visit_from h nodes 0 w
    ok (schedule h.link_check_interval none Event.link_maintenance w')
