-- ===== src/Constellation/Devices.antt =====
-- The loops of ConstellationHelper::InstallDev (cpp/contrib/satellite/helper/constellation-helper.cc): four
-- terminals on each satellite. Terminal `j` of node `i` is device `4 * i + j`; `pad2` is fmt's
-- `{:02}`. `make_queue`, `allocate_address` and `rate` stand for the queue factory,
-- Mac48Address::Allocate and DataRate.
use osak_ext_ns.Prelude.{ℕ, zero, suc, ◌+◌, ◌*◌, true, some, List, [], ◌∷◌, ◌++◌}
use osak_ext_ns.Result.{Result, ok, ◌>>=◌}
use osak_ext_ns.Platform.{Platform}
use osak_ext_ns.World.{Device, World, Direction, set_device}
use osak_ext_ns.Device.{
  new_device, set_queue, set_address, set_data_rate, set_receive_error_model, set_direction,
  set_wave_length, set_tx_power_dbm, set_rx_sensitivity_dbm, set_tx_gain, set_rx_gain, set_node,
  set_if_index, set_receive_callback,
}
use osak_ext_ns.Constellation.{Helper}
use osak_ext_ns.Constellation.Placement.{Text}

abbrev pub device_number : ℕ → ℕ → ℕ
device_number node j = 4 * node + j

-- `static_cast<OpticalDevice::Direction>(j)`
unfoldable pub direction_of : ℕ → Direction
direction_of zero = Direction.right
direction_of (suc zero) = Direction.left
direction_of (suc (suc zero)) = Direction.forward
direction_of (suc (suc (suc j))) = Direction.backward

-- `char desc[5] = "RLFB"`
abbrev pub desc : List ℕ
desc = b'R' ∷ b'L' ∷ b'F' ∷ b'B' ∷ []

-- `{}/eth{}`
unfoldable pub terminal_name : Text → ℕ → Text
terminal_name name letter = name ++ (b'/' ∷ b'e' ∷ b't' ∷ b'h' ∷ letter ∷ [])

module _ (p : Platform) where
  -- What InstallDev takes from ns-3: the factories' products, and the error model with rate 0.
  pub record Supplies : Type 0 where
    pub make_queue : p.Queue
    pub allocate_address : ℕ → p.Mac
    pub default_address : p.Mac
    pub default_rate : p.DataRate
    pub rate : p.DataRate
    pub rem : ℕ
    pub stale_index : ℕ
    pub stale_direction : Direction

module _ {p : Platform} where
  unfoldable pub configure : Helper p.floats → Supplies p → ℕ → ℕ → Device p
  configure h k number j = set_rx_gain h.rx_gain (
      set_tx_gain h.tx_gain (
        set_rx_sensitivity_dbm h.rx_sensitivity (
          set_tx_power_dbm h.tx_power (
            set_wave_length h.lambda (
              set_direction (direction_of j) (
                set_receive_error_model (some k.rem) (
                  set_data_rate k.rate (
                    set_address (p.to_address (k.allocate_address number)) (
                      set_queue (some k.make_queue) (
                        new_device k.default_address k.default_rate k.stale_index
                          k.stale_direction))))))))))

  -- Node::AddDevice sets the node, the interface index and the receive callback.
  unfoldable pub add_device : ℕ → ℕ → Device p → World p → Result (Device p)
  add_device node j d w = do
    d' ← set_node w.mobilities (some node) d
    ok (set_receive_callback true (set_if_index j d'))

  unfoldable pub install_terminal :
      Helper p.floats → Supplies p → ℕ → ℕ → World p → Result (World p)
  install_terminal h k node j w = do
    d ← add_device node j (configure h k (device_number node j) j) w
    ok (set_device (device_number node j) d w)

  -- `for (int j = 0; j < 4; j++)`, with `n` rounds left.
  unfoldable pub install_terminals :
      Helper p.floats → Supplies p → ℕ → ℕ → ℕ → World p → Result (World p)
  install_terminals h k node zero j w = ok w
  install_terminals h k node (suc n) j w =
      install_terminal h k node j w >>= install_terminals h k node n (j + 1)

  -- The loop over the nodes, with `n` nodes left.
  unfoldable pub install_nodes : Helper p.floats → Supplies p → ℕ → ℕ → World p → Result (World p)
  install_nodes h k zero node w = ok w
  install_nodes h k (suc n) node w =
      install_terminals h k node 4 0 w >>= install_nodes h k n (node + 1)
