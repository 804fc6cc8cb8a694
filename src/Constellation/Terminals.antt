-- ===== src/Constellation/Terminals.antt =====
-- The terminals that ConstellationHelper::InstallDev makes
-- (cpp/contrib/satellite/helper/constellation-helper.cc).
use osak_ext_ns.Prelude.{
  ℕ, zero, suc, ◌+◌, ◌*◌, ◌≤◌, ◌<◌, ◌≡◌, ◌⊎◌, refl, sym, ap, ◌∙◌, subst, true, false, Option, none,
  some, arith, ◌==◌, Bool-cases, ==_iff, inl, inr,
}
use osak_ext_ns.Result.{ok, ◌>>=◌, bind_ok}
use osak_ext_ns.Platform.{Platform}
use osak_ext_ns.World.{Device, World, TxMachineState, set_device}
use osak_ext_ns.Device.{
  new_device, set_queue, set_address, set_data_rate, set_receive_error_model, set_direction,
  set_wave_length, set_tx_power_dbm, set_rx_sensitivity_dbm, set_tx_gain, set_rx_gain, set_node,
  set_if_index, set_receive_callback,
}
use osak_ext_ns.Constellation.{Helper}
use osak_ext_ns.Constellation.Devices.{
  Supplies, device_number, direction_of, configure, add_device, install_terminal, install_terminals,
  install_nodes,
}

module _ {p : Platform} where
  -- A terminal as InstallDev leaves it: number `j` of node `i`, whose mobility model is `m`.
  pub record IsInstalled (k : Supplies p) (i j : ℕ) (m : Option p.Mobility) (d : Device p)
      : Type 0 where
    pub node : d.node ≡ some i
    pub mobility : d.mobility ≡ m
    pub if_index : d.if_index ≡ j
    pub direction : d.direction ≡ direction_of j
    pub queue : d.queue ≡ some k.make_queue
    pub idle : d.tx_machine_state ≡ TxMachineState.ready
    pub channel : d.channel ≡ none
    pub down : d.link_up ≡ false
    pub listens : d.rx_callback ≡ true

  module _ (h : Helper p.floats) (k : Supplies p) where
    built : ℕ → ℕ → Option p.Mobility → Device p
    built i j m = set_receive_callback true (
        set_if_index j
          (record (configure h k (device_number i j) j) { node = some i; mobility = m }))

    built-IsInstalled : (i j : ℕ) (m : Option p.Mobility) → IsInstalled k i j m (built i j m)
    unfolding built configure new_device set_queue set_address set_data_rate set_receive_error_model
        set_direction set_wave_length set_tx_power_dbm set_rx_sensitivity_dbm set_tx_gain
        set_rx_gain set_if_index set_receive_callback
    built-IsInstalled i j m = record {
      node = refl;
      mobility = refl;
      if_index = refl;
      direction = refl;
      queue = refl;
      idle = refl;
      channel = refl;
      down = refl;
      listens = refl;
    }

    install_terminal-built :
        (i j : ℕ) (m : p.Mobility) (w : World p)
        → w.mobilities i ≡ some m
        → install_terminal h k i j w
          ≡ ok (set_device (device_number i j) (built i j (w.mobilities i)) w)
    unfolding install_terminal add_device set_node built ◌>>=◌
    install_terminal-built i j m w e = ground arith

    -- Terminals `j` to `j + n - 1` of node `i` were made.
    record IsRow (i j n : ℕ) (w w' : World p) : Type 0 where
      made :
          (l : ℕ) → j ≤ l → l < j + n → w'.devices (device_number i l) ≡ built i l (w.mobilities i)
      others :
          (d : ℕ)
          → (d < device_number i j) ⊎ (device_number i (j + n) ≤ d)
          → w'.devices d ≡ w.devices d
      models : w'.mobilities ≡ w.mobilities

    after_terminal :
        (i j n d : ℕ)
        → (d < device_number i j) ⊎ (device_number i (j + suc n) ≤ d)
        → (d < device_number i (j + 1)) ⊎ (device_number i (j + 1 + n) ≤ d)
    after_terminal i j n d (inl o) = inl (omega arith)
    after_terminal i j n d (inr o) = inr (omega arith)

    other_terminal :
        (i j n d : ℕ) (v : Device p) (w : World p)
        → (d < device_number i j) ⊎ (device_number i (j + suc n) ≤ d)
        → (set_device (device_number i j) v w).devices d ≡ w.devices d
    other_terminal i j n d v w (inl o) = ground arith
    other_terminal i j n d v w (inr o) = ground arith

    install_terminals-IsRow :
        (i n j : ℕ) (m : p.Mobility) (w : World p)
        → w.mobilities i ≡ some m
        → (w' : World p) × (install_terminals h k i n j w ≡ ok w') × IsRow i j n w w'
    unfolding install_terminals
    install_terminals-IsRow i zero j m w e = (
      w,
      refl,
      record { made = λ l a b. absurd (omega arith); others = λ d o. refl; models = refl },
    )
    install_terminals-IsRow i (suc n) j m w e =
        let w1 = set_device (device_number i j) (built i j (w.mobilities i)) w in
        let (w', rest, r) = install_terminals-IsRow i n (j + 1) m w1 e in
        (
          w',
          bind_ok (install_terminal h k i j w) _ (install_terminal-built i j m w e) ∙ rest,
          record {
            made = λ l a b. elim (Bool-cases (l == j)) [
              | inl here ↦
                  rw ((==_iff l j).0 here)
                    (r.others (device_number i j) (inl (omega arith)) ∙ ground arith)
              | inr later ↦ r.made l (ground arith) (omega arith)
            ];
            others = λ d o. r.others d (after_terminal i j n d o) ∙ other_terminal i j n d _ w o;
            models = r.models;
          },
        )

    -- The terminals of nodes `i` to `i + n - 1` were made.
    record IsFleet (i n : ℕ) (w w' : World p) : Type 0 where
      made :
          (a j : ℕ)
          → i ≤ a
          → a < i + n
          → j < 4
          → w'.devices (device_number a j) ≡ built a j (w.mobilities a)
      others :
          (d : ℕ)
          → (d < device_number i 0) ⊎ (device_number (i + n) 0 ≤ d)
          → w'.devices d ≡ w.devices d
      models : w'.mobilities ≡ w.mobilities

    beside_row :
        (i n d : ℕ)
        → (d < device_number i 0) ⊎ (device_number (i + suc n) 0 ≤ d)
        → (d < device_number i 0) ⊎ (device_number i (0 + 4) ≤ d)
    beside_row i n d (inl o) = inl o
    beside_row i n d (inr o) = inr (omega arith)

    beside_fleet :
        (i n d : ℕ)
        → (d < device_number i 0) ⊎ (device_number (i + suc n) 0 ≤ d)
        → (d < device_number (i + 1) 0) ⊎ (device_number (i + 1 + n) 0 ≤ d)
    beside_fleet i n d (inl o) = inl (omega arith)
    beside_fleet i n d (inr o) = inr (omega arith)

    install_nodes-IsFleet :
        (n i : ℕ) (w : World p)
        → ((a : ℕ) → i ≤ a → a < i + n → (m : p.Mobility) × (w.mobilities a ≡ some m))
        → (w' : World p) × (install_nodes h k n i w ≡ ok w') × IsFleet i n w w'
    unfolding install_nodes
    install_nodes-IsFleet zero i w placed = (
      w,
      refl,
      record { made = λ a j l u. absurd (omega arith); others = λ d o. refl; models = refl },
    )
    install_nodes-IsFleet (suc n) i w placed =
        let (m, e) = placed i (omega arith) (omega arith) in
        let (w1, first, row) = install_terminals-IsRow i 4 0 m w e in
        let (w', rest, r) = install_nodes-IsFleet n (i + 1) w1 (λ a l u.
          let (m', e') = placed a (omega arith) (omega arith) in
          (m', ap (λ f. f a) row.models ∙ e')) in
        (
          w',
          bind_ok (install_terminals h k i 4 0 w) _ first ∙ rest,
          record {
            made = λ a j l u v. elim (Bool-cases (a == i)) [
              | inl here ↦
                  rw ((==_iff a i).0 here)
                    (r.others (device_number i j) (inl (omega arith)) ∙ row.made j (omega arith) v)
              | inr later ↦
                  r.made a j (ground arith) (omega arith) v ∙ ap (λ f. built a j (f a)) row.models
            ];
            others = λ d o. r.others d (beside_fleet i n d o) ∙ row.others d (beside_row i n d o);
            models = r.models ∙ row.models;
          },
        )

    -- If each of the nodes has a mobility model, InstallDev's loops succeed: terminal `j` of node `i`
    -- is on that node, with its mobility model, the interface index and the direction of `j`, a new
    -- queue and the node's receive callback; it is idle, down, and on no channel. No other device
    -- changes.
    pub install_nodes-IsInstalled :
        (nodes : ℕ) (w : World p)
        → ((i : ℕ) → i < nodes → (m : p.Mobility) × (w.mobilities i ≡ some m))
        → (w' : World p) × (install_nodes h k nodes 0 w ≡ ok w')
          × ((i j : ℕ)
              → i < nodes
              → j < 4
              → IsInstalled k i j (w.mobilities i) (w'.devices (device_number i j)))
          × ((d : ℕ) → 4 * nodes ≤ d → w'.devices d ≡ w.devices d)
    install_nodes-IsInstalled nodes w placed =
        let (w', done, r) = install_nodes-IsFleet nodes 0 w (λ a l u. placed a (omega arith)) in
        (
          w',
          done,
          λ i j l u.
              subst (IsInstalled k i j (w.mobilities i))
                (sym (r.made i j (omega arith) (omega arith) u))
                (built-IsInstalled i j (w.mobilities i)),
          λ d l. r.others d (inr (omega arith)),
        )
