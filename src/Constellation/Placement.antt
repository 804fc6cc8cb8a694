-- ===== src/Constellation/Placement.antt =====
-- ConstellationHelper::Install (cpp/contrib/satellite/helper/constellation-helper.cc): a satellite in
-- each place of each plane. The nodes are the numbers below T. `pad2` is fmt's `{:02}`; the names are
-- the calls of Names::Add, newest first.
use osak_ext_ns.Prelude.{
  ℕ, zero, suc, ◌+◌, ◌-◌, ◌*◌, Bool, true, false, ◌&&◌, Option, none, some, List, [], ◌∷◌, ◌++◌,
  if◌then◌else◌, ◌==◌, update,
}
use osak_ext_ns.Floats.{Floats}
use osak_ext_ns.Orbit.{OrbitalElement, SatelliteMobilityModel, new_satellite, set_orbital_elements}
use osak_ext_ns.Constellation.{Helper, ConstellationType}

abbrev pub Text : Type 0
Text = List ℕ

abbrev pub is_delta : ConstellationType → Bool
is_delta ConstellationType.delta = true
is_delta ConstellationType.star = false

-- `S{:02}{:02}`
unfoldable pub satellite_name : (ℕ → Text) → ℕ → ℕ → Text
satellite_name pad2 i j = b'S' ∷ (pad2 i ++ pad2 j)

-- How far a satellite with true anomaly `f` is from the first one.
unfoldable pub anomaly_gap : (fl : Floats) → fl.Real → fl.Real → fl.Real
anomaly_gap fl first f =
    let theta = (if fl.lt (fl.◌⊕◌ first (fl.lit 180 0)) f then fl.◌⊖◌ f (fl.lit 360 0) else f) in
    fl.fmod (fl.abs (fl.◌⊖◌ first theta)) (fl.lit 360 0)

module _ (fl : Floats) where
  -- The state of the two loops: the helper, `minf`, the mobility models of the nodes, the names.
  pub record Placing : Type 0 where
    pub helper : Helper fl
    pub min_f : fl.Real
    pub models : ℕ → Option (SatelliteMobilityModel fl)
    pub names : List (Text × ℕ)

module _ {fl : Floats} where
  infixl 65 ◌⊕◌ ◌⊖◌
  infixl 70 ◌⊗◌ ◌⊘◌
  open fl use {Real, lit, of_int, ◌⊕◌, ◌⊖◌, ◌⊗◌, ◌⊘◌, lt}

  -- The elements of satellite `j` in plane `i`.
  unfoldable pub element_at : Helper fl → ℕ → ℕ → OrbitalElement fl
  element_at h i j =
      let delta_theta = lit 360 0 ⊘ of_int h.sats_in_plane in
      let delta_omega = lit 360 0 ⊗ of_int h.params.f ⊘ of_int h.params.t in
      record (h.allocate) {
        f = h.wizard.f ⊕ delta_omega ⊗ of_int i ⊕ delta_theta ⊗ of_int j;
        raan = h.wizard.raan ⊕ h.raan_span ⊘ of_int h.params.p ⊗ of_int i;
      }

  -- The search for the satellite of the last plane that is nearest to the first one.
  unfoldable pub match_last : ℕ → ℕ → Placing fl → Placing fl
  match_last i j s =
      let h = s.helper in
      let gap = anomaly_gap fl h.wizard.f h.allocate.f in
      if is_delta h.params.kind && i == h.params.p - 1 && lt gap s.min_f
      then record s { min_f = gap; helper = record h { best_match = j } }
      else s

  -- Install(node): a model is made for a node that has none.
  unfoldable pub install_model :
      OrbitalElement fl → Option (SatelliteMobilityModel fl) → SatelliteMobilityModel fl
  install_model el none = set_orbital_elements fl el (new_satellite fl)
  install_model el (some m) = set_orbital_elements fl el m

  unfoldable pub install_node : ℕ → Placing fl → Placing fl
  install_node node s = record s {
    models = update s.models node (some (install_model s.helper.allocate (s.models node)));
  }

  -- The name and the elements of satellite `j` in plane `i`.
  abbrev pub allocated : (ℕ → Text) → ℕ → ℕ → Placing fl → Placing fl
  allocated pad2 i j s = record s {
    names = (satellite_name pad2 i j, i * s.helper.sats_in_plane + j) ∷ s.names;
    helper = record (s.helper) { allocate = element_at s.helper i j };
  }

  -- The body of the loops.
  unfoldable pub place : (ℕ → Text) → ℕ → ℕ → Placing fl → Placing fl
  place pad2 i j s =
      install_node (i * s.helper.sats_in_plane + j) (match_last i j (allocated pad2 i j s))

  -- `for (int j = 0; j < N; j++)`, with `n` rounds left.
  unfoldable pub place_row : (ℕ → Text) → ℕ → ℕ → ℕ → Placing fl → Placing fl
  place_row pad2 i zero j s = s
  place_row pad2 i (suc n) j s = place_row pad2 i n (j + 1) (place pad2 i j s)

  -- `for (int i = 0; i < P; i++)`, with `n` rounds left.
  unfoldable pub place_rows : (ℕ → Text) → ℕ → ℕ → Placing fl → Placing fl
  place_rows pad2 zero i s = s
  place_rows pad2 (suc n) i s =
      place_rows pad2 n (i + 1) (place_row pad2 i s.helper.sats_in_plane 0 s)

  unfoldable pub install :
      (ℕ → Text) → Helper fl → (ℕ → Option (SatelliteMobilityModel fl)) → Placing fl
  install pad2 h models = place_rows pad2 h.params.p 0 (record {
    helper = record h { allocate = h.wizard };
    min_f = lit 720 0;
    models = models;
    names = [];
  })
