-- ===== src/Constellation/Match.antt =====
-- ConstellationHelper::GetBestMatch (cpp/contrib/satellite/helper/constellation-helper.cc): the
-- constellation type that SetConstellationParams is given is not stored.
use osak_ext_ns.Prelude.{ℕ, zero, suc, ◌+◌, ◌≡◌, ◌∙◌, Option, arith}
use osak_ext_ns.Floats.{Floats}
use osak_ext_ns.Orbit.{SatelliteMobilityModel}
use osak_ext_ns.Constellation.{
  Helper, WalkerParams, ConstellationType, set_constellation_params, divide_planes, get_best_match,
}
use osak_ext_ns.Constellation.Placement.{
  Text, Placing, match_last, place, place_row, place_rows, install, install_node,
}

module _ {fl : Floats} where
  abbrev IsIdle : Helper fl → Placing fl → Type 0
  IsIdle h s =
      (s.helper.params.kind ≡ ConstellationType.star) × (s.helper.best_match ≡ h.best_match)

  place-IsIdle :
      (pad2 : ℕ → Text) (i j : ℕ) (h : Helper fl) (s : Placing fl)
      → IsIdle h s
      → IsIdle h (place pad2 i j s)
  unfolding place match_last install_node
  place-IsIdle pad2 i j h s v = ground arith

  place_row-IsIdle :
      (pad2 : ℕ → Text) (i n j : ℕ) (h : Helper fl) (s : Placing fl)
      → IsIdle h s
      → IsIdle h (place_row pad2 i n j s)
  unfolding place_row
  place_row-IsIdle pad2 i zero j h s v = v
  place_row-IsIdle pad2 i (suc n) j h s v =
      place_row-IsIdle pad2 i n (j + 1) h (place pad2 i j s) (place-IsIdle pad2 i j h s v)

  place_rows-IsIdle :
      (pad2 : ℕ → Text) (n i : ℕ) (h : Helper fl) (s : Placing fl)
      → IsIdle h s
      → IsIdle h (place_rows pad2 n i s)
  unfolding place_rows
  place_rows-IsIdle pad2 zero i h s v = v
  place_rows-IsIdle pad2 (suc n) i h s v =
      place_rows-IsIdle pad2 n (i + 1) h (place_row pad2 i s.helper.sats_in_plane 0 s)
        (place_row-IsIdle pad2 i s.helper.sats_in_plane 0 h s v)

  set_constellation_params_kind :
      (q : WalkerParams) (h : Helper fl)
      → ((set_constellation_params q h).0.params.kind ≡ h.params.kind)
        × ((set_constellation_params q h).0.best_match ≡ h.best_match)
  unfolding set_constellation_params divide_planes
  set_constellation_params_kind q h = ground arith

  -- Whatever parameters are set, those of type DELTA too, placing the satellites never finds a best
  -- match: a helper that was built for type STAR, as every new one is, answers what it did before.
  pub get_best_match-install :
      (pad2 : ℕ → Text) (q : WalkerParams) (h : Helper fl)
      (models : ℕ → Option (SatelliteMobilityModel fl))
      → h.params.kind ≡ ConstellationType.star
      → get_best_match (install pad2 (set_constellation_params q h).0 models).helper
        ≡ get_best_match h
  unfolding get_best_match install
  get_best_match-install pad2 q h models star =
      let (kind, best) = set_constellation_params_kind q h in
      (place_rows-IsIdle pad2 _ 0 h _ (kind ∙ star, best)).1
