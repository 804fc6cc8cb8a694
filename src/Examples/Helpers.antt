-- ===== src/Examples/Helpers.antt =====
-- Runs of the constellation's parameters and of the placement and motion of satellites.
use osak_ext_ns.Prelude.{
  ◌↔◌, ◌*◌, ◌<◌, ℕ, zero, suc, ◌*◌, ◌<◌, ◌≡◌, refl, true, Option, none, some, [], ◌∷◌, arith,
}
use osak_ext_ns.Result.{ok}
use osak_ext_ns.Orbit.{
  SatelliteMobilityModel, Eigen, newton, ratio, set_time_epoch, do_get_position, mean_anomaly,
  with_anomaly, true_anomaly, initial_guess,
}
use osak_ext_ns.Orbit.Kepler.{iterate, is_coarse, FirstFine, newton_iff}
use osak_ext_ns.Orbit.Purity.{do_get_position-set_time_epoch}
use osak_ext_ns.Constellation.{
  Helper, WalkerParams, ConstellationType, new_helper, set_constellation_params, get_sats_in_plane,
  get_best_match,
}
use osak_ext_ns.Constellation.Params.{set_constellation_params_iff}
use osak_ext_ns.Constellation.Placement.{install}
use osak_ext_ns.Constellation.Match.{get_best_match-install}
use osak_ext_ns.Examples.{numbers}

abbrev six_planes : WalkerParams
six_planes = record { kind = ConstellationType.delta; t = 66; p = 6; f = 1 }

abbrev seven_planes : WalkerParams
seven_planes = record { kind = ConstellationType.star; t = 66; p = 7; f = 1 }

abbrev fresh : Helper numbers
fresh = new_helper

set_constellation_params_iff_example :
    let after = (set_constellation_params seven_planes fresh).0 in
    (((set_constellation_params seven_planes fresh).1 ≡ ok tt)
      ↔ ((k : ℕ) × (0 < 7) × (k * 7 ≡ 66) × (get_sats_in_plane after ≡ k)))
    × (after.params.p ≡ 7)
    × (after.params.f ≡ 1)
    × (after.params.t ≡ 66)
    × (after.params.kind ≡ fresh.params.kind)
set_constellation_params_iff_example = set_constellation_params_iff seven_planes fresh

abbrev no_models : ℕ → Option (SatelliteMobilityModel numbers)
no_models k = none

get_best_match-install_example :
    get_best_match
      (install (λ n. n ∷ []) (set_constellation_params six_planes fresh).0 no_models).helper
    ≡ get_best_match fresh
unfolding new_helper
get_best_match-install_example =
    get_best_match-install (λ n. n ∷ []) six_planes fresh no_models refl

-- From 5 towards 2 on a circle: one correction.
coarse_before : (k : ℕ) → k < 1 → is_coarse numbers 0 2 (iterate numbers k 0 2 5) ≡ true
unfolding iterate ratio
coarse_before zero h = refl
coarse_before (suc k) h = absurd (omega arith)

newton_iff_example :
    (newton numbers 2 0 2 5 ≡ some 2)
    ↔ ((n : ℕ) × (n < 2) × (2 ≡ iterate numbers n 0 2 5) × FirstFine numbers n 0 2 5)
newton_iff_example = newton_iff numbers 2 0 2 5 2

abbrev plain : Eigen numbers
plain raan i w v = v

-- An object on an orbit that is not circular.
abbrev satellite : SatelliteMobilityModel numbers
satellite = record {
  element = record { a = 7000; e = 1; f = 0; i = 0; w = 0; raan = 0 };
  period = 6;
  e0 = 0;
  m0 = 0;
  p = 7000;
  ecc = 1;
  courses = 0;
}

abbrev moved : SatelliteMobilityModel numbers
moved = with_anomaly numbers 0 satellite

do_get_position-set_time_epoch_example :
    do_get_position numbers 9 plain 5 moved ≡ do_get_position numbers 9 plain 5 satellite
unfolding set_time_epoch newton ratio mean_anomaly true_anomaly initial_guess
do_get_position-set_time_epoch_example =
    do_get_position-set_time_epoch numbers 9 1 plain 4 5 satellite moved refl

abbrev circling : SatelliteMobilityModel numbers
circling = record satellite { ecc = 0 }
