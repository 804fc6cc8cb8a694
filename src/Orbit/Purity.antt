-- ===== src/Orbit/Purity.antt =====
-- DoGetPosition and DoGetVelocity of SatelliteMobilityModel
-- (cpp/contrib/satellite/model/satellite-mobility-model.cc) cast const away and write the true anomaly.
use osak_ext_ns.Prelude.{ℕ, ◌≡◌, refl, true, some, arith}
use osak_ext_ns.Floats.{Floats}
use osak_ext_ns.Orbit.{
  SatelliteMobilityModel, Eigen, set_time_epoch, mean_anomaly, with_anomaly, position_of,
  do_get_position,
}

module _ (fl : Floats) where
  open fl use {Real, lit, eq}

  set_time_epoch_lem :
      (fuel : ℕ) (t : Real) (m m' : SatelliteMobilityModel fl)
      → set_time_epoch fl fuel t m ≡ some m'
      → (f : Real) × (m' ≡ with_anomaly fl f m)
  unfolding set_time_epoch
  set_time_epoch_lem fuel t m m' h = (m'.element.f, ground arith)

  do_get_position-with_anomaly :
      (fuel : ℕ) (rotate : Eigen fl) (t f : Real) (m : SatelliteMobilityModel fl)
      → do_get_position fl fuel rotate t (with_anomaly fl f m) ≡ do_get_position fl fuel rotate t m
  unfolding do_get_position set_time_epoch mean_anomaly position_of
  do_get_position-with_anomaly fuel rotate t f m = refl

  -- A later query does not see what an earlier one wrote: after a query at any time the position and
  -- the object are what they are without it.
  pub do_get_position-set_time_epoch :
      (fuel fuel' : ℕ) (rotate : Eigen fl) (s t : Real) (m m' : SatelliteMobilityModel fl)
      → set_time_epoch fl fuel' s m ≡ some m'
      → do_get_position fl fuel rotate t m' ≡ do_get_position fl fuel rotate t m
  unfolding do_get_position set_time_epoch mean_anomaly
  do_get_position-set_time_epoch fuel fuel' rotate s t m m' h =
      let (f, e) = set_time_epoch_lem fuel' s m m' h in
      rw e (do_get_position-with_anomaly fuel rotate t f m)

  -- On a circular orbit a query ends without the loop, whatever the fuel, and the true anomaly is the
  -- mean anomaly.
  pub do_get_position_circular :
      (fuel : ℕ) (rotate : Eigen fl) (t : Real) (m : SatelliteMobilityModel fl)
      → eq m.ecc (lit 0 0) ≡ true
      → do_get_position fl fuel rotate t m
        ≡ some (
          position_of fl rotate (with_anomaly fl (mean_anomaly fl t m) m),
          with_anomaly fl (mean_anomaly fl t m) m,
        )
  unfolding do_get_position set_time_epoch
  do_get_position_circular fuel rotate t m h = rw (h, do_get_position, set_time_epoch)
