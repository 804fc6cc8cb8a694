-- ===== src/Orbit.antt =====
-- cpp/contrib/satellite/model/satellite-mobility-model.h and satellite-mobility-model.cc: a satellite
-- on an unperturbed Kepler orbit. Eigen's rotation is the argument `rotate` (an `Eigen` value). The
-- Newton loop for Kepler's equation has fuel: `none` means that it ran out.
pub mod Kepler
pub mod Purity
use osak_ext_ns.Prelude.{ℕ, zero, suc, Bool, Option, none, some, if◌then◌else◌}
use osak_ext_ns.Floats.{Floats, Vector}

module _ (fl : Floats) where
  open fl use {Real}

  -- `struct OrbitalElement`
  pub record OrbitalElement : Type 0 where
    pub a : Real
    pub e : Real
    pub f : Real
    pub i : Real
    pub w : Real
    pub raan : Real

  -- The fields of class SatelliteMobilityModel that change; `miu` and `prec` are constants.
  -- `courses` counts the calls of NotifyCourseChange.
  pub record SatelliteMobilityModel : Type 0 where
    pub element : OrbitalElement
    pub period : Real
    pub e0 : Real
    pub m0 : Real
    pub p : Real
    pub ecc : Real
    pub courses : ℕ

  -- `AngleAxisd(raan, Z) * AngleAxisd(i, X) * AngleAxisd(w, Z)` applied to a vector.
  abbrev pub Eigen : Type 0
  Eigen = Real → Real → Real → Vector fl → Vector fl

module _ (fl : Floats) where
  infixl 65 ◌⊕◌ ◌⊖◌
  infixl 70 ◌⊗◌ ◌⊘◌
  open fl use {
    Real, lit, neg, ◌⊕◌, ◌⊖◌, ◌⊗◌, ◌⊘◌, lt, eq, pi, abs, sqrt, pow, fmod, sin, cos, tan, atan,
  }

  -- 3.986 * 1e5
  abbrev pub miu : Real
  miu = lit 3986 3 ⊗ lit 100_000 0

  abbrev pub prec : Real
  prec = lit 1 7

  -- `RAD(x)`
  abbrev pub rad : Real → Real
  rad x = x ⊗ pi ⊘ lit 180 0

  -- An object as the class's initialisers leave it.
  unfoldable pub new_satellite : SatelliteMobilityModel fl
  new_satellite = record {
    element = record {
      a = lit 0 0;
      e = lit 0 0;
      f = lit 0 0;
      i = lit 0 0;
      w = lit 0 0;
      raan = lit 0 0;
    };
    period = lit 0 0;
    e0 = lit 0 0;
    m0 = lit 0 0;
    p = lit 0 0;
    ecc = lit 0 0;
    courses = 0;
  }

  unfoldable pub set_orbital_elements :
      OrbitalElement fl → SatelliteMobilityModel fl → SatelliteMobilityModel fl
  set_orbital_elements el m =
      let f = rad el.f in
      let e0 = lit 2 0 ⊗ atan (sqrt ((lit 1 0 ⊖ el.e) ⊘ (lit 1 0 ⊕ el.e)) ⊗ tan (f ⊘ lit 2 0)) in
      record m {
        element = record {
          a = el.a;
          e = el.e;
          f = f;
          i = rad el.i;
          w = rad el.w;
          raan = rad el.raan;
        };
        p = el.a ⊗ (lit 1 0 ⊖ el.e ⊗ el.e);
        period = lit 2 0 ⊗ pi ⊗ sqrt (pow el.a (lit 3 0) ⊘ miu);
        e0 = e0;
        m0 = e0 ⊖ el.e ⊗ sin e0;
        ecc = el.e;
      }

  -- SetPosition(double f)
  unfoldable pub set_true_anomaly : Real → SatelliteMobilityModel fl → SatelliteMobilityModel fl
  set_true_anomaly f m = record m {
    element = record (m.element) { f = f };
    courses = suc m.courses;
  }

  unfoldable pub get_true_anomaly : SatelliteMobilityModel fl → Real
  get_true_anomaly m = fmod (m.element.f ⊗ lit 180 0 ⊘ pi) (lit 360 0)

  -- The mean anomaly `t` seconds after the epoch.
  unfoldable pub mean_anomaly : Real → SatelliteMobilityModel fl → Real
  mean_anomaly t m = lit 2 0 ⊗ pi ⊘ m.period ⊗ fmod t m.period ⊕ m.m0

  -- The correction of one Newton round.
  unfoldable pub ratio : Real → Real → Real → Real
  ratio ecc mean e = (e ⊖ ecc ⊗ sin e ⊖ mean) ⊘ (lit 1 0 ⊖ ecc ⊗ cos e)

  -- `while (true)`: the rounds left are the fuel.
  unfoldable pub newton : ℕ → Real → Real → Real → Option Real
  newton zero ecc mean e = none
  newton (suc fuel) ecc mean e =
      let rest = newton fuel ecc mean (e ⊖ ratio ecc mean e) in
      if lt prec (abs (ratio ecc mean e)) then rest else some e

  unfoldable pub initial_guess : Real → Real → Real
  initial_guess ecc mean = if lt mean pi then mean ⊕ ecc ⊘ lit 2 0 else mean ⊖ ecc ⊘ lit 2 0

  -- The true anomaly of an eccentric one.
  unfoldable pub true_anomaly : Real → Real → Real
  true_anomaly ecc e =
      fmod (lit 2 0 ⊗ atan (sqrt ((lit 1 0 ⊕ ecc) ⊘ (lit 1 0 ⊖ ecc)) ⊗ tan (e ⊘ lit 2 0)))
        (lit 2 0 ⊗ pi)

  abbrev pub with_anomaly : Real → SatelliteMobilityModel fl → SatelliteMobilityModel fl
  with_anomaly f m = record m { element = record (m.element) { f = f } }

  unfoldable pub set_time_epoch :
      ℕ → Real → SatelliteMobilityModel fl → Option (SatelliteMobilityModel fl)
  set_time_epoch fuel t m =
      let mean = mean_anomaly t m in
      if eq m.ecc (lit 0 0)
      then some (with_anomaly mean m)
      else elim (newton fuel m.ecc mean (initial_guess m.ecc mean)) [
        | none ↦ none
        | some e ↦ some (with_anomaly (true_anomaly m.ecc e) m)
      ]

  abbrev kilo : Vector fl → Vector fl
  kilo v = record { x = v.x ⊗ lit 1000 0; y = v.y ⊗ lit 1000 0; z = v.z ⊗ lit 1000 0 }

  -- The position at the object's true anomaly.
  unfoldable pub position_of : Eigen fl → SatelliteMobilityModel fl → Vector fl
  position_of rotate m =
      let el = m.element in
      let r = m.p ⊘ (lit 1 0 ⊕ el.e ⊗ cos el.f) in
      kilo (rotate el.raan el.i el.w (record { x = r ⊗ cos el.f; y = r ⊗ sin el.f; z = lit 0 0 }))

  unfoldable pub velocity_of : Eigen fl → SatelliteMobilityModel fl → Vector fl
  velocity_of rotate m =
      let el = m.element in
      kilo (
        rotate el.raan el.i el.w (record {
          x = neg (lit 1 0) ⊗ sqrt (miu ⊘ m.p) ⊗ sin el.f;
          y = sqrt (miu ⊘ m.p) ⊗ (el.e ⊕ cos el.f);
          z = lit 0 0;
        }))

  -- DoGetPosition writes the true anomaly, though it is const: the object is a result too.
  unfoldable pub do_get_position :
      ℕ
      → Eigen fl
      → Real
      → SatelliteMobilityModel fl
      → Option (Vector fl × SatelliteMobilityModel fl)
  do_get_position fuel rotate now m = elim (set_time_epoch fuel now m) [
    | none ↦ none
    | some m' ↦ some (position_of rotate m', m')
  ]

  unfoldable pub do_get_velocity :
      ℕ
      → Eigen fl
      → Real
      → SatelliteMobilityModel fl
      → Option (Vector fl × SatelliteMobilityModel fl)
  do_get_velocity fuel rotate now m = elim (set_time_epoch fuel now m) [
    | none ↦ none
    | some m' ↦ some (velocity_of rotate m', m')
  ]

  unfoldable pub do_get_position_with_reference :
      ℕ
      → Eigen fl
      → Vector fl
      → Real
      → SatelliteMobilityModel fl
      → Option (Vector fl × SatelliteMobilityModel fl)
  do_get_position_with_reference fuel rotate ref now m = elim (do_get_position fuel rotate now m) [
    | none ↦ none
    | some (v, m') ↦ some (record { x = v.x ⊖ ref.x; y = v.y ⊖ ref.y; z = v.z ⊖ ref.z }, m')
  ]

  -- Only a warning is logged.
  unfoldable pub do_set_position : Vector fl → SatelliteMobilityModel fl → SatelliteMobilityModel fl
  do_set_position position m = m

  -- In seconds.
  unfoldable pub get_period : SatelliteMobilityModel fl → Real
  get_period m = m.period
