-- ===== src/Constellation.antt =====
-- cpp/contrib/satellite/helper/constellation-helper.h and constellation-helper.cc: a Walker
-- constellation. The parameters of the constellation and of its devices are here; satellites are
-- placed in Constellation/Placement.antt, devices made in Constellation/Devices.antt, linked in
-- Constellation/Config.antt and kept linked in Constellation/Maintenance.antt (the links themselves:
-- Constellation/Links.antt). `int` parameters are taken as natural numbers.
pub mod Params
pub mod Placement
pub mod Match
pub mod Coverage
pub mod Devices
pub mod Terminals
pub mod Links
pub mod Config
pub mod Ring
pub mod Maintenance
pub mod Relinked
pub mod Polar
pub mod Relink
use osak_ext_ns.Prelude.{ℕ, ◌+◌, ◌*◌, ◌/◌, ◌%◌, Bool, true, false, if◌then◌else◌, ◌==◌}
use osak_ext_ns.Result.{Result, ok, fault, Fault}
use osak_ext_ns.Floats.{Floats}
use osak_ext_ns.Orbit.{OrbitalElement}

pub data ConstellationType : Type 0 where
  delta star : ConstellationType

-- `struct WalkerParams`
pub record WalkerParams : Type 0 where
  pub kind : ConstellationType
  pub t : ℕ
  pub p : ℕ
  pub f : ℕ

abbrev pub span_of : (fl : Floats) → ConstellationType → fl.Real
span_of fl ConstellationType.star = fl.lit 180 0
span_of fl ConstellationType.delta = fl.lit 360 0

module _ (fl : Floats) where
  -- The fields of class ConstellationHelper but for the links, which are in the world.
  pub record Helper : Type 0 where
    pub wizard : OrbitalElement fl
    pub allocate : OrbitalElement fl
    pub params : WalkerParams
    pub lat_limit : fl.Real
    pub sats_in_plane : ℕ
    pub raan_span : fl.Real
    pub best_match : ℕ
    pub link_check_interval : ℕ
    pub lambda : fl.Real
    pub tx_power : fl.Real
    pub tx_gain : fl.Real
    pub rx_gain : fl.Real
    pub rx_sensitivity : fl.Real
    -- Whether the user's callback is set.
    pub ready_break_cb : Bool

module _ {fl : Floats} where
  open fl use {Real, lit}

  abbrev zero_element : OrbitalElement fl
  zero_element = record {
    a = lit 0 0;
    e = lit 0 0;
    f = lit 0 0;
    i = lit 0 0;
    w = lit 0 0;
    raan = lit 0 0;
  }

  -- The initialisers of the class: the Iridium constellation. One second is 10^9 nanoseconds.
  unfoldable pub new_helper : Helper fl
  new_helper = record {
    wizard = zero_element;
    allocate = zero_element;
    params = record { kind = ConstellationType.star; t = 66; p = 6; f = 1 };
    lat_limit = lit 60 0;
    sats_in_plane = 11;
    raan_span = lit 180 0;
    best_match = 0;
    link_check_interval = 1_000_000_000;
    lambda = lit 1550 0;
    tx_power = lit 20 0;
    tx_gain = lit 120 0;
    rx_gain = lit 120 0;
    rx_sensitivity = fl.neg (lit 40 0);
    ready_break_cb = false;
  }

  -- `T / P`; the division faults for no planes.
  unfoldable pub divide_planes : WalkerParams → Helper fl → Helper fl × Result (Unit {0})
  divide_planes q h = if q.p == 0 then (h, fault Fault.division_by_zero) else (
    record h { sats_in_plane = q.t / q.p },
    if q.t % q.p == 0 then ok tt else fault Fault.runtime_error,
  )

  -- The helper that the call leaves, and whether it returned or threw.
  unfoldable pub set_constellation_params : WalkerParams → Helper fl → Helper fl × Result (Unit {0})
  set_constellation_params q h = divide_planes q (record h {
    raan_span = span_of fl q.kind;
    params = record (h.params) { p = q.p; f = q.f; t = q.t };
  })

  unfoldable pub get_sats_in_plane : Helper fl → ℕ
  get_sats_in_plane h = h.sats_in_plane

  unfoldable pub get_num_of_plane : Helper fl → ℕ
  get_num_of_plane h = h.params.p

  unfoldable pub set_dev_params : Real → Real → Real → Real → Real → Helper fl → Helper fl
  set_dev_params lambda tx_power tx_gain rx_gain rx_sensitivity h = record h {
    lambda = lambda;
    tx_power = tx_power;
    tx_gain = tx_gain;
    rx_gain = rx_gain;
    rx_sensitivity = rx_sensitivity;
  }

  unfoldable pub set_wizard_satellite : OrbitalElement fl → Helper fl → Helper fl
  set_wizard_satellite elem h = record h { wizard = elem }

  unfoldable pub get_best_match : Helper fl → ℕ
  get_best_match h = h.best_match

  unfoldable pub set_channel_ready_break_callback : Bool → Helper fl → Helper fl
  set_channel_ready_break_callback cb h = record h { ready_break_cb = cb }

  unfoldable pub set_link_check_interval : ℕ → Helper fl → Helper fl
  set_link_check_interval interval h = record h { link_check_interval = interval }

  unfoldable pub set_latitude_limit : Real → Helper fl → Helper fl
  set_latitude_limit limit h = record h { lat_limit = limit }
