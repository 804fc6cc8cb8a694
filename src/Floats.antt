-- ===== src/Floats.antt =====
-- The `double` of the program: a type with the operations and library functions that the code calls
-- on it. Nothing is assumed of them here: a theorem that needs a law of floating-point arithmetic
-- names it as a hypothesis. `lit m k` is the decimal literal m * 10^-k.
use osak_ext_ns.Prelude.{ℕ, Bool, if◌then◌else◌}

pub record Floats : Type 1 where
  pub Real : Type 0
  pub lit : ℕ → ℕ → Real
  pub neg : Real → Real
  pub ◌⊕◌ : Real → Real → Real
  pub ◌⊖◌ : Real → Real → Real
  pub ◌⊗◌ : Real → Real → Real
  pub ◌⊘◌ : Real → Real → Real
  -- `x < y` and `x == y`; `x > y` is `lt y x`.
  pub lt : Real → Real → Bool
  pub eq : Real → Real → Bool
  pub pi : Real
  pub abs : Real → Real
  pub sqrt : Real → Real
  pub pow : Real → Real → Real
  pub fmod : Real → Real → Real
  pub sin : Real → Real
  pub cos : Real → Real
  pub tan : Real → Real
  pub asin : Real → Real
  pub atan : Real → Real
  pub log10 : Real → Real
  -- Conversion of an `int`.
  pub of_int : ℕ → Real

-- `std::max(x, y)`.
abbrev pub max : (fl : Floats) → fl.Real → fl.Real → fl.Real
max fl x y = if fl.lt x y then y else x

-- `ns3::Vector3D`.
pub record Vector (fl : Floats) : Type 0 where
  pub x : fl.Real
  pub y : fl.Real
  pub z : fl.Real

-- `Vector3D::GetLength`, of ns-3's documented formula.
abbrev pub get_length : (fl : Floats) → Vector fl → fl.Real
get_length fl v = fl.sqrt (fl.◌⊕◌ (fl.◌⊕◌ (fl.◌⊗◌ v.x v.x) (fl.◌⊗◌ v.y v.y)) (fl.◌⊗◌ v.z v.z))
