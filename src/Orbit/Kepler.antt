-- ===== src/Orbit/Kepler.antt =====
-- Newton's method for Kepler's equation, and the loop of SatelliteMobilityModel::SetTimeEpoch
-- (cpp/contrib/satellite/model/satellite-mobility-model.cc).
use osak_ext_ns.Prelude.{
  ℕ, zero, suc, ◌<◌, ◌≡◌, ◌↔◌, ap, sym, ◌∙◌, Bool, true, false, some, arith, if_cases, inl, inr,
}
use osak_ext_ns.Floats.{Floats}
use osak_ext_ns.Orbit.{newton, ratio}

module _ (fl : Floats) where
  infixl 65 ◌⊖◌
  infixl 70 ◌⊗◌ ◌⊘◌
  open fl use {Real, lit, lt, abs, sin, cos, ◌⊖◌, ◌⊗◌, ◌⊘◌}

  -- Kepler's equation M = E - e sin E as a function of E whose root is sought, and its derivative.
  abbrev pub kepler : Real → Real → Real → Real
  kepler ecc mean e = e ⊖ ecc ⊗ sin e ⊖ mean

  abbrev pub kepler_slope : Real → Real → Real
  kepler_slope ecc e = lit 1 0 ⊖ ecc ⊗ cos e

  -- Newton's correction of an estimate.
  abbrev pub correction : Real → Real → Real → Real
  correction ecc mean e = kepler ecc mean e ⊘ kepler_slope ecc e

  -- The estimate after `n` rounds of Newton's method from `e`.
  unfoldable pub iterate : ℕ → Real → Real → Real → Real
  iterate zero ecc mean e = e
  iterate (suc n) ecc mean e = iterate n ecc mean (e ⊖ correction ecc mean e)

  -- The next correction is above the precision, 0.0000001.
  abbrev pub is_coarse : Real → Real → Real → Bool
  is_coarse ecc mean e = lt (lit 1 7) (abs (correction ecc mean e))

  -- The estimate after `n` rounds is the first one that is fine.
  abbrev pub FirstFine : ℕ → Real → Real → Real → Type 0
  FirstFine n ecc mean e =
      (is_coarse ecc mean (iterate n ecc mean e) ≡ false)
      × ((k : ℕ) → k < n → is_coarse ecc mean (iterate k ecc mean e) ≡ true)

  newton-iterate :
      (n fuel : ℕ) (ecc mean e : Real)
      → n < fuel
      → FirstFine n ecc mean e
      → newton fl fuel ecc mean e ≡ some (iterate n ecc mean e)
  unfolding newton iterate ratio
  newton-iterate n zero ecc mean e h f = elim h [ ]
  newton-iterate zero (suc fuel) ecc mean e h (fine, _) = rw fine
  newton-iterate (suc n) (suc fuel) ecc mean e h (fine, coarse) = rw (coarse 0 (omega arith)) (
      newton-iterate n fuel ecc mean (e ⊖ correction ecc mean e) (omega arith)
        (fine, λ k l. coarse (suc k) (omega arith)))

  before_suc :
      {n : ℕ} (ecc mean e : Real)
      → is_coarse ecc mean e ≡ true
      → ((k : ℕ)
          → k < n
          → is_coarse ecc mean (iterate k ecc mean (e ⊖ correction ecc mean e)) ≡ true)
      → (k : ℕ) → k < suc n
      → is_coarse ecc mean (iterate k ecc mean e) ≡ true
  unfolding iterate
  before_suc ecc mean e coarse before zero l = coarse
  before_suc ecc mean e coarse before (suc k) l = before k (omega arith)

  newton_first :
      (fuel : ℕ) (ecc mean e r : Real)
      → newton fl fuel ecc mean e ≡ some r
      → (n : ℕ) × (n < fuel) × (r ≡ iterate n ecc mean e) × FirstFine n ecc mean e
  unfolding newton iterate ratio
  newton_first zero ecc mean e r h = cc
  newton_first (suc fuel) ecc mean e r h = elim (if_cases (is_coarse ecc mean e) h) [
    | inl (coarse, rest) ↦
        let (n, l, same, found) = newton_first fuel ecc mean (e ⊖ correction ecc mean e) r rest in
        (suc n, omega arith, same, (found.0, before_suc ecc mean e coarse found.1))
    | inr (fine, done) ↦ (0, omega arith, cc, (fine, λ k l. absurd (omega arith)))
  ]

  -- The loop of SetTimeEpoch is Newton's method for Kepler's equation, with the derivative
  -- 1 - e cos E: with any fuel, it returns `r` if and only if one of fewer estimates than the fuel is
  -- the first whose next correction is not above the precision of 0.0000001, and `r` is that estimate.
  pub newton_iff :
      (fuel : ℕ) (ecc mean e r : Real)
      → (newton fl fuel ecc mean e ≡ some r)
        ↔ ((n : ℕ) × (n < fuel) × (r ≡ iterate n ecc mean e) × FirstFine n ecc mean e)
  newton_iff fuel ecc mean e r = (
    newton_first fuel ecc mean e r,
    λ (n, l, same, first). newton-iterate n fuel ecc mean e l first ∙ ap some (sym same),
  )
