-- ===== src/Constellation/Params.antt =====
-- What ConstellationHelper::SetConstellationParams
-- (cpp/contrib/satellite/helper/constellation-helper.cc) accepts.
use osak_ext_ns.Prelude.{
  ℕ, ◌*◌, ◌/◌, ◌%◌, ◌<◌, ◌≡◌, ◌↔◌, arith, Bool-cases, if_cases, ==_iff, inl, inr, ◌==◌,
}
use osak_ext_ns.Result.{ok, fault, Fault}
use osak_ext_ns.Floats.{Floats}
use osak_ext_ns.Constellation.{
  Helper, WalkerParams, set_constellation_params, divide_planes, get_sats_in_plane,
}

ne_fault : {f : Fault} {u : Unit {0}} → fault f ≡ ok u → ⊥
ne_fault e = cc

divides : (t p : ℕ) → t % p ≡ 0 → t / p * p ≡ t
divides t p h = omega arith

multiple : (t p k : ℕ) → 0 < p → k * p ≡ t → (t % p ≡ 0) × (t / p ≡ k)
multiple t p k h e = grind (arith, e, h)

module _ {fl : Floats} where
  accepted :
      (q : WalkerParams) (h : Helper fl)
      → (set_constellation_params q h).1 ≡ ok tt
      → (0 < q.p) × (q.t % q.p ≡ 0)
  unfolding set_constellation_params divide_planes
  accepted q h e = elim (Bool-cases (q.p == 0)) [
    | inl z ↦ absurd (ne_fault (rw z at e))
    | inr n ↦ elim (if_cases (q.t % q.p == 0) (rw n at e)) [
      | inl (d, _) ↦ (ground arith, (==_iff _ _).0 d)
      | inr (_, thrown) ↦ absurd (ne_fault thrown)
    ]
  ]

  accepts :
      (q : WalkerParams) (h : Helper fl)
      → 0 < q.p
      → q.t % q.p ≡ 0
      → (set_constellation_params q h).1 ≡ ok tt
  unfolding set_constellation_params divide_planes
  accepts q h pos d = ground arith

  sats :
      (q : WalkerParams) (h : Helper fl)
      → 0 < q.p
      → get_sats_in_plane (set_constellation_params q h).0 ≡ q.t / q.p
  unfolding set_constellation_params divide_planes get_sats_in_plane
  sats q h pos = ground arith

  -- SetConstellationParams accepts parameters if and only if there is a plane and the planes can have
  -- equally many satellites that are T together; when it has returned, the planes have that many.
  -- Whether it returns or throws, the helper has P, F and T afterwards, and still its type.
  pub set_constellation_params_iff :
      (q : WalkerParams) (h : Helper fl)
      → let after = (set_constellation_params q h).0 in
        (((set_constellation_params q h).1 ≡ ok tt)
          ↔ ((k : ℕ) × (0 < q.p) × (k * q.p ≡ q.t) × (get_sats_in_plane after ≡ k)))
        × (after.params.p ≡ q.p)
        × (after.params.f ≡ q.f)
        × (after.params.t ≡ q.t)
        × (after.params.kind ≡ h.params.kind)
  unfolding set_constellation_params divide_planes
  set_constellation_params_iff q h = (
    (
      λ e. let (pos, d) = accepted q h e in (q.t / q.p, pos, divides q.t q.p d, sats q h pos),
      λ (k, pos, e, _). accepts q h pos (multiple q.t q.p k pos e).0,
    ),
    ground arith,
    ground arith,
    ground arith,
    ground arith,
  )
