-- ===== src/Constellation/Coverage.antt =====
-- What ConstellationHelper::Install (cpp/contrib/satellite/helper/constellation-helper.cc) leaves in
-- each node, and the names of the satellites.
use osak_ext_ns.Prelude.{ℕ, ◌+◌, ◌*◌, ◌≤◌, ◌<◌, ◌≡◌, some, ◌⊎◌}
use osak_ext_ns.Floats.{Floats}
use osak_ext_ns.Constellation.{Helper}
use osak_ext_ns.Constellation.Placement.{Placing, element_at, install_model}

module _ {fl : Floats} where
  -- The helper without what the loops change.
  abbrev stable : Helper fl → Helper fl
  stable h = record h {
    allocate = record (h.allocate) { f = fl.lit 0 0; raan = fl.lit 0 0 };
    best_match = 0;
  }

  -- A row of `n` places from place `j` on: the nodes before and after it are as they were, and each
  -- node in it has the elements of its place.
  record IsRow (h : Helper fl) (i j n : ℕ) (s s' : Placing fl) : Type 0 where
    kept : stable s'.helper ≡ stable h
    outside :
        (k : ℕ)
        → (k < i * h.sats_in_plane + j) ⊎ (i * h.sats_in_plane + j + n ≤ k)
        → s'.models k ≡ s.models k
    inside :
        (m : ℕ)
        → j ≤ m
        → m < j + n
        → s'.models (i * h.sats_in_plane + m)
          ≡ some (install_model (element_at h i m) (s.models (i * h.sats_in_plane + m)))

  -- Planes `i` to `i + n`, in the same way.
  record IsBlock (h : Helper fl) (i n : ℕ) (s s' : Placing fl) : Type 0 where
    below : (k : ℕ) → k < i * h.sats_in_plane → s'.models k ≡ s.models k
    above : (k : ℕ) → (i + n) * h.sats_in_plane ≤ k → s'.models k ≡ s.models k
    inside :
        (a m : ℕ)
        → i ≤ a
        → a < i + n
        → m < h.sats_in_plane
        → s'.models (a * h.sats_in_plane + m)
          ≡ some (install_model (element_at h a m) (s.models (a * h.sats_in_plane + m)))
