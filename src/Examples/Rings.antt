-- ===== src/Examples/Rings.antt =====
-- The permanent links of a plane with three satellites.
use osak_ext_ns.Prelude.{
  ℕ, ◌+◌, ◌*◌, ◌%◌, ◌≤◌, ◌<◌, ◌≡◌, ◌≢◌, ◌⊎◌, refl, Option, none, some, [], ◌∷◌, arith, ◌==◌,
  if◌then◌else◌, false,
}
use osak_ext_ns.Result.{ok}
use osak_ext_ns.World.{World}
use osak_ext_ns.Constellation.Devices.{terminal_name}
use osak_ext_ns.Constellation.Placement.{Text, satellite_name}
use osak_ext_ns.Constellation.Config.{terminal, permanent_row}
use osak_ext_ns.Constellation.Ring.{IsLink}
use osak_ext_ns.Constellation.Ring.Plane.{IsNamed, IsPlaced, permanent_row-IsLink}
use osak_ext_ns.Examples.{bench, equator, world_at}

-- Terminal `F` or `B` of satellite `l` in plane `i`.
abbrev find_terminal : Text → Option ℕ
find_terminal (s ∷ i ∷ l ∷ slash ∷ e ∷ t ∷ h ∷ letter ∷ []) =
    some (4 * (3 * i + l) + (if letter == b'F' then 2 else 3))
find_terminal _ = none

abbrev one_letter : ℕ → Text
one_letter n = n ∷ []

abbrev front : ℕ → ℕ
front l = 4 * (3 * 1 + l) + 2

abbrev back : ℕ → ℕ
back l = 4 * (3 * 1 + l) + 3

names : IsNamed find_terminal one_letter 3 1 front back
unfolding terminal terminal_name satellite_name
names = record {
  front_found = λ l h. refl;
  back_found = λ l h. refl;
  fronts = λ l m a b e. omega arith;
  backs = λ l m a b e. omega arith;
  sides = λ l m a b. omega arith;
}

abbrev bare : World bench
bare = world_at equator false []

placed : IsPlaced 3 front back bare
placed = record { fronts = λ l h. (equator, refl); backs = λ l h. (equator, refl) }

permanent_row-IsLink_example :
    (w' : World bench) × (permanent_row find_terminal one_letter 0 3 1 3 0 20 bare ≡ ok w')
    × ((l : ℕ) → l < 3 → IsLink (20 + l) (front l) (back ((l + 1) % 3)) w')
    × ((d : ℕ) → ((l : ℕ) → l < 3 → (d ≢ front l) × (d ≢ back l)) → w'.devices d ≡ bare.devices d)
    × ((e : ℕ) → (e < 20) ⊎ (20 + 3 ≤ e) → w'.channels e ≡ bare.channels e)
permanent_row-IsLink_example =
    permanent_row-IsLink find_terminal one_letter 0 3 1 20 front back names bare placed
