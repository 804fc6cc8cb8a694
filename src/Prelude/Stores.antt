-- ===== src/Prelude/Stores.antt =====
-- Stores (total maps from object numbers) and finite sets of numbers kept as lists, the model's
-- `std::unordered_set`.
use Prim.Native.Nat.{ℕ}
use mathlib.Core.Path.{◌≡◌}
use mathlib.Core.Bool.{Bool, false, ◌||◌, ◌&&◌, not}
use mathlib.Core.List.{List, [], ◌∷◌}
use native.Mathlib.Omega.{arith}
use osak_ext_ns.Prelude.Tests.{◌==◌, if◌then◌else◌}

-- The store `f` with the object at `k` replaced.
abbrev pub update {ℓ} : {A : Type ℓ} → (ℕ → A) → ℕ → A → ℕ → A
update f k v j = if j == k then v else f j

unfoldable pub contains : List ℕ → ℕ → Bool
contains [] a = false
contains (x ∷ xs) a = a == x || contains xs a

-- `insert` of a set: an element that is there is not added twice.
unfoldable pub insert : ℕ → List ℕ → List ℕ
unfolding contains
insert a xs = if contains xs a then xs else a ∷ xs

-- `erase(key)` of a set: nothing happens if the key is missing.
unfoldable pub erase : ℕ → List ℕ → List ℕ
erase a [] = []
erase a (x ∷ xs) = if a == x then erase a xs else x ∷ erase a xs

pub contains-insert : (a b : ℕ) (xs : List ℕ) → contains (insert a xs) b ≡ b == a || contains xs b
unfolding insert contains
contains-insert a b xs = ground arith

pub contains-erase :
    (a b : ℕ) (xs : List ℕ) → contains (erase a xs) b ≡ (not (b == a) && contains xs b)
unfolding erase contains
contains-erase a b [] = ground arith
contains-erase a b (x ∷ xs) = ground (arith, contains-erase a b xs)
