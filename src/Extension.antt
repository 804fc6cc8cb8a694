-- ===== src/Extension.antt =====
-- cpp/contrib/extension/model/extension.cc and extension.h: vectors divided by a number, the dot
-- product, and the formatter of `std::vector`. Texts are lists of character codes; `{}` and `{:#x}`
-- of fmt are arguments.
pub mod Laws
use osak_ext_ns.Prelude.{ℕ, ◌+◌, zero, suc, List, [], ◌∷◌, ◌++◌, ◌==◌, if◌then◌else◌, length}
use osak_ext_ns.Floats.{Floats, Vector}

module _ (fl : Floats) where
  infixl 65 ◌⊕◌
  infixl 70 ◌⊗◌ ◌⊘◌
  open fl use {Real, ◌⊕◌, ◌⊗◌, ◌⊘◌}

  -- `operator/`
  unfoldable pub divide : Vector fl → Real → Vector fl
  divide vec num = record { x = vec.x ⊘ num; y = vec.y ⊘ num; z = vec.z ⊘ num }

  -- `operator/=`, with the vector that it leaves.
  unfoldable pub divide_assign : Vector fl → Real → Vector fl
  divide_assign vec num =
      let v1 : Vector fl = record vec { x = vec.x ⊘ num } in
      let v2 : Vector fl = record v1 { y = v1.y ⊘ num } in record v2 { z = v2.z ⊘ num }

  unfoldable pub dot : Vector fl → Vector fl → Real
  dot a b = a.x ⊗ b.x ⊕ a.y ⊗ b.y ⊕ a.z ⊗ b.z

-- `fmt::formatter<ns3::Ipv4Address>`: `{:#x}` of the address as a number.
unfoldable pub format_address : (ℕ → List ℕ) → ℕ → List ℕ
format_address hex addr = hex addr

module _ {ℓ} {T : Type ℓ} (format : T → List ℕ) where
  -- The loop of `fmt::formatter<std::vector<T>>`, at index `i` with `data[i..]` left.
  unfoldable pub format_from : ℕ → List T → List ℕ → List ℕ
  format_from i [] out = out
  format_from i (d ∷ ds) out =
      let sep = if i == 0 then out else out ++ (b',' ∷ b' ' ∷ []) in
      format_from (i + 1) ds (sep ++ format d)

  unfoldable pub format_vector : List T → List ℕ → List ℕ
  unfolding format_from
  format_vector items out = format_from 0 items (out ++ (b'[' ∷ [])) ++ (b']' ∷ [])
