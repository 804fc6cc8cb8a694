-- ===== src/Extension/Laws.antt =====
-- What cpp/contrib/extension/model/extension.h and extension.cc compute.
use mathlib.Core.List.{append_assoc, append-nil}
use osak_ext_ns.Prelude.{ℕ, ◌+◌, ◌≡◌, refl, List, [], ◌∷◌, ◌++◌, arith, ◌==◌, false}
use osak_ext_ns.Extension.{format_from, format_vector}

-- The items' texts with `, ` between them.
abbrev pub join {ℓ} : {T : Type ℓ} → (T → List ℕ) → List T → List ℕ
join format [] = []
join format (d ∷ []) = format d
join format (d ∷ e ∷ ds) = format d ++ (b',' ∷ b' ' ∷ join format (e ∷ ds))

abbrev rest_of {ℓ} : {T : Type ℓ} → (T → List ℕ) → List T → List ℕ
rest_of format [] = []
rest_of format (d ∷ ds) = b',' ∷ b' ' ∷ join format (d ∷ ds)

join-cons {ℓ} :
    {T : Type ℓ} (format : T → List ℕ) (d : T) (ds : List T)
    → join format (d ∷ ds) ≡ format d ++ rest_of format ds
join-cons format d [] = rw append-nil
join-cons format d (e ∷ ds) = refl

suc-ne-zero : (i : ℕ) → ((i + 1) == 0) ≡ false
suc-ne-zero i = ground arith

format_from-suc {ℓ} :
    {T : Type ℓ} (format : T → List ℕ) (i : ℕ) (ds : List T) (out : List ℕ)
    → format_from format (i + 1) ds out ≡ out ++ rest_of format ds
unfolding format_from
format_from-suc format i [] out = rw append-nil
format_from-suc format i (d ∷ ds) out =
    rw (suc-ne-zero i, format_from-suc format (i + 1) ds) (simp (append_assoc, join-cons))

-- A vector is printed as `[`, the items' texts with `, ` between them, and `]`, after what was
-- printed before.
pub format_vector-join {ℓ} :
    {T : Type ℓ} (format : T → List ℕ) (items : List T) (out : List ℕ)
    → format_vector format items out ≡ out ++ (b'[' ∷ (join format items ++ (b']' ∷ [])))
unfolding format_vector
format_vector-join format [] out = simp append_assoc
format_vector-join format (d ∷ ds) out =
    rw (format_from-suc format 0 ds) (simp (append_assoc, join-cons))
