-- ===== src/Bytes/Laws.antt =====
-- Laws of ByteBuffer: what a run of `put`s writes, and what a run of `get`s consumes.
use osak_ext_ns.Prelude.{
  ℕ, ◌+◌, ◌*◌, zero, suc, ◌-◌, ◌^◌, ◌≤◌, ◌<◌, ◌≡◌, refl, ap, ◌∙◌, arith, List, [], ◌∷◌, ◌++◌,
  length, take, drop,
}
use osak_ext_ns.Result.{Result, ok, fault, Fault, ◌>>=◌, bind_assoc, bind_ext, bind_ok, bind_fault}
use native.Mathlib.Decide.{dec_lt}
use native.Mathlib.Numerals.{unary_clauses}
use osak_ext_ns.Bytes.{
  ByteBuffer, put, put_bytes, int_bytes, get, get_four, get_int, get_short, int_of, remaining,
}
use mathlib.Core.List.{append-nil, append_assoc}

pub int_of-int_bytes : (n : ℕ) → n < 2 ^ 32 → int_of (int_bytes n) ≡ n
int_of-int_bytes n h = omega arith

-- The buffer after `xs` is written at its position, and after `n` bytes are read.
abbrev pub written : List ℕ → ByteBuffer → ByteBuffer
written xs b = record { before = b.before ++ xs; after = drop (length xs) b.after }

abbrev pub advanced : ℕ → ByteBuffer → ByteBuffer
advanced n b = record { before = b.before ++ take n b.after; after = drop n b.after }

abbrev buffer : List ℕ → List ℕ → ByteBuffer
buffer p r = record { before = p; after = r }

pub put_bytes-append :
    (xs ys : List ℕ) (b : ByteBuffer) → (put_bytes xs b >>= put_bytes ys) ≡ put_bytes (xs ++ ys) b
unfolding put_bytes ◌>>=◌
put_bytes-append [] ys b = refl
put_bytes-append (x ∷ xs) ys b =
    bind_assoc (put x b) (put_bytes xs) (put_bytes ys) ∙ bind_ext (put x b) (put_bytes-append xs ys)

fits_from :
    (xs p r : List ℕ)
    → length xs ≤ length r
    → put_bytes xs (buffer p r) ≡ ok (buffer (p ++ xs) (drop (length xs) r))
unfolding put_bytes put ◌>>=◌
fits_from [] p r h = rw append-nil
fits_from (x ∷ xs) p [] h = absurd (omega arith)
fits_from (x ∷ xs) p (y ∷ ys) h =
    fits_from xs (p ++ (x ∷ [])) ys (omega arith) ∙ rw (append_assoc p (x ∷ []) xs)

short_from :
    (xs p r : List ℕ)
    → length r < length xs
    → put_bytes xs (buffer p r) ≡ fault Fault.buffer_overflow
unfolding put_bytes put ◌>>=◌
short_from [] p r h = absurd (omega arith)
short_from (x ∷ xs) p [] h = refl
short_from (x ∷ xs) p (y ∷ ys) h = short_from xs (p ++ (x ∷ [])) ys (omega arith)

pub put_bytes_fits :
    (xs : List ℕ) (b : ByteBuffer) → length xs ≤ remaining b → put_bytes xs b ≡ ok (written xs b)
put_bytes_fits xs b h = fits_from xs b.before b.after h

pub put_bytes_short :
    (xs : List ℕ) (b : ByteBuffer)
    → remaining b < length xs
    → put_bytes xs b ≡ fault Fault.buffer_overflow
put_bytes_short xs b h = short_from xs b.before b.after h

-- A reader of `n` bytes: it takes them, or has an underflow.
pub record Reads {A : Type 0} (n : ℕ) (read : ByteBuffer → Result (A × ByteBuffer)) : Type 0 where
  pub underflow : (b : ByteBuffer) → remaining b < n → read b ≡ fault Fault.buffer_underflow
  pub enough : (b : ByteBuffer) → n ≤ remaining b → (a : A) × (read b ≡ ok (a, advanced n b))

get_underflow : (p r : List ℕ) → length r < 1 → get (buffer p r) ≡ fault Fault.buffer_underflow
unfolding get
get_underflow p [] h = refl
get_underflow p (y ∷ ys) h = absurd (omega arith)

get_enough :
    (p r : List ℕ) → 1 ≤ length r → (x : ℕ) × (get (buffer p r) ≡ ok (x, advanced 1 (buffer p r)))
unfolding get
get_enough p [] h = absurd (omega arith)
get_enough p (y ∷ []) h = (y, refl)
get_enough p (y ∷ (z ∷ zs)) h = (y, refl)

pub get-Reads : Reads 1 get
get-Reads = record {
  underflow = λ b h. get_underflow b.before b.after h;
  enough = λ b h. get_enough b.before b.after h;
}

suc_plus : (m n : ℕ) → suc (m + n) ≡ suc m + n
suc_plus m n = omega arith

take-add : (m n : ℕ) (r : List ℕ) → take m r ++ take n (drop m r) ≡ take (m + n) r
take-add zero n r = ap (λ k. take k r) (omega arith)
take-add (suc m) zero [] = simp unary_clauses refl
take-add (suc m) (suc n) [] = simp unary_clauses refl
take-add (suc m) n (y ∷ ys) =
    ap (λ zs. y ∷ zs) (take-add m n ys) ∙ ap (λ k. take k (y ∷ ys)) (suc_plus m n)

drop-add : (m n : ℕ) (r : List ℕ) → drop n (drop m r) ≡ drop (m + n) r
drop-add zero n r = ap (λ k. drop k r) (omega arith)
drop-add (suc m) zero [] = simp unary_clauses refl
drop-add (suc m) (suc n) [] = simp unary_clauses refl
drop-add (suc m) n (y ∷ ys) = drop-add m n ys ∙ ap (λ k. drop k (y ∷ ys)) (suc_plus m n)

length-drop : (m : ℕ) (r : List ℕ) → length (drop m r) ≡ length r - m
length-drop zero r = omega arith
length-drop (suc m) [] = omega arith
length-drop (suc m) (y ∷ ys) = omega (arith, length-drop m ys)

advanced_twice : (m n : ℕ) (b : ByteBuffer) → advanced n (advanced m b) ≡ advanced (m + n) b
advanced_twice m n b = rw (append_assoc, take-add m n b.after, drop-add m n b.after)

module _ {A B : Type 0} {m n : ℕ} {first : ByteBuffer → Result (A × ByteBuffer)}
    {next : A → ByteBuffer → Result (B × ByteBuffer)} (r : Reads m first)
    (s : (a : A) → Reads n (next a)) where
  abbrev both : ByteBuffer → Result (B × ByteBuffer)
  both b = first b >>= (λ (a, b'). next a b')

  both_underflow : (b : ByteBuffer) → remaining b < m + n → both b ≡ fault Fault.buffer_underflow
  both_underflow b h = elim (dec_lt (remaining b) m) [
    | yes p ↦ bind_fault (first b) _ (r.underflow b p)
    | no p ↦
        let (a, e) = r.enough b (omega arith) in
        bind_ok (first b) _ e
        ∙ (s a).underflow (advanced m b) (omega (arith, length-drop m b.after))
  ]

  both_enough :
      (b : ByteBuffer) → m + n ≤ remaining b → (x : B) × (both b ≡ ok (x, advanced (m + n) b))
  both_enough b h =
      let (a, e) = r.enough b (omega arith) in
      let (x, e') = (s a).enough (advanced m b) (omega (arith, length-drop m b.after)) in
      (x, bind_ok (first b) _ e ∙ e' ∙ rw (advanced_twice m n b))

  pub bind-Reads : Reads (m + n) both
  bind-Reads = record { underflow = both_underflow; enough = both_enough }

-- A reader of what a shorter one has read.
pub map-Reads :
    {A B : Type 0} {n : ℕ} {read : ByteBuffer → Result (A × ByteBuffer)} (f : A → B)
    → Reads n read
    → Reads n (λ b. read b >>= (λ (a, b'). ok (f a, b')))
map-Reads {read = read} f r = record {
  underflow = λ b h. bind_fault (read b) _ (r.underflow b h);
  enough = λ b h. let (a, e) = r.enough b h in (f a, bind_ok (read b) _ e);
}

pub get_four-Reads : Reads 4 get_four
unfolding get_four
get_four-Reads = bind-Reads get-Reads (λ w.
    bind-Reads get-Reads
      (λ x. bind-Reads get-Reads (λ y. map-Reads (λ z. w ∷ (x ∷ (y ∷ (z ∷ [])))) get-Reads)))

pub get_int-Reads : Reads 4 get_int
unfolding get_int
get_int-Reads = map-Reads int_of get_four-Reads

pub get_short-Reads : Reads 2 get_short
unfolding get_short
get_short-Reads = bind-Reads get-Reads (λ x. map-Reads (λ y. x * 2 ^ 8 + y) get-Reads)
