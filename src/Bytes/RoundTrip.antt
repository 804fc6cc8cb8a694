-- ===== src/Bytes/RoundTrip.antt =====
-- What is written at a buffer's position is read back from there.
use osak_ext_ns.Prelude.{
  ℕ, zero, suc, ◌+◌, ◌-◌, ◌*◌, ◌/◌, ◌%◌, ◌^◌, ◌≤◌, ◌<◌, ◌≡◌, refl, sym, ap, subst, ◌∙◌, arith,
  Option, some, List, [], ◌∷◌, ◌++◌, length, take, drop, length-append, take-append, drop-append,
}
use osak_ext_ns.Result.{
  Result, ok, fault, Fault, ◌>>=◌, deref, bind_ext, bind_ok, bind_fault, ok-injective,
}
use osak_ext_ns.Bytes.{
  ByteBuffer, put, put_bytes, put_int, get, get_four, get_int, get_short, get_bytes, int_bytes,
  int_of, remaining, position, at_position, IsByte, IsShort, IsInt,
}
use osak_ext_ns.Bytes.Laws.{
  written, advanced, put_bytes-append, put_bytes_fits, Reads, int_of-int_bytes, get_four-Reads,
  get_short-Reads,
}
use mathlib.Core.List.{append_assoc, append-nil}

-- Helper.byte2int reads four bytes in network order.
abbrev pub IsBigEndian : (List ℕ → ℕ) → Type 0
IsBigEndian byte2int =
    (w x y z : ℕ)
    → IsByte w
    → IsByte x
    → IsByte y
    → IsByte z
    → byte2int (w ∷ (x ∷ (y ∷ (z ∷ [])))) ≡ int_of (w ∷ (x ∷ (y ∷ (z ∷ []))))

pub byte2int-int_bytes :
    (byte2int : List ℕ → ℕ) (n : ℕ) → IsBigEndian byte2int → IsInt n → byte2int (int_bytes n) ≡ n
byte2int-int_bytes byte2int n big h =
    big _ _ _ _ (omega arith) (omega arith) (omega arith) (omega arith) ∙ int_of-int_bytes n h

-- `write` puts the bytes `xs`.
pub record Writes (xs : List ℕ) (write : ByteBuffer → Result ByteBuffer) : Type 0 where
  pub writes : (b : ByteBuffer) → write b ≡ put_bytes xs b

pub put_last : (x : ℕ) → Writes (x ∷ []) (put x)
unfolding put_bytes ◌>>=◌
put_last x = record {
  writes = λ b. elim (put x b) as (λ m. m ≡ (m >>= ok)) [ ok b' ↦ refl | fault e ↦ refl ];
}

pub put_int_last : (n : ℕ) → Writes (int_bytes n) (put_int n)
put_int_last n = record { writes = λ b. refl }

pub put_then :
    {ys : List ℕ} {next : ByteBuffer → Result ByteBuffer} (x : ℕ)
    → Writes ys next
    → Writes (x ∷ ys) (λ b. put x b >>= next)
unfolding put_bytes
put_then x h = record { writes = λ b. bind_ext (put x b) h.writes }

pub put_int_then :
    {ys : List ℕ} {next : ByteBuffer → Result ByteBuffer} (n : ℕ)
    → Writes ys next
    → Writes (int_bytes n ++ ys) (λ b. put_int n b >>= next)
put_int_then {ys} n h = record {
  writes = λ b. bind_ext (put_int n b) h.writes ∙ put_bytes-append (int_bytes n) ys b;
}

pub deref_then {ℓ} :
    {A : Type ℓ} {ys : List ℕ} {o : Option A} {a : A} (next : A → ByteBuffer → Result ByteBuffer)
    → o ≡ some a
    → Writes ys (next a)
    → Writes ys (λ b. deref o >>= (λ x. next x b))
unfolding ◌>>=◌
deref_then next e h = record { writes = λ b. rw e (h.writes b) }

-- Whatever is before and behind the bytes `xs`, `read` takes them and answers `v`.
pub record Parses {A : Type 0} (xs : List ℕ) (v : A) (read : ByteBuffer → Result (A × ByteBuffer))
    : Type 0 where
  pub parses :
      (p s : List ℕ)
      → read (record { before = p; after = xs ++ s })
        ≡ ok (v, record { before = p ++ xs; after = s })

-- The number of bytes read, what was read, and the buffer after it.
abbrev pub sized :
    {A : Type 0} → (ByteBuffer → Result (A × ByteBuffer)) → ByteBuffer → Result (ℕ × A × ByteBuffer)
sized read b = read b >>= (λ (a, b'). ok (position b' - position b, a, b'))

pub at_position-written :
    (xs : List ℕ) (b : ByteBuffer)
    → at_position (position b) (written xs b)
      ≡ record { before = b.before; after = xs ++ drop (length xs) b.after }
at_position-written xs b = rw (append_assoc, take-append b.before, drop-append b.before)

grown : (xs ys : List ℕ) → length (xs ++ ys) - length xs ≡ length ys
grown xs ys = omega (arith, length-append xs ys)

module _ {A : Type 0} {xs : List ℕ} {v : A} {read : ByteBuffer → Result (A × ByteBuffer)}
    (r : Parses xs v read) where
  pub sized-Parses :
      (p s : List ℕ)
      → sized read (record { before = p; after = xs ++ s })
        ≡ ok (length xs, v, record { before = p ++ xs; after = s })
  sized-Parses p s =
      bind_ok _ _ (r.parses p s)
      ∙ ap (λ n. ok (n, v, record { before = p ++ xs; after = s })) (grown p xs)

  -- What `write` has put into a buffer with room is read back from where it began, with as many
  -- bytes and the same position at the end.
  pub round_trip :
      {write : ByteBuffer → Result ByteBuffer}
      → Writes xs write
      → (b : ByteBuffer) → length xs ≤ remaining b
      → (b' : ByteBuffer) × (write b ≡ ok b')
        × (sized read (at_position (position b) b') ≡ ok (length xs, v, b'))
  round_trip w b h = (
    written xs b,
    w.writes b ∙ put_bytes_fits xs b h,
    ap (sized read) (at_position-written xs b) ∙ sized-Parses b.before (drop (length xs) b.after),
  )

advanced-append :
    (xs p s : List ℕ)
    → advanced (length xs) (record { before = p; after = xs ++ s })
      ≡ record { before = p ++ xs; after = s }
advanced-append xs p s = rw (take-append xs s, drop-append xs s)

-- A reader of a fixed number of bytes that answers `v` on `xs`.
pub Reads-Parses :
    {A : Type 0} {n : ℕ} {read : ByteBuffer → Result (A × ByteBuffer)} (xs : List ℕ) (v : A)
    → Reads n read
    → n ≡ length xs
    → ((p s : List ℕ)
        → (b' : ByteBuffer) × (read (record { before = p; after = xs ++ s }) ≡ ok (v, b')))
    → Parses xs v read
Reads-Parses {A} {n} {read} xs v r l h = record {
  parses = λ p s.
      let (b', e) = h p s in
      let b : ByteBuffer = record { before = p; after = xs ++ s } in
      let (a, e') = r.enough b (omega (arith, length-append xs s)) in
      e'
      ∙ ap (λ x. ok (x, advanced n b)) (ap (λ q. q.0) (ok-injective (sym e' ∙ e)))
      ∙ ap (λ c. ok (v, c)) (ap (λ k. advanced k b) l ∙ advanced-append xs p s);
}

length-take : (n : ℕ) (r : List ℕ) → n ≤ length r → length (take n r) ≡ n
length-take zero r h = refl
length-take (suc n) [] h = absurd (omega arith)
length-take (suc n) (y ∷ ys) h = omega (arith, length-take n ys (omega arith))

-- A reader of a fixed number of bytes, on every buffer.
pub sized-underflow :
    {A : Type 0} {n : ℕ} {read : ByteBuffer → Result (A × ByteBuffer)}
    → Reads n read
    → (b : ByteBuffer) → remaining b < n
    → sized read b ≡ fault Fault.buffer_underflow
sized-underflow r b h = bind_fault _ _ (r.underflow b h)

pub sized-enough :
    {A : Type 0} {n : ℕ} {read : ByteBuffer → Result (A × ByteBuffer)}
    → Reads n read
    → (b : ByteBuffer) → n ≤ remaining b
    → (a : A) × (sized read b ≡ ok (n, a, advanced n b))
sized-enough {n = n} {read = read} r b h =
    let (a, e) = r.enough b h in
    (
      a,
      bind_ok (read b) _ e
          ∙ ap (λ k. ok (k, a, advanced n b))
              (grown b.before (take n b.after) ∙ length-take n b.after h),
    )

pub bind-Parses :
    {A B : Type 0} (xs ys : List ℕ) (v : A) (w : B) (first : ByteBuffer → Result (A × ByteBuffer))
    (next : A → ByteBuffer → Result (B × ByteBuffer))
    → Parses xs v first
    → Parses ys w (next v)
    → Parses (xs ++ ys) w (λ b. first b >>= (λ (a, b'). next a b'))
bind-Parses xs ys v w first next r t = record {
  parses = λ p s.
      rw (append_assoc xs ys s, sym (append_assoc p xs ys))
        (bind_ok _ (λ q. next q.0 q.1) (r.parses p (ys ++ s)) ∙ t.parses (p ++ xs) s);
}

pub ok-Parses : {A : Type 0} (v : A) → Parses [] v (λ b. ok (v, b))
ok-Parses v = record { parses = λ p s. rw (append-nil p) }

pub map-Parses :
    {A B : Type 0} {xs : List ℕ} {v : A} {read : ByteBuffer → Result (A × ByteBuffer)} (f : A → B)
    → Parses xs v read
    → Parses xs (f v) (λ b. read b >>= (λ (a, b'). ok (f a, b')))
map-Parses f r = record { parses = λ p s. bind_ok _ _ (r.parses p s) }

pub get-Parses : (x : ℕ) → Parses (x ∷ []) x get
unfolding get
get-Parses x = record { parses = λ p s. refl }

pub get_four-Parses : (n : ℕ) → Parses (int_bytes n) (int_bytes n) get_four
unfolding get_four get ◌>>=◌
get_four-Parses n = Reads-Parses _ _ get_four-Reads refl (λ p s. (_, refl))

pub get_int-Parses : (n : ℕ) → IsInt n → Parses (int_bytes n) n get_int
unfolding get_int
get_int-Parses n h =
    subst (λ v. Parses (int_bytes n) v get_int) (int_of-int_bytes n h)
      (bind-Parses (int_bytes n) [] (int_bytes n) _ get_four (λ bytes b. ok (int_of bytes, b))
        (get_four-Parses n) (ok-Parses _))

short_of : (n : ℕ) → IsShort n → n / 2 ^ 8 % 256 * 2 ^ 8 + n % 256 ≡ n
short_of n h = omega arith

pub put_bytes_then :
    {ys : List ℕ} {next : ByteBuffer → Result ByteBuffer} (xs : List ℕ)
    → Writes ys next
    → Writes (xs ++ ys) (λ b. put_bytes xs b >>= next)
put_bytes_then {ys} xs h = record {
  writes = λ b. bind_ext (put_bytes xs b) h.writes ∙ put_bytes-append xs ys b;
}

pub get_bytes-Parses : (xs : List ℕ) → Parses xs xs (get_bytes (length xs))
unfolding get_bytes
get_bytes-Parses [] = ok-Parses []
get_bytes-Parses (x ∷ xs) =
    bind-Parses (x ∷ []) xs x (x ∷ xs) get _ (get-Parses x)
      (map-Parses (λ ys. x ∷ ys) (get_bytes-Parses xs))

abbrev pub short_bytes : ℕ → List ℕ
short_bytes n = n / 2 ^ 8 % 256 ∷ (n % 256 ∷ [])

pub get_short-Parses : (n : ℕ) → IsShort n → Parses (short_bytes n) n get_short
unfolding get_short get ◌>>=◌
get_short-Parses n h =
    subst (λ v. Parses (short_bytes n) v get_short) (short_of n h)
      (Reads-Parses _ _ get_short-Reads refl (λ p s. (_, refl)))
