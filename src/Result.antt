-- ===== src/Result.antt =====
-- Results of operations that can go wrong in the source: a null pointer that is dereferenced, an
-- NS_ASSERT that fails (assertions are compiled in), an element taken from an empty vector, a null
-- callback that is called, an integer division by zero, a thrown exception; in the Java classes also
-- a ByteBuffer without room or without bytes left, and a collection that changes under an iterator, an
-- index out of bounds.
use osak_ext_ns.Prelude.{
  ℕ, zero, suc, ◌≡◌, refl, Bool, true, false, Option, none, some, arith, if◌then◌else◌,
}

pub data Fault : Type 0 where
  null_pointer assertion empty_vector null_callback division_by_zero : Fault
  runtime_error : Fault
  buffer_overflow buffer_underflow concurrent_modification index_out_of_bounds : Fault

pub data Result {ℓ} (A : Type ℓ) : Type ℓ where
  ok : A → Result A
  fault : Fault → Result A

-- A step, and the rest of the run, which a fault ends.
infixl 5 ◌>>=◌ ◌>>◌
unfoldable pub ◌>>=◌ {ℓ κ} : {T : Type ℓ} {U : Type κ} → Result T → (T → Result U) → Result U
fault e >>= rest = fault e
ok t >>= rest = rest t

-- A pointer that is dereferenced.
abbrev pub deref {ℓ} : {A : Type ℓ} → Option A → Result A
deref none = fault null_pointer
deref (some a) = ok a

abbrev pub ◌>>◌ {κ} : {U : Type κ} → Result (Unit {0}) → Result U → Result U
step >> rest = step >>= λ _. rest

-- NS_ASSERT and NS_ASSERT_MSG.
abbrev pub check : Bool → Result (Unit {0})
check true = ok tt
check false = fault assertion

-- The divisor of an integer division.
abbrev pub divisor : ℕ → Result (Unit {0})
divisor zero = fault division_by_zero
divisor (suc n) = ok tt

-- A run that went well, taken apart at its first step.
pub >>=-eq-ok {ℓ κ} :
    {T : Type ℓ} {U : Type κ} (step : Result T) (rest : T → Result U) {u : U}
    → (step >>= rest) ≡ ok u
    → (t : T) × (step ≡ ok t) × (rest t ≡ ok u)
unfolding ◌>>=◌
>>=-eq-ok (fault e) rest h = cc
>>=-eq-ok (ok t) rest h = (t, refl, h)

pub check-eq-ok : (b : Bool) {u : Unit {0}} → check b ≡ ok u → b ≡ true
check-eq-ok b h = ground arith

-- The state in a successful result.
pub ok-state {ℓ κ} :
    {A : Type ℓ} {S : Type κ} {a b : A} {s t : S}
    → ◌≡◌ {A = Result (A × S)} (ok (a, s)) (ok (b, t))
    → s ≡ t
ok-state h = cc

pub ok-injective {ℓ} : {A : Type ℓ} {a b : A} → ok a ≡ ok b → a ≡ b
ok-injective h = cc

-- A step that succeeds goes on with its value.
pub bind_ok {ℓ κ} :
    {A : Type ℓ} {B : Type κ} (m : Result A) (f : A → Result B) {a : A} → m ≡ ok a → (m >>= f) ≡ f a
unfolding ◌>>=◌
bind_ok m f h = rw h

pub deref-eq-ok {ℓ} : {A : Type ℓ} (o : Option A) {a : A} → deref o ≡ ok a → o ≡ some a
deref-eq-ok none h = cc
deref-eq-ok (some b) h = cc

pub bind_assoc {ℓ} :
    {A B C : Type ℓ} (m : Result A) (f : A → Result B) (g : B → Result C)
    → ((m >>= f) >>= g) ≡ (m >>= λ a. f a >>= g)
unfolding ◌>>=◌
bind_assoc (ok a) f g = refl
bind_assoc (fault e) f g = refl

pub bind_ext {ℓ} :
    {A B : Type ℓ} (m : Result A) {f g : A → Result B}
    → ((a : A) → f a ≡ g a)
    → (m >>= f) ≡ (m >>= g)
unfolding ◌>>=◌
bind_ext (ok a) h = h a
bind_ext (fault e) h = refl

pub bind_fault {ℓ κ} :
    {A : Type ℓ} {B : Type κ} (m : Result A) (f : A → Result B) {e : Fault}
    → m ≡ fault e
    → (m >>= f) ≡ fault e
unfolding ◌>>=◌
bind_fault m f h = rw h

pub bind_if {ℓ κ} :
    {A : Type ℓ} {B : Type κ} (b : Bool) (e : Fault) (a : A) (f : A → Result B)
    → ((if b then fault e else ok a) >>= f) ≡ (if b then fault e else f a)
unfolding ◌>>=◌
bind_if true e a f = refl
bind_if false e a f = refl
