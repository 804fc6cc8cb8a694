-- ===== src/Bytes/Flags.antt =====
-- The flag bits of the headers' first byte: `m_flags |= (1 << k)`, `m_flags &= ~(1 << k)` and
-- `(m_flags & (1 << k)) > 0`. The byte is widened to an int with its sign and narrowed again, which
-- leaves its low eight bits to the same operation.
use osak_ext_ns.Prelude.{
  ℕ, zero, suc, ◌-◌, ◌^◌, ◌<◌, ◌≡◌, refl, arith, Bool, true, false, ◌&&◌, ltb, ltb→lt, ◌==◌,
  if◌then◌else◌,
}
use osak_ext_ns.Bytes.{IsByte, bool_eq}
use Prim.Native.Nat.{bit_and, bit_or}

unfoldable pub set_bit : ℕ → Bool → ℕ → ℕ
set_bit k true flags = bit_or flags (2 ^ k)
set_bit k false flags = bit_and flags (255 - 2 ^ k)

unfoldable pub get_bit : ℕ → ℕ → Bool
get_bit k flags = ltb 0 (bit_and flags (2 ^ k))

-- A test of every number below a bound.
unfoldable pub all_below : (ℕ → Bool) → ℕ → Bool
all_below p zero = true
all_below p (suc n) = p n && all_below p n

pub all_below_lem : (p : ℕ → Bool) (n : ℕ) → all_below p n ≡ true → (i : ℕ) → i < n → p i ≡ true
unfolding all_below
all_below_lem p zero e i h = absurd (omega arith)
all_below_lem p (suc n) e i h = ground (arith, all_below_lem p n (ground arith) i)

-- Bit `j` after bit `k` is set to `f`.
abbrev independent : Bool → ℕ → ℕ → ℕ → Bool
independent f k j flags =
    bool_eq (get_bit j (set_bit k f flags)) (if j == k then f else get_bit j flags)

abbrev all_independent : Bool → Bool
all_independent f = all_below (λ k. all_below (λ j. all_below (independent f k j) 256) 8) 8

table : (f : Bool) → all_independent f ≡ true
unfolding all_below get_bit set_bit
table true = refl
table false = refl

pub bool_eq→eq : (x y : Bool) → bool_eq x y ≡ true → x ≡ y
bool_eq→eq true true h = refl
bool_eq→eq false false h = refl
bool_eq→eq true false h = cc
bool_eq→eq false true h = cc

-- Setting a bit of a byte changes that bit only.
pub get_bit-set_bit :
    (f : Bool) (k j flags : ℕ)
    → k < 8
    → j < 8
    → IsByte flags
    → get_bit j (set_bit k f flags) ≡ (if j == k then f else get_bit j flags)
get_bit-set_bit f k j flags hk hj hb =
    bool_eq→eq _ _
      (all_below_lem _ 256 (all_below_lem _ 8 (all_below_lem _ 8 (table f) k hk) j hj) flags hb)

abbrev stays_byte : Bool → ℕ → ℕ → Bool
stays_byte f k flags = ltb (set_bit k f flags) 256

byte_table : (f : Bool) → all_below (λ k. all_below (stays_byte f k) 256) 8 ≡ true
unfolding all_below set_bit
byte_table true = refl
byte_table false = refl

pub set_bit-IsByte : (f : Bool) (k flags : ℕ) → k < 8 → IsByte flags → IsByte (set_bit k f flags)
set_bit-IsByte f k flags hk hb =
    ltb→lt _ _ (all_below_lem _ 256 (all_below_lem _ 8 (byte_table f) k hk) flags hb)
