-- ===== src/Inet/Ipv4Header/Fragments.antt =====
-- The flags and the fragment offset in two bytes, and back.
use osak_ext_ns.Prelude.{
  ℕ, ◌+◌, ◌-◌, ◌*◌, ◌/◌, ◌%◌, ◌^◌, ◌<◌, ◌≡◌, refl, ap, ◌∙◌, arith, Bool, true, ◌&&◌, ltb, ltb→lt,
  ◌==◌, ==_iff, if◌then◌else◌,
}
use osak_ext_ns.Bytes.Flags.{all_below, all_below_lem, set_bit, get_bit}
use osak_ext_ns.Inet.Ipv4Header.{fragment_byte, read_flags, read_offset, eighth, byte_to_short}
use Prim.Native.Nat.{bit_and, bit_or}

-- The two bits come back from the byte, and leave the offset's upper five bits alone.
abbrev comes_back : ℕ → ℕ → Bool
comes_back flags high =
    (read_flags (fragment_byte flags high) == flags)
    && ((bit_and (fragment_byte flags high) 0x1f == high) && ltb (fragment_byte flags high) 256)

flags_table : all_below (λ flags. all_below (comes_back flags) 32) 4 ≡ true
unfolding all_below read_flags fragment_byte get_bit set_bit
flags_table = refl

both : (x y : Bool) → (x && y) ≡ true → (x ≡ true) × (y ≡ true)
both x y h = ground arith

pub read_flags-fragment_byte :
    (flags high : ℕ)
    → flags < 4
    → high < 32
    → (read_flags (fragment_byte flags high) ≡ flags)
      × (bit_and (fragment_byte flags high) 0x1f ≡ high)
      × (fragment_byte flags high < 256)
read_flags-fragment_byte flags high f k =
    let (a, bc) = both _ _ (all_below_lem _ 32 (all_below_lem _ 4 flags_table flags f) high k) in
    let (b, c) = both _ _ bc in ((==_iff _ _).0 a, (==_iff _ _).0 b, ltb→lt _ _ c)

-- The upper five bits and a low byte below 128 are put together; a low byte from 128 on is widened
-- with its sign, which sets all the upper bits.
abbrev joins : ℕ → ℕ → Bool
joins high low =
    bit_or (high * 256) (byte_to_short low)
    == (if ltb low 128 then high * 256 + low else low + (2 ^ 16 - 256))

joins_table : all_below (λ high. all_below (joins high) 256) 32 ≡ true
unfolding all_below
joins_table = refl

pub join :
    (high low : ℕ)
    → high < 32
    → low < 256
    → bit_or (high * 256) (byte_to_short low)
      ≡ (if ltb low 128 then high * 256 + low else low + (2 ^ 16 - 256))
join high low h k =
    (==_iff _ _).0 (all_below_lem _ 256 (all_below_lem _ 32 joins_table high h) low k)

-- The offset in units of eight bytes, split as the code does it.
pub eighth_high : (k : ℕ) → k < 8192 → eighth (8 * k) / 256 % 32 ≡ k / 256
eighth_high k h = ground arith

pub eighth_low : (k : ℕ) → k < 8192 → eighth (8 * k) % 256 ≡ k % 256
eighth_low k h = ground arith

-- What an offset of 8 * k is read back as.
abbrev pub offset_read : ℕ → ℕ
offset_read k = if ltb (k % 256) 128 then 8 * k else 63_488 + 8 * (k % 256)

joined :
    (k : ℕ)
    → k < 8192
    → (if ltb (k % 256) 128 then k / 256 * 256 + k % 256 else k % 256 + (2 ^ 16 - 256)) * 8 % 2 ^ 16
      ≡ offset_read k
joined k h = ground arith

pub read_offset-fragment_byte :
    (flags k : ℕ)
    → flags < 4
    → k < 8192
    → read_offset (fragment_byte flags (k / 256)) (k % 256) ≡ offset_read k
unfolding read_offset
read_offset-fragment_byte flags k f h =
    let (a, b, c) = read_flags-fragment_byte flags (k / 256) f (omega arith) in
    ap (λ x. bit_or (x * 256) (byte_to_short (k % 256)) * 8 % 2 ^ 16) b
    ∙ ap (λ x. x * 8 % 2 ^ 16) (join (k / 256) (k % 256) (omega arith) (omega arith))
    ∙ joined k h
