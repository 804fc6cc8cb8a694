-- ===== src/Bytes.antt =====
-- What the headers use of java.nio.ByteBuffer, and Ipv4Address of
-- java/main/osak/ext/ns3/network/utils/Ipv4Address.java. A byte, an int and a long are their bit
-- patterns, below 2^8, 2^32 and 2^64.
pub mod Laws
pub mod RoundTrip
pub mod Flags
use osak_ext_ns.Prelude.{
  ℕ, zero, suc, ◌+◌, ◌-◌, ◌*◌, ◌/◌, ◌%◌, ◌^◌, ◌<◌, Bool, true, false, ◌&&◌, Option, none, some,
  List, [], ◌∷◌, ◌++◌, length, take, drop, ltb, leb, ◌==◌, if◌then◌else◌,
}
use osak_ext_ns.Result.{Result, ok, fault, Fault, ◌>>=◌}

-- A big-endian ByteBuffer: the bytes before its position, and those from its position to its limit.
pub record ByteBuffer : Type 0 where
  pub before : List ℕ
  pub after : List ℕ

-- `position()`.
abbrev pub position : ByteBuffer → ℕ
position b = length b.before

abbrev pub remaining : ByteBuffer → ℕ
remaining b = length b.after

-- `position(p)`, at or before the limit.
abbrev pub at_position : ℕ → ByteBuffer → ByteBuffer
at_position p b = record {
  before = take p (b.before ++ b.after);
  after = drop p (b.before ++ b.after);
}

-- `put(byte)`.
unfoldable pub put : ℕ → ByteBuffer → Result ByteBuffer
put x b = elim b.after [
  | [] ↦ fault Fault.buffer_overflow
  | y ∷ ys ↦ ok (record { before = b.before ++ (x ∷ []); after = ys })
]

unfoldable pub put_bytes : List ℕ → ByteBuffer → Result ByteBuffer
put_bytes [] b = ok b
put_bytes (x ∷ xs) b = put x b >>= put_bytes xs

abbrev pub int_bytes : ℕ → List ℕ
int_bytes n = n / 2 ^ 24 % 256 ∷ (n / 2 ^ 16 % 256 ∷ (n / 2 ^ 8 % 256 ∷ (n % 256 ∷ [])))

-- `putInt(int)`.
abbrev pub put_int : ℕ → ByteBuffer → Result ByteBuffer
put_int n b = put_bytes (int_bytes n) b

-- `get()`.
unfoldable pub get : ByteBuffer → Result (ℕ × ByteBuffer)
get b = elim b.after [
  | [] ↦ fault Fault.buffer_underflow
  | y ∷ ys ↦ ok (y, record { before = b.before ++ (y ∷ []); after = ys })
]

-- `get(byte[n])`: the bytes one by one, or an underflow.
unfoldable pub get_bytes : ℕ → ByteBuffer → Result (List ℕ × ByteBuffer)
get_bytes zero b = ok ([], b)
get_bytes (suc n) b = do (x, b) ← get b; (xs, b) ← get_bytes n b; ok (x ∷ xs, b)

-- `get(byte[4])`.
unfoldable pub get_four : ByteBuffer → Result (List ℕ × ByteBuffer)
get_four b = do
  (w, b) ← get b
  (x, b) ← get b
  (y, b) ← get b
  (z, b) ← get b
  ok (w ∷ (x ∷ (y ∷ (z ∷ []))), b)

abbrev pub int_of : List ℕ → ℕ
int_of (w ∷ (x ∷ (y ∷ (z ∷ [])))) = w * 2 ^ 24 + x * 2 ^ 16 + y * 2 ^ 8 + z
int_of bytes = 0

-- `getInt()`.
unfoldable pub get_int : ByteBuffer → Result (ℕ × ByteBuffer)
get_int b = do (bytes, b) ← get_four b; ok (int_of bytes, b)

-- `putShort(short)` and `getShort()`.
abbrev pub put_short : ℕ → ByteBuffer → Result ByteBuffer
put_short n b = put_bytes (n / 2 ^ 8 % 256 ∷ (n % 256 ∷ [])) b

unfoldable pub get_short : ByteBuffer → Result (ℕ × ByteBuffer)
get_short b = do (x, b) ← get b; (y, b) ← get b; ok (x * 2 ^ 8 + y, b)

-- `a < b` of two ints, and a byte that becomes an int.
abbrev pub int_lt : ℕ → ℕ → Bool
int_lt a b = ltb ((a + 2 ^ 31) % 2 ^ 32) ((b + 2 ^ 31) % 2 ^ 32)

abbrev pub byte_to_int : ℕ → ℕ
byte_to_int x = if ltb x 128 then x else x + (2 ^ 32 - 256)

pub record Ipv4Address : Type 0 where
  pub address : ℕ
  pub initialized : Bool

-- `Ipv4Address(int)`.
abbrev pub ipv4 : ℕ → Ipv4Address
ipv4 n = record { address = n; initialized = true }

-- `Ipv4Address()`.
abbrev pub no_ipv4 : Ipv4Address
no_ipv4 = record { address = 0x6666_6666; initialized = false }

abbrev pub bool_eq : Bool → Bool → Bool
bool_eq true true = true
bool_eq false false = true
bool_eq x y = false

-- `equals`, the argument null or not.
unfoldable pub address_equals : Ipv4Address → Option Ipv4Address → Bool
address_equals a none = false
address_equals a (some b) = a.address == b.address && bool_eq a.initialized b.initialized

abbrev pub IsByte : ℕ → Type 0
IsByte x = x < 256

abbrev pub IsShort : ℕ → Type 0
IsShort n = n < 2 ^ 16

abbrev pub IsInt : ℕ → Type 0
IsInt n = n < 2 ^ 32
