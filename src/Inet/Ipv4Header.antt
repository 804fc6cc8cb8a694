-- ===== src/Inet/Ipv4Header.antt =====
-- The IPv4 header: java/main/osak/ext/ns3/internet/Ipv4Header.java. The getters of whole fields are the
-- record's fields; a short is its bit pattern, below 2^16. Assertions are off.
pub mod Fragments
pub mod RoundTrip
use osak_ext_ns.Prelude.{
  ℕ, zero, suc, ◌+◌, ◌-◌, ◌*◌, ◌/◌, ◌%◌, ◌^◌, Bool, true, false, not, Option, none, some, List, ltb,
  ◌==◌, if◌then◌else◌,
}
use osak_ext_ns.Result.{Result, ok, fault, Fault, ◌>>=◌, deref}
use osak_ext_ns.Bytes.{
  ByteBuffer, put, put_int, put_short, get, get_four, get_short, position, Ipv4Address, ipv4,
}
use osak_ext_ns.Bytes.Flags.{set_bit, get_bit}
use Prim.Native.Nat.{bit_and, bit_or}

pub record Ipv4Header : Type 0 where
  pub calc_checksum : Bool
  pub payload_size : ℕ
  pub identification : ℕ
  pub tos : ℕ
  pub ttl : ℕ
  pub protocol : ℕ
  pub flags : ℕ
  pub fragment_offset : ℕ
  pub source : Option Ipv4Address
  pub destination : Option Ipv4Address
  pub checksum : ℕ
  pub good_checksum : Bool
  pub header_size : ℕ

-- `Ipv4Header()`.
abbrev pub empty_header : Ipv4Header
empty_header = record {
  calc_checksum = false;
  payload_size = 0;
  identification = 0;
  tos = 0;
  ttl = 0;
  protocol = 0;
  flags = 0;
  fragment_offset = 0;
  source = none;
  destination = none;
  checksum = 0;
  good_checksum = true;
  header_size = 20;
}

abbrev pub set_payload_size : ℕ → Ipv4Header → Ipv4Header
set_payload_size size h = record h { payload_size = size }

abbrev pub set_identification : ℕ → Ipv4Header → Ipv4Header
set_identification identification h = record h { identification = identification }

abbrev pub set_tos : ℕ → Ipv4Header → Ipv4Header
set_tos tos h = record h { tos = tos }

abbrev pub set_fragment_offset : ℕ → Ipv4Header → Ipv4Header
set_fragment_offset offset_bytes h = record h { fragment_offset = offset_bytes }

abbrev pub set_ttl : ℕ → Ipv4Header → Ipv4Header
set_ttl ttl h = record h { ttl = ttl }

abbrev pub set_protocol : ℕ → Ipv4Header → Ipv4Header
set_protocol protocol h = record h { protocol = protocol }

abbrev pub set_source : Option Ipv4Address → Ipv4Header → Ipv4Header
set_source source h = record h { source = source }

abbrev pub set_destination : Option Ipv4Address → Ipv4Header → Ipv4Header
set_destination destination h = record h { destination = destination }

abbrev pub enable_checksum : Ipv4Header → Ipv4Header
enable_checksum h = record h { calc_checksum = true }

-- DONT_FRAGMENT is bit 0 of the flags, MORE_FRAGMENTS is bit 1.
unfoldable pub set_more_fragments : Ipv4Header → Ipv4Header
set_more_fragments h = record h { flags = set_bit 1 true h.flags }

unfoldable pub set_last_fragment : Ipv4Header → Ipv4Header
set_last_fragment h = record h { flags = set_bit 1 false h.flags }

unfoldable pub set_dont_fragment : Ipv4Header → Ipv4Header
set_dont_fragment h = record h { flags = set_bit 0 true h.flags }

unfoldable pub set_may_fragment : Ipv4Header → Ipv4Header
set_may_fragment h = record h { flags = set_bit 0 false h.flags }

unfoldable pub is_last_fragment : Ipv4Header → Bool
is_last_fragment h = not (get_bit 1 h.flags)

unfoldable pub is_dont_fragment : Ipv4Header → Bool
is_dont_fragment h = get_bit 0 h.flags

-- `SetDscp` and `SetEcn`, of the value of their argument.
unfoldable pub set_dscp : ℕ → Ipv4Header → Ipv4Header
set_dscp dscp h = record h { tos = bit_or (bit_and h.tos 0x03) (dscp * 4) % 256 }

unfoldable pub set_ecn : ℕ → Ipv4Header → Ipv4Header
set_ecn ecn h = record h { tos = bit_or (bit_and h.tos 0xfc) ecn % 256 }

-- The value that `GetDscp` and `GetEcn` look up: the byte is widened with its sign first, which
-- `0xFC` and `0x3` cut off.
unfoldable pub dscp_value : Ipv4Header → ℕ
dscp_value h = bit_and h.tos 0xfc / 4

unfoldable pub ecn_value : Ipv4Header → ℕ
ecn_value h = bit_and h.tos 0x03

-- A short as an int, and `/ 8` of it.
abbrev pub short_to_int : ℕ → ℕ
short_to_int n = if ltb n (2 ^ 15) then n else n + (2 ^ 32 - 2 ^ 16)

abbrev pub eighth : ℕ → ℕ
eighth n = if ltb n (2 ^ 15) then n / 8 else (2 ^ 32 - (2 ^ 16 - n) / 8) % 2 ^ 32

-- `GetFragmentOffset`, which throws if the sum of the two shorts, as ints, is too large.
abbrev pub fits_datagram : ℕ → ℕ → Bool
fits_datagram offset payload =
    ltb ((short_to_int offset + short_to_int payload + 2 ^ 31) % 2 ^ 32) (65_516 + 2 ^ 31)

unfoldable pub get_fragment_offset : Ipv4Header → Result ℕ
get_fragment_offset h =
    if fits_datagram h.fragment_offset h.payload_size
    then ok h.fragment_offset
    else fault Fault.runtime_error

-- The byte of the flags and the offset's upper five bits.
abbrev mark : Bool → ℕ → ℕ → ℕ
mark false k x = x
mark true k x = set_bit k true x

unfoldable pub fragment_byte : ℕ → ℕ → ℕ
fragment_byte flags high = mark (get_bit 1 flags) 5 (mark (get_bit 0 flags) 6 high)

unfoldable pub serialize : Ipv4Header → ByteBuffer → Result ByteBuffer
serialize h b = do
  b ← put 0x45 b
  b ← put h.tos b
  b ← put_short ((h.payload_size + h.header_size) % 2 ^ 16) b
  b ← put_short h.identification b
  b ← put (fragment_byte h.flags (eighth h.fragment_offset / 256 % 32)) b
  b ← put (eighth h.fragment_offset % 256) b
  b ← put h.ttl b
  b ← put h.protocol b
  b ← put_short 0 b
  source ← deref h.source
  b ← put_int source.address b
  destination ← deref h.destination
  put_int destination.address b

-- The flags from that byte, and the offset from it and the next, which is widened with its sign.
unfoldable pub read_flags : ℕ → ℕ
read_flags x = mark (get_bit 5 x) 1 (mark (get_bit 6 x) 0 0)

abbrev pub byte_to_short : ℕ → ℕ
byte_to_short x = if ltb x 128 then x else x + (2 ^ 16 - 256)

unfoldable pub read_offset : ℕ → ℕ → ℕ
read_offset x low = bit_or (bit_and x 0x1f * 256) (byte_to_short low) * 8 % 2 ^ 16

-- The part of `Deserialize` after the version, of a header that was `old`.
unfoldable pub read_fields :
    (List ℕ → ℕ) → Ipv4Header → ℕ → ByteBuffer → Result (Ipv4Header × ByteBuffer)
read_fields byte2int old header_size b = do
  (tos, b) ← get b
  (size, b) ← get_short b
  (identification, b) ← get_short b
  (x, b) ← get b
  (low, b) ← get b
  (ttl, b) ← get b
  (protocol, b) ← get b
  (checksum, b) ← get_short b
  (source, b) ← get_four b
  (destination, b) ← get_four b
  ok (
    record {
      calc_checksum = old.calc_checksum;
      payload_size = (size + 2 ^ 16 - header_size) % 2 ^ 16;
      identification = identification;
      tos = tos;
      ttl = ttl;
      protocol = protocol;
      flags = read_flags x;
      fragment_offset = read_offset x low;
      source = some (ipv4 (byte2int source));
      destination = some (ipv4 (byte2int destination));
      checksum = checksum;
      good_checksum = old.good_checksum;
      header_size = header_size;
    },
    b,
  )

-- The number of bytes read, the header and the buffer after it. Of another version's header one byte
-- is taken, and 0 is returned.
unfoldable pub deserialize :
    (List ℕ → ℕ) → Ipv4Header → ByteBuffer → Result (ℕ × Ipv4Header × ByteBuffer)
deserialize byte2int old b = do
  (x, c) ← get b
  if x / 16 == 4
      then (read_fields byte2int old (x % 16 * 4) c >>= λ (h, b').
          ok (position b' - position b, h, b'))
      else ok (0, old, c)
