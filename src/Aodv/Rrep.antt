-- ===== src/Aodv/Rrep.antt =====
-- The route reply: java/main/osak/ext/ns3/aodv/RrepHeader.java. The getters of whole fields are the
-- record's fields.
pub mod RoundTrip
use osak_ext_ns.Prelude.{ℕ, ◌-◌, Bool, false, ◌&&◌, Option, none, some, List, ◌==◌, if◌then◌else◌}
use osak_ext_ns.Result.{Result, ok, fault, ◌>>=◌, deref}
use osak_ext_ns.Bytes.{
  ByteBuffer, put, put_int, get, get_int, get_four, position, Ipv4Address, ipv4, no_ipv4,
  address_equals,
}
use osak_ext_ns.Bytes.Flags.{set_bit, get_bit}

pub record RrepHeader : Type 0 where
  pub flags : ℕ
  pub prefix_size : ℕ
  pub hop_count : ℕ
  pub dst : Option Ipv4Address
  pub dst_seq_no : ℕ
  pub origin : Option Ipv4Address
  pub life_time : ℕ

-- `RrepHeader(prefixSize, hopCount, dst, dstSeqNo, origin, lifetime)`; the flags are Java's default.
abbrev pub reply : ℕ → ℕ → Option Ipv4Address → ℕ → Option Ipv4Address → ℕ → RrepHeader
reply prefix_size hop_count dst dst_seq_no origin life_time = record {
  flags = 0;
  prefix_size = prefix_size;
  hop_count = hop_count;
  dst = dst;
  dst_seq_no = dst_seq_no;
  origin = origin;
  life_time = life_time;
}

-- `RrepHeader()`.
abbrev pub empty_reply : RrepHeader
empty_reply = reply 0 0 (some no_ipv4) 0 (some no_ipv4) 0

abbrev pub serialized_size : RrepHeader → ℕ
serialized_size h = 19

unfoldable pub serialize : RrepHeader → ByteBuffer → Result ByteBuffer
serialize h b = do
  b ← put h.flags b
  b ← put h.prefix_size b
  b ← put h.hop_count b
  dst ← deref h.dst
  b ← put_int dst.address b
  b ← put_int h.dst_seq_no b
  origin ← deref h.origin
  b ← put_int origin.address b
  put_int h.life_time b

-- Every field is assigned, so the old ones do not matter. `byte2int` is Helper.byte2int.
unfoldable pub read_fields : (List ℕ → ℕ) → ByteBuffer → Result (RrepHeader × ByteBuffer)
read_fields byte2int b = do
  (flags, b) ← get b
  (prefix_size, b) ← get b
  (hop_count, b) ← get b
  (dst, b) ← get_four b
  (dst_seq_no, b) ← get_int b
  (origin, b) ← get_four b
  (life_time, b) ← get_int b
  ok (
    record {
      flags = flags;
      prefix_size = prefix_size;
      hop_count = hop_count;
      dst = some (ipv4 (byte2int dst));
      dst_seq_no = dst_seq_no;
      origin = some (ipv4 (byte2int origin));
      life_time = life_time;
    },
    b,
  )

-- The number of bytes read, the header and the buffer after it.
unfoldable pub deserialize : (List ℕ → ℕ) → ByteBuffer → Result (ℕ × RrepHeader × ByteBuffer)
deserialize byte2int b = do (h, b') ← read_fields byte2int b; ok (position b' - position b, h, b')

abbrev pub set_hop_count : ℕ → RrepHeader → RrepHeader
set_hop_count count h = record h { hop_count = count }

abbrev pub set_dst : Option Ipv4Address → RrepHeader → RrepHeader
set_dst a h = record h { dst = a }

abbrev pub set_dst_seqno : ℕ → RrepHeader → RrepHeader
set_dst_seqno s h = record h { dst_seq_no = s }

abbrev pub set_origin : Option Ipv4Address → RrepHeader → RrepHeader
set_origin a h = record h { origin = a }

abbrev pub set_life_time : ℕ → RrepHeader → RrepHeader
set_life_time t h = record h { life_time = t }

abbrev pub set_prefix_size : ℕ → RrepHeader → RrepHeader
set_prefix_size sz h = record h { prefix_size = sz }

unfoldable pub set_ack_required : Bool → RrepHeader → RrepHeader
set_ack_required f h = record h { flags = set_bit 6 f h.flags }

unfoldable pub get_ack_required : RrepHeader → Bool
get_ack_required h = get_bit 6 h.flags

-- `SetHello`: a reply about its own sender.
unfoldable pub set_hello : Option Ipv4Address → ℕ → ℕ → RrepHeader → RrepHeader
set_hello src src_seq_no life_time h = record {
  flags = 0;
  prefix_size = 0;
  hop_count = 0;
  dst = src;
  dst_seq_no = src_seq_no;
  origin = src;
  life_time = life_time;
}

-- `equals` with another RrepHeader: `&&` reads a null address only when the fields before it agree.
abbrev origins_equal : RrepHeader → RrepHeader → Result Bool
origins_equal h g = do
  origin ← deref h.origin
  ok (address_equals origin g.origin && h.life_time == g.life_time)

abbrev addresses_equal : RrepHeader → RrepHeader → Result Bool
addresses_equal h g = do
  dst ← deref h.dst
  if address_equals dst g.dst && h.dst_seq_no == g.dst_seq_no then origins_equal h g else ok false

unfoldable pub equals : RrepHeader → RrepHeader → Result Bool
equals h g =
    if h.flags == g.flags && h.prefix_size == g.prefix_size && h.hop_count == g.hop_count
    then addresses_equal h g
    else ok false
