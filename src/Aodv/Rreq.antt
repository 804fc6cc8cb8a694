-- ===== src/Aodv/Rreq.antt =====
-- The route request: java/main/osak/ext/ns3/aodv/RreqHeader.java. The getters of whole fields are the
-- record's fields.
pub mod RoundTrip
pub mod Fields
use osak_ext_ns.Prelude.{
  ℕ, ◌-◌, Bool, true, false, ◌&&◌, Option, none, some, List, ◌==◌, if◌then◌else◌,
}
use osak_ext_ns.Result.{Result, ok, fault, Fault, ◌>>=◌, deref}
use osak_ext_ns.Bytes.{
  ByteBuffer, put, put_int, get, get_int, get_four, position, Ipv4Address, ipv4, address_equals,
}
use osak_ext_ns.Bytes.Flags.{set_bit, get_bit}

pub record RreqHeader : Type 0 where
  pub flags : ℕ
  pub reserved : ℕ
  pub hop_count : ℕ
  pub request_id : ℕ
  pub dst : Option Ipv4Address
  pub dst_seq_no : ℕ
  pub origin : Option Ipv4Address
  pub origin_seq_no : ℕ

-- `RreqHeader()`.
abbrev pub empty_request : RreqHeader
empty_request = record {
  flags = 0;
  reserved = 0;
  hop_count = 0;
  request_id = 0;
  dst = none;
  dst_seq_no = 0;
  origin = none;
  origin_seq_no = 0;
}

abbrev pub serialized_size : RreqHeader → ℕ
serialized_size h = 23

-- A field that is still null is dereferenced.
unfoldable pub serialize : RreqHeader → ByteBuffer → Result ByteBuffer
serialize h b = do
  b ← put h.flags b
  b ← put h.reserved b
  b ← put h.hop_count b
  b ← put_int h.request_id b
  dst ← deref h.dst
  b ← put_int dst.address b
  b ← put_int h.dst_seq_no b
  origin ← deref h.origin
  b ← put_int origin.address b
  put_int h.origin_seq_no b

-- Every field is assigned, so the old ones do not matter. `byte2int` is Helper.byte2int.
unfoldable pub read_fields : (List ℕ → ℕ) → ByteBuffer → Result (RreqHeader × ByteBuffer)
read_fields byte2int b = do
  (flags, b) ← get b
  (reserved, b) ← get b
  (hop_count, b) ← get b
  (request_id, b) ← get_int b
  (dst, b) ← get_four b
  (dst_seq_no, b) ← get_int b
  (origin, b) ← get_four b
  (origin_seq_no, b) ← get_int b
  ok (
    record {
      flags = flags;
      reserved = reserved;
      hop_count = hop_count;
      request_id = request_id;
      dst = some (ipv4 (byte2int dst));
      dst_seq_no = dst_seq_no;
      origin = some (ipv4 (byte2int origin));
      origin_seq_no = origin_seq_no;
    },
    b,
  )

-- The number of bytes read, the header and the buffer after it.
unfoldable pub deserialize : (List ℕ → ℕ) → ByteBuffer → Result (ℕ × RreqHeader × ByteBuffer)
deserialize byte2int b = do (h, b') ← read_fields byte2int b; ok (position b' - position b, h, b')

abbrev pub set_hop_count : ℕ → RreqHeader → RreqHeader
set_hop_count count h = record h { hop_count = count }

abbrev pub set_id : ℕ → RreqHeader → RreqHeader
set_id id h = record h { request_id = id }

abbrev pub set_dst : Option Ipv4Address → RreqHeader → RreqHeader
set_dst a h = record h { dst = a }

abbrev pub set_dst_seqno : ℕ → RreqHeader → RreqHeader
set_dst_seqno s h = record h { dst_seq_no = s }

abbrev pub set_origin : Option Ipv4Address → RreqHeader → RreqHeader
set_origin a h = record h { origin = a }

abbrev pub set_origin_seqno : ℕ → RreqHeader → RreqHeader
set_origin_seqno s h = record h { origin_seq_no = s }

unfoldable pub set_gratuitous_rrep : Bool → RreqHeader → RreqHeader
set_gratuitous_rrep f h = record h { flags = set_bit 5 f h.flags }

unfoldable pub get_gratuitous_rrep : RreqHeader → Bool
get_gratuitous_rrep h = get_bit 5 h.flags

unfoldable pub set_destination_only : Bool → RreqHeader → RreqHeader
set_destination_only f h = record h { flags = set_bit 4 f h.flags }

unfoldable pub get_destination_only : RreqHeader → Bool
get_destination_only h = get_bit 4 h.flags

unfoldable pub set_unknown_seqno : Bool → RreqHeader → RreqHeader
set_unknown_seqno f h = record h { flags = set_bit 3 f h.flags }

unfoldable pub get_unknown_seqno : RreqHeader → Bool
get_unknown_seqno h = get_bit 3 h.flags

-- `equals` with another RreqHeader: `&&` reads a null address only when the fields before it agree.
abbrev origins_equal : RreqHeader → RreqHeader → Result Bool
origins_equal h g = do
  origin ← deref h.origin
  ok (address_equals origin g.origin && h.origin_seq_no == g.origin_seq_no)

abbrev addresses_equal : RreqHeader → RreqHeader → Result Bool
addresses_equal h g = do
  dst ← deref h.dst
  if address_equals dst g.dst && h.dst_seq_no == g.dst_seq_no then origins_equal h g else ok false

unfoldable pub equals : RreqHeader → RreqHeader → Result Bool
equals h g =
    if h.flags == g.flags
      && h.reserved == g.reserved
      && h.hop_count == g.hop_count
      && h.request_id == g.request_id
    then addresses_equal h g
    else ok false
