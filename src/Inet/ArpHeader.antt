-- ===== src/Inet/ArpHeader.antt =====
-- The ARP header, java/main/osak/ext/ns3/internet/ArpHeader.java, with the byte-string address that it
-- holds, java/main/osak/ext/ns3/network/Address.java. Assertions are off.
pub mod RoundTrip
pub mod Unset
use osak_ext_ns.Prelude.{
  ℕ, zero, suc, ◌+◌, ◌-◌, ◌*◌, ◌/◌, ◌%◌, ◌^◌, Bool, true, false, not, ◌&&◌, ◌||◌, Option, none,
  some, List, [], ◌∷◌, ◌++◌, length, replicate, drop, ltb, leb, ◌==◌, if◌then◌else◌,
}
use osak_ext_ns.Result.{Result, ok, fault, Fault, ◌>>=◌, deref}
use osak_ext_ns.Bytes.{
  ByteBuffer, put, put_int, put_short, put_bytes, get, get_four, get_short, get_bytes, position,
  Ipv4Address, ipv4,
}

-- An Address: its type, and the `m_len` bytes of `m_data` in use.
pub record Address : Type 0 where
  pub type : ℕ
  pub bytes : List ℕ

-- `GetLength()`.
abbrev pub len : Address → ℕ
len a = length a.bytes

unfoldable pub is_invalid : Address → Bool
is_invalid a = len a == 0 && a.type == 0

unfoldable pub check_compatible : ℕ → ℕ → Address → Bool
check_compatible type n a = len a == n && a.type == type || leb n (len a) && a.type == 0

-- `CopyTo(buffer)` into a fresh array of `n` bytes.
unfoldable pub copy_to : ℕ → Address → Result (List ℕ)
copy_to n a =
    if ltb n (len a)
    then fault Fault.index_out_of_bounds
    else ok (a.bytes ++ replicate (n - len a) 0)

-- `CopyFrom(buffer, len)`, of a whole array; MAX_SIZE is 20.
unfoldable pub copy_from : List ℕ → Address → Result Address
copy_from buffer a =
    if ltb 20 (length buffer)
    then fault Fault.index_out_of_bounds
    else ok (record a { bytes = buffer })

pub data ArpType : Type 0 where
  arp_type_request arp_type_reply : ArpType

abbrev pub operation : ArpType → ℕ
operation arp_type_request = 1
operation arp_type_reply = 2

-- Each field is null until it is set.
pub record ArpHeader : Type 0 where
  pub type : Option ArpType
  pub mac_source : Option Address
  pub mac_dest : Option Address
  pub ipv4_source : Option Ipv4Address
  pub ipv4_dest : Option Ipv4Address

-- `new ArpHeader()`.
abbrev pub empty_arp_header : ArpHeader
empty_arp_header = record {
  type = none;
  mac_source = none;
  mac_dest = none;
  ipv4_source = none;
  ipv4_dest = none;
}

-- `SetRequest` and `SetReply`; the arguments may be null.
abbrev pub set_request :
    Option Address → Option Ipv4Address → Option Address → Option Ipv4Address → ArpHeader
set_request source_mac source destination_mac destination = record {
  type = some arp_type_request;
  mac_source = source_mac;
  mac_dest = destination_mac;
  ipv4_source = source;
  ipv4_dest = destination;
}

abbrev pub set_reply :
    Option Address → Option Ipv4Address → Option Address → Option Ipv4Address → ArpHeader
set_reply source_mac source destination_mac destination = record {
  type = some arp_type_reply;
  mac_source = source_mac;
  mac_dest = destination_mac;
  ipv4_source = source;
  ipv4_dest = destination;
}

abbrev pub serialized_size : ArpHeader → Result ℕ
serialized_size h = deref h.mac_source >>= λ a. ok (16 + len a * 2)

-- The second hardware address is copied from the source too.
unfoldable pub serialize : ArpHeader → ByteBuffer → Result ByteBuffer
serialize h b = do
  b ← put_short 1 b
  b ← put_short 0x800 b
  source ← deref h.mac_source
  b ← put (len source % 256) b
  b ← put 4 b
  type ← deref h.type
  b ← put_short (operation type) b
  mac_source ← copy_to (len source) source
  b ← put_bytes mac_source b
  ipv4_source ← deref h.ipv4_source
  b ← put_int ipv4_source.address b
  dest ← deref h.mac_dest
  mac_dest ← copy_to (len dest) source
  b ← put_bytes mac_dest b
  ipv4_dest ← deref h.ipv4_dest
  put_int ipv4_dest.address b

-- Another operation leaves the type as it was.
abbrev pub read_type : ℕ → Option ArpType → Option ArpType
read_type x old =
    if x == 1 then some arp_type_request else if x == 2 then some arp_type_reply else old

-- `new byte[n]` for a byte `n`.
abbrev array_size : ℕ → Result ℕ
array_size n = if ltb n 128 then ok n else fault Fault.runtime_error

-- The part of `Deserialize` after the four fields that are checked, into a header that was `old`.
unfoldable pub read_fields :
    (List ℕ → ℕ) → ArpHeader → ℕ → ByteBuffer → Result (ArpHeader × ByteBuffer)
read_fields byte2int old hardware_len b = do
  (type, b) ← get_short b
  n ← array_size hardware_len
  (source, b) ← get_bytes n b
  old_source ← deref old.mac_source
  mac_source ← copy_from source old_source
  (ip_source, b) ← get_four b
  old_ip_source ← deref old.ipv4_source
  (dest, b) ← get_bytes n b
  old_dest ← deref old.mac_dest
  mac_dest ← copy_from dest old_dest
  (ip_dest, b) ← get_four b
  old_ip_dest ← deref old.ipv4_dest
  ok (
    record {
      type = read_type type old.type;
      mac_source = some mac_source;
      mac_dest = some mac_dest;
      ipv4_source = some (ipv4 (byte2int ip_source));
      ipv4_dest = some (ipv4 (byte2int ip_dest));
    },
    b,
  )

-- The number of bytes read, the header and the buffer after it. Of another protocol six bytes are
-- taken, and 0 is returned.
unfoldable pub deserialize :
    (List ℕ → ℕ) → ArpHeader → ByteBuffer → Result (ℕ × ArpHeader × ByteBuffer)
deserialize byte2int old b = do
  (hardware_type, c) ← get_short b
  (protocol_type, c) ← get_short c
  (hardware_len, c) ← get c
  (protocol_len, c) ← get c
  if not (protocol_type == 0x800) || not (protocol_len == 4)
      then ok (0, old, c)
      else (read_fields byte2int old hardware_len c >>= λ (h, b').
          ok (position b' - position b, h, b'))
