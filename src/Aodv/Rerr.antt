-- ===== src/Aodv/Rerr.antt =====
-- The route error: java/main/osak/ext/ns3/aodv/RerrHeader.java.
pub mod RoundTrip
pub mod Destinations
use osak_ext_ns.Prelude.{
  ℕ, zero, suc, ◌+◌, ◌-◌, ◌*◌, ◌%◌, ◌^◌, Bool, true, false, not, ◌&&◌, ◌||◌, Option, none, some,
  List, [], ◌∷◌, ◌++◌, length, ltb, ◌==◌, if◌then◌else◌,
}
use osak_ext_ns.Result.{Result, ok, fault, Fault, ◌>>=◌, deref}
use osak_ext_ns.Bytes.{
  ByteBuffer, put, put_int, get, get_int, get_four, position, Ipv4Address, ipv4, address_equals,
  int_lt, byte_to_int,
}
use osak_ext_ns.Aodv.AddressMap.{Entry, put_entry, contains_key, remove_entry, all_found}
use osak_ext_ns.Bytes.Flags.{set_bit, get_bit}

pub record RerrHeader : Type 0 where
  pub flag : ℕ
  pub reserved : ℕ
  pub unreachable_dst_seq_no : List Entry

-- `RerrHeader()`.
abbrev pub empty_error : RerrHeader
empty_error = record { flag = 0; reserved = 0; unreachable_dst_seq_no = [] }

-- The size of the map as a byte.
abbrev pub dest_count : RerrHeader → ℕ
dest_count h = length h.unreachable_dst_seq_no % 256

-- An int, which a count of 128 to 255 makes negative.
unfoldable pub serialized_size : RerrHeader → ℕ
serialized_size h = (3 + 8 * byte_to_int (dest_count h)) % 2 ^ 32

unfoldable pub serialize_entries : List Entry → ByteBuffer → Result ByteBuffer
serialize_entries [] b = ok b
serialize_entries ((key, seq_no) ∷ entries) b = do
  address ← deref key
  b ← put_int address.address b
  b ← put_int seq_no b
  serialize_entries entries b

unfoldable pub serialize : RerrHeader → ByteBuffer → Result ByteBuffer
serialize h b = do
  b ← put h.flag b
  b ← put h.reserved b
  b ← put (dest_count h) b
  serialize_entries h.unreachable_dst_seq_no b

-- The loop `for (byte k = 0; k < dest; ++k)`: none for a negative `dest`.
abbrev pub rounds : ℕ → ℕ
rounds dest = if ltb dest 128 then dest else 0

unfoldable pub read_entries :
    (List ℕ → ℕ) → ℕ → List Entry → ByteBuffer → Result (List Entry × ByteBuffer)
read_entries byte2int zero entries b = ok (entries, b)
read_entries byte2int (suc n) entries b = do
  (addr, b) ← get_four b
  (seq_no, b) ← get_int b
  read_entries byte2int n (put_entry (some (ipv4 (byte2int addr))) seq_no entries) b

unfoldable pub read_fields : (List ℕ → ℕ) → ByteBuffer → Result (RerrHeader × ByteBuffer)
read_fields byte2int b = do
  (flag, b) ← get b
  (reserved, b) ← get b
  (dest, b) ← get b
  (entries, b) ← read_entries byte2int (rounds dest) [] b
  ok (record { flag = flag; reserved = reserved; unreachable_dst_seq_no = entries }, b)

-- The number of bytes read, the header and the buffer after it.
unfoldable pub deserialize : (List ℕ → ℕ) → ByteBuffer → Result (ℕ × RerrHeader × ByteBuffer)
deserialize byte2int b = do (h, b') ← read_fields byte2int b; ok (position b' - position b, h, b')

unfoldable pub set_no_delete : Bool → RerrHeader → RerrHeader
set_no_delete f h = record h { flag = set_bit 7 f h.flag }

unfoldable pub get_no_delete : RerrHeader → Bool
get_no_delete h = get_bit 7 h.flag

-- `AddUnDestination`, which compares the count as a byte.
unfoldable pub add_un_destination : Option Ipv4Address → ℕ → RerrHeader → Result (Bool × RerrHeader)
add_un_destination dst seq_no h =
    if contains_key dst h.unreachable_dst_seq_no
    then ok (true, h)
    else if int_lt (byte_to_int (dest_count h)) 255
    then ok
        (true, record h { unreachable_dst_seq_no = put_entry dst seq_no h.unreachable_dst_seq_no })
    else fault Fault.runtime_error

unfoldable pub remove_un_destination : Option Ipv4Address → ℕ → RerrHeader → Bool × RerrHeader
remove_un_destination un_address un h =
    if length h.unreachable_dst_seq_no == 0
    then (false, h)
    else let (removed, others) = remove_entry un_address un h.unreachable_dst_seq_no in
      (removed, record h { unreachable_dst_seq_no = others })

unfoldable pub clear : RerrHeader → RerrHeader
clear h = record { flag = 0; reserved = 0; unreachable_dst_seq_no = [] }

unfoldable pub equals : RerrHeader → RerrHeader → Bool
equals h g =
    if not (h.flag == g.flag)
      || not (h.reserved == g.reserved)
      || not (dest_count h == dest_count g)
    then false
    else length h.unreachable_dst_seq_no == length g.unreachable_dst_seq_no
      && all_found h.unreachable_dst_seq_no g.unreachable_dst_seq_no
