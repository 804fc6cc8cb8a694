-- ===== src/Inet/Ipv4Header/RoundTrip.antt =====
-- An IPv4 header that is written and read back.
use osak_ext_ns.Prelude.{
  ℕ, ◌+◌, ◌-◌, ◌*◌, ◌/◌, ◌%◌, ◌^◌, ◌≤◌, ◌<◌, ◌≡◌, refl, ap, ◌∙◌, arith, some, List, [], ◌∷◌, ◌++◌,
}
use osak_ext_ns.Result.{Result, ok, ◌>>=◌}
use osak_ext_ns.Bytes.{
  ByteBuffer, get, get_short, get_four, int_bytes, remaining, position, at_position, ipv4, IsByte,
  IsShort, IsInt,
}
use osak_ext_ns.Bytes.Laws.{
  Reads, get-Reads, get_four-Reads, get_short-Reads, bind-Reads, map-Reads, written, put_bytes_fits,
}
use osak_ext_ns.Bytes.RoundTrip.{
  IsBigEndian, byte2int-int_bytes, Writes, Parses, put_then, put_bytes_then, put_int_then,
  put_int_last, deref_then, short_bytes, Reads-Parses, sized, sized-Parses, bind-Parses, get-Parses,
  at_position-written,
}
use osak_ext_ns.Inet.Ipv4Header.{
  Ipv4Header, serialize, read_fields, deserialize, fragment_byte, read_flags, read_offset, eighth,
}
use osak_ext_ns.Inet.Ipv4Header.Fragments.{
  eighth_high, eighth_low, offset_read, read_flags-fragment_byte, read_offset-fragment_byte,
}

-- Fields of their Java types, both addresses set, the two defined flags only, an offset of 8 * k, and
-- the header size of a header without options.
pub record IsComplete (h : Ipv4Header) (source destination k : ℕ) : Type 0 where
  pub payload_size : IsShort h.payload_size
  pub identification : IsShort h.identification
  pub tos : IsByte h.tos
  pub ttl : IsByte h.ttl
  pub protocol : IsByte h.protocol
  pub flags : h.flags < 4
  pub offset_units : k < 8192
  pub fragment_offset : h.fragment_offset ≡ 8 * k
  pub source_address : IsInt source
  pub source_set : h.source ≡ some (ipv4 source)
  pub destination_address : IsInt destination
  pub destination_set : h.destination ≡ some (ipv4 destination)
  pub header_size : h.header_size ≡ 20

abbrev tail : Ipv4Header → ℕ → ℕ → List ℕ
tail h source destination =
    h.tos
    ∷ (short_bytes ((h.payload_size + h.header_size) % 2 ^ 16)
        ++ (short_bytes h.identification
            ++ (fragment_byte h.flags (eighth h.fragment_offset / 256 % 32)
                ∷ (eighth h.fragment_offset % 256
                    ∷ (h.ttl
                        ∷ (h.protocol
                            ∷ (short_bytes 0 ++ (int_bytes source ++ int_bytes destination))))))))

serialize-Writes :
    (h : Ipv4Header) (source destination k : ℕ)
    → IsComplete h source destination k
    → Writes (0x45 ∷ tail h source destination) (serialize h)
unfolding serialize
serialize-Writes h source destination k c = put_then _ (
    put_then _ (
      put_bytes_then _ (
        put_bytes_then _ (
          put_then _ (
            put_then _ (
              put_then _ (
                put_then _ (
                  put_bytes_then _ (
                    deref_then _ c.source_set
                      (put_int_then _ (deref_then _ c.destination_set (put_int_last _))))))))))))

read_fields-Reads :
    (byte2int : List ℕ → ℕ) (old : Ipv4Header) (n : ℕ) → Reads 19 (read_fields byte2int old n)
unfolding read_fields
read_fields-Reads byte2int old n = bind-Reads get-Reads (λ tos. bind-Reads get_short-Reads (λ size.
    bind-Reads get_short-Reads (λ id. bind-Reads get-Reads (λ x. bind-Reads get-Reads (λ low.
      bind-Reads get-Reads (λ ttl. bind-Reads get-Reads (λ protocol.
        bind-Reads get_short-Reads
          (λ checksum. bind-Reads get_four-Reads (λ source. map-Reads _ get_four-Reads)))))))))

-- What is read back of `h` into a header that was `old`.
abbrev pub received : Ipv4Header → Ipv4Header → ℕ → Ipv4Header
received old h k = record h {
  calc_checksum = old.calc_checksum;
  good_checksum = old.good_checksum;
  checksum = 0;
  fragment_offset = offset_read k;
}

abbrev raw_short : ℕ → ℕ
raw_short n = n / 2 ^ 8 % 256 * 2 ^ 8 + n % 256

abbrev raw_byte : Ipv4Header → ℕ
raw_byte h = fragment_byte h.flags (eighth h.fragment_offset / 256 % 32)

abbrev raw : (List ℕ → ℕ) → Ipv4Header → Ipv4Header → ℕ → ℕ → Ipv4Header
raw byte2int old h source destination = record {
  calc_checksum = old.calc_checksum;
  payload_size = (raw_short ((h.payload_size + h.header_size) % 2 ^ 16) + 2 ^ 16 - 20) % 2 ^ 16;
  identification = raw_short h.identification;
  tos = h.tos;
  ttl = h.ttl;
  protocol = h.protocol;
  flags = read_flags (raw_byte h);
  fragment_offset = read_offset (raw_byte h) (eighth h.fragment_offset % 256);
  source = some (ipv4 (byte2int (int_bytes source)));
  destination = some (ipv4 (byte2int (int_bytes destination)));
  checksum = 0;
  good_checksum = old.good_checksum;
  header_size = 20;
}

raw_payload :
    (n m : ℕ) → IsShort n → m ≡ 20 → (raw_short ((n + m) % 2 ^ 16) + 2 ^ 16 - 20) % 2 ^ 16 ≡ n
raw_payload n m h e = omega arith

raw_short_lem : (n : ℕ) → IsShort n → raw_short n ≡ n
raw_short_lem n h = omega arith

module _ (h : Ipv4Header) (source destination k : ℕ) (c : IsComplete h source destination k) where
  high : eighth h.fragment_offset / 256 % 32 ≡ k / 256
  high = ap (λ n. eighth n / 256 % 32) c.fragment_offset ∙ eighth_high k c.offset_units

  low : eighth h.fragment_offset % 256 ≡ k % 256
  low = ap (λ n. eighth n % 256) c.fragment_offset ∙ eighth_low k c.offset_units

  raw_flags : read_flags (raw_byte h) ≡ h.flags
  raw_flags =
      ap (λ n. read_flags (fragment_byte h.flags n)) high
      ∙ (read_flags-fragment_byte h.flags (k / 256) c.flags (omega (arith, c.offset_units))).0

  raw_offset : read_offset (raw_byte h) (eighth h.fragment_offset % 256) ≡ offset_read k
  raw_offset =
      ap (λ n. read_offset (fragment_byte h.flags n) (eighth h.fragment_offset % 256)) high
      ∙ ap (λ n. read_offset (fragment_byte h.flags (k / 256)) n) low
      ∙ read_offset-fragment_byte h.flags k c.flags c.offset_units

  raw-received :
      (byte2int : List ℕ → ℕ) (old : Ipv4Header)
      → IsBigEndian byte2int
      → raw byte2int old h source destination ≡ received old h k
  raw-received byte2int old big = cc (
    raw_payload h.payload_size h.header_size c.payload_size c.header_size,
    raw_short_lem h.identification c.identification,
    raw_flags,
    raw_offset,
    byte2int-int_bytes byte2int source big c.source_address,
    byte2int-int_bytes byte2int destination big c.destination_address,
    c.source_set,
    c.destination_set,
    c.header_size,
  )

read_fields-tail :
    (byte2int : List ℕ → ℕ) (old h : Ipv4Header) (source destination : ℕ) (p s : List ℕ)
    → (b' : ByteBuffer) × (read_fields byte2int old 20
          (record { before = p; after = tail h source destination ++ s })
        ≡ ok (raw byte2int old h source destination, b'))
unfolding read_fields get get_short get_four ◌>>=◌
read_fields-tail byte2int old h source destination p s = (_, refl)

-- The whole reader, on a header of this version.
abbrev read_all : (List ℕ → ℕ) → Ipv4Header → ByteBuffer → Result (Ipv4Header × ByteBuffer)
read_all byte2int old b = get b >>= (λ (x, c). read_fields byte2int old 20 c)

deserialize-sized :
    (byte2int : List ℕ → ℕ) (old : Ipv4Header) (p r : List ℕ)
    → deserialize byte2int old (record { before = p; after = 0x45 ∷ r })
      ≡ sized (read_all byte2int old) (record { before = p; after = 0x45 ∷ r })
unfolding deserialize get ◌>>=◌
deserialize-sized byte2int old p r = refl

-- An IPv4 header (fields that fit their Java types, both addresses set, no options, the two fragment
-- flags only, a fragment offset of 8 * k) is written into a buffer with room for 20 bytes, and read
-- back from where it began into a header that was `old`: the same header, in 20 bytes, with the
-- buffer at the same position, but for the checksum (0), the two checksum settings (old's), and the
-- fragment offset: it is the same if k % 256 is below 128, and else 63488 + 8 * (k % 256).
-- Helper.byte2int is taken to read network order.
pub deserialize-serialize_ipv4 :
    (byte2int : List ℕ → ℕ) (old h : Ipv4Header) (source destination k : ℕ) (b : ByteBuffer)
    → IsBigEndian byte2int
    → IsComplete h source destination k
    → 20 ≤ remaining b
    → (b' : ByteBuffer) × (serialize h b ≡ ok b')
      × (deserialize byte2int old (at_position (position b) b') ≡ ok (20, received old h k, b'))
deserialize-serialize_ipv4 byte2int old h source destination k b big c room =
    let xs = tail h source destination in
    let parses : Parses xs (received old h k) (read_fields byte2int old 20) =
      Reads-Parses xs (received old h k) (read_fields-Reads byte2int old 20) refl (λ p s.
        let (b', e) = read_fields-tail byte2int old h source destination p s in
        (b', e ∙ ap (λ v. ok (v, b')) (raw-received h source destination k c byte2int old big))) in
    let whole = 0x45 ∷ xs in
    let all : Parses whole (received old h k) (read_all byte2int old) =
      bind-Parses (0x45 ∷ []) xs 0x45 (received old h k) get (λ x b. read_fields byte2int old 20 b)
        (get-Parses 0x45) parses in
    (
      written whole b,
      (serialize-Writes h source destination k c).writes b ∙ put_bytes_fits whole b room,
      ap (deserialize byte2int old) (at_position-written whole b)
          ∙ deserialize-sized byte2int old b.before _
          ∙ sized-Parses all b.before _,
    )
