-- ===== src/Examples/Headers.antt =====
-- Runs of the Java headers: messages that are written into a small buffer and read back.
use osak_ext_ns.Prelude.{
  ℕ, zero, suc, ◌≤◌, ◌<◌, ◌≡◌, refl, arith, true, false, Option, some, List, [], ◌∷◌, replicate,
}
use osak_ext_ns.Result.{ok, fault, Fault}
use osak_ext_ns.Bytes.{ByteBuffer, at_position, int_of, ipv4, Ipv4Address}
use osak_ext_ns.Bytes.RoundTrip.{IsBigEndian}
use osak_ext_ns.Aodv.AddressMap.{find}
use osak_ext_ns.Aodv.Rreq.{RreqHeader, serialize, deserialize}
use osak_ext_ns.Aodv.Rreq.RoundTrip as RequestLaws
use osak_ext_ns.Aodv.Rreq.RoundTrip.{deserialize-serialize_request, request_short}
use osak_ext_ns.Aodv.Rerr
use osak_ext_ns.Aodv.Rerr.{RerrHeader, serialized_size, add_un_destination}
use osak_ext_ns.Aodv.Rerr.RoundTrip as ErrorLaws
use osak_ext_ns.Aodv.Rerr.RoundTrip.{
  entries, has, distinct, AreInts, deserialize-serialize_error, error_lost,
}
use osak_ext_ns.Inet.Ipv4Header
use osak_ext_ns.Inet.Ipv4Header.{Ipv4Header, empty_header}
use osak_ext_ns.Inet.Ipv4Header.RoundTrip as Ipv4Laws
use osak_ext_ns.Inet.Ipv4Header.RoundTrip.{received, deserialize-serialize_ipv4}
use osak_ext_ns.Inet.ArpHeader
use osak_ext_ns.Inet.ArpHeader.{Address, len, arp_type_request, empty_arp_header}
use osak_ext_ns.Inet.ArpHeader.RoundTrip as ArpLaws
use osak_ext_ns.Inet.ArpHeader.RoundTrip.{Contents, header_with}
use osak_ext_ns.Inet.ArpHeader.Unset.{deserialize_into_new}

big_endian : IsBigEndian int_of
big_endian w x y z a b c d = refl

-- One byte passed, and room for `n`.
abbrev space : ℕ → ByteBuffer
space n = record { before = 7 ∷ []; after = replicate n 0 }

abbrev request : RreqHeader
request = record {
  flags = 0x28;
  reserved = 0;
  hop_count = 3;
  request_id = 70_000;
  dst = some (ipv4 0xc0a8_0102);
  dst_seq_no = 5;
  origin = some (ipv4 0x0a00_0001);
  origin_seq_no = 0xffff_ffff;
}

request-IsComplete : RequestLaws.IsComplete request 0xc0a8_0102 0x0a00_0001
request-IsComplete = record {
  flags = omega arith;
  reserved = omega arith;
  hop_count = omega arith;
  request_id = omega arith;
  dst_address = omega arith;
  dst_set = refl;
  dst_seq_no = omega arith;
  origin_address = omega arith;
  origin_set = refl;
  origin_seq_no = omega arith;
}

deserialize-serialize_request_example :
    (b' : ByteBuffer) × (serialize request (space 24) ≡ ok b')
    × (deserialize int_of (at_position 1 b') ≡ ok (23, request, b'))
deserialize-serialize_request_example =
    deserialize-serialize_request int_of request 0xc0a8_0102 0x0a00_0001 (space 24) big_endian
      request-IsComplete (omega arith)

request_short_example :
    (serialize request (space 22) ≡ fault Fault.buffer_overflow)
    × (deserialize int_of (space 22) ≡ fault Fault.buffer_underflow)
request_short_example =
    request_short int_of request 0xc0a8_0102 0x0a00_0001 (space 22) request-IsComplete (omega arith)

abbrev error : List (ℕ × ℕ) → RerrHeader
error ps = record { flag = 128; reserved = 0; unreachable_dst_seq_no = entries ps }

abbrev two_destinations : List (ℕ × ℕ)
two_destinations = (0x0a00_0001, 9) ∷ ((0xc0a8_0102, 0xffff_ffff) ∷ [])

two_destinations-IsComplete : ErrorLaws.IsComplete (error two_destinations) two_destinations
two_destinations-IsComplete = record {
  flag = omega arith;
  reserved = omega arith;
  destinations = refl;
  ints = ((omega arith, omega arith), ((omega arith, omega arith), tt));
  keys = refl;
}

deserialize-serialize_error_example :
    (b' : ByteBuffer) × (g : RerrHeader) × (serialized_size (error two_destinations) ≡ 19)
    × (Rerr.serialize (error two_destinations) (space 20) ≡ ok b')
    × (Rerr.deserialize int_of (at_position 1 b') ≡ ok (19, g, b'))
    × (g.flag ≡ 128)
    × (g.reserved ≡ 0)
    × ((key : Option Ipv4Address)
        → find key g.unreachable_dst_seq_no ≡ find key (entries two_destinations))
deserialize-serialize_error_example =
    deserialize-serialize_error int_of (error two_destinations) two_destinations (space 20)
      big_endian two_destinations-IsComplete (omega arith) (omega arith)

-- Destinations 0 to n - 1.
abbrev many : ℕ → List (ℕ × ℕ)
many zero = []
many (suc n) = (n, 1) ∷ many n

many-has : (n a : ℕ) → n ≤ a → has a (many n) ≡ false
many-has zero a h = refl
many-has (suc n) a h = ground (arith, many-has n a (omega arith))

many-distinct : (n : ℕ) → distinct (many n) ≡ true
many-distinct zero = refl
many-distinct (suc n) = ground (arith, many-has n n (omega arith), many-distinct n)

many-AreInts : (n : ℕ) → n < 1000 → AreInts (many n)
many-AreInts zero h = tt
many-AreInts (suc n) h = ((omega arith, omega arith), many-AreInts n (omega arith))

many-IsComplete : ErrorLaws.IsComplete (error (many 130)) (many 130)
many-IsComplete = record {
  flag = omega arith;
  reserved = omega arith;
  destinations = refl;
  ints = many-AreInts 130 (omega arith);
  keys = many-distinct 130;
}

error_lost_example :
    (b' c : ByteBuffer) × (Rerr.serialize (error (many 130)) (space 1043) ≡ ok b')
    × (Rerr.deserialize int_of (at_position 1 b')
        ≡ ok (3, record { flag = 128; reserved = 0; unreachable_dst_seq_no = [] }, c))
error_lost_example =
    error_lost int_of (error (many 130)) (many 130) (space 1043) many-IsComplete (omega arith)
      (omega arith) (omega arith)

abbrev datagram : Ipv4Header
datagram = record empty_header {
  payload_size = 1000;
  identification = 77;
  ttl = 64;
  protocol = 17;
  flags = 2;
  fragment_offset = 1480;
  source = some (ipv4 0x0a00_0001);
  destination = some (ipv4 0xc0a8_0102);
}

datagram-IsComplete : Ipv4Laws.IsComplete datagram 0x0a00_0001 0xc0a8_0102 185
datagram-IsComplete = record {
  payload_size = omega arith;
  identification = omega arith;
  tos = omega arith;
  ttl = omega arith;
  protocol = omega arith;
  flags = omega arith;
  offset_units = omega arith;
  fragment_offset = refl;
  source_address = omega arith;
  source_set = refl;
  destination_address = omega arith;
  destination_set = refl;
  header_size = refl;
}

deserialize-serialize_ipv4_example :
    (b' : ByteBuffer) × (Ipv4Header.serialize datagram (space 20) ≡ ok b')
    × (Ipv4Header.deserialize int_of empty_header (at_position 1 b')
        ≡ ok (20, record datagram { fragment_offset = 64_968 }, b'))
deserialize-serialize_ipv4_example =
    deserialize-serialize_ipv4 int_of empty_header datagram 0x0a00_0001 0xc0a8_0102 185 (space 20)
      big_endian datagram-IsComplete (omega arith)

abbrev mac : ℕ → Address
mac n = record { type = 2; bytes = 2 ∷ (n ∷ []) }

abbrev query : Contents
query = record {
  type = arp_type_request;
  mac_source = mac 1;
  mac_dest = mac 9;
  ipv4_source = ipv4 0x0a00_0001;
  ipv4_dest = ipv4 0xc0a8_0102;
}

query-IsComplete : ArpLaws.IsComplete query
query-IsComplete = record {
  short_mac = omega arith;
  same_length = refl;
  source_address = omega arith;
  source_initialized = refl;
  dest_address = omega arith;
  dest_initialized = refl;
}

deserialize_into_new_example :
    (b' : ByteBuffer) × (ArpHeader.serialize (header_with query) (space 20) ≡ ok b')
    × (ArpHeader.deserialize int_of empty_arp_header (at_position 1 b') ≡ fault Fault.null_pointer)
deserialize_into_new_example =
    deserialize_into_new int_of query (space 20) query-IsComplete (omega arith)
