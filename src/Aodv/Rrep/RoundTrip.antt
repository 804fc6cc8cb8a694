-- ===== src/Aodv/Rrep/RoundTrip.antt =====
-- Laws of the route reply: what it writes and reads.
use osak_ext_ns.Prelude.{ℕ, ◌≤◌, ◌<◌, ◌≡◌, refl, ap, ◌∙◌, some, List, ◌∷◌, ◌++◌}
use osak_ext_ns.Result.{ok, fault, Fault, ◌>>=◌}
use osak_ext_ns.Bytes.{
  ByteBuffer, get, get_int, get_four, int_bytes, int_of, remaining, position, at_position, ipv4,
  IsByte, IsInt,
}
use osak_ext_ns.Bytes.Laws.{
  Reads, get-Reads, get_four-Reads, get_int-Reads, bind-Reads, map-Reads, advanced, put_bytes_short,
  int_of-int_bytes,
}
use osak_ext_ns.Bytes.RoundTrip.{
  IsBigEndian, byte2int-int_bytes, Writes, put_then, put_int_then, put_int_last, deref_then,
  round_trip, Reads-Parses, sized-underflow, sized-enough,
}
use osak_ext_ns.Aodv.Rrep.{RrepHeader, serialize, read_fields, deserialize}

-- Fields of their Java types, and the two addresses set.
pub record IsComplete (h : RrepHeader) (dst origin : ℕ) : Type 0 where
  pub flags : IsByte h.flags
  pub prefix_size : IsByte h.prefix_size
  pub hop_count : IsByte h.hop_count
  pub dst_address : IsInt dst
  pub dst_set : h.dst ≡ some (ipv4 dst)
  pub dst_seq_no : IsInt h.dst_seq_no
  pub origin_address : IsInt origin
  pub origin_set : h.origin ≡ some (ipv4 origin)
  pub life_time : IsInt h.life_time

abbrev message : RrepHeader → ℕ → ℕ → List ℕ
message h dst origin =
    h.flags
    ∷ (h.prefix_size
        ∷ (h.hop_count
            ∷ (int_bytes dst
                ++ (int_bytes h.dst_seq_no ++ (int_bytes origin ++ int_bytes h.life_time)))))

serialize-Writes :
    (h : RrepHeader) (dst origin : ℕ)
    → IsComplete h dst origin
    → Writes (message h dst origin) (serialize h)
unfolding serialize
serialize-Writes h dst origin c = put_then _ (
    put_then _ (
      put_then _ (
        deref_then _ c.dst_set (
          put_int_then _
            (put_int_then _ (deref_then _ c.origin_set (put_int_then _ (put_int_last _))))))))

read_fields-Reads : (byte2int : List ℕ → ℕ) → Reads 19 (read_fields byte2int)
unfolding read_fields
read_fields-Reads byte2int = bind-Reads get-Reads (λ flags. bind-Reads get-Reads (λ prefix_size.
    bind-Reads get-Reads (λ hops. bind-Reads get_four-Reads (λ dst.
      bind-Reads get_int-Reads
        (λ seq. bind-Reads get_four-Reads (λ origin. map-Reads _ get_int-Reads))))))

abbrev received : (List ℕ → ℕ) → RrepHeader → ℕ → ℕ → RrepHeader
received byte2int h dst origin = record {
  flags = h.flags;
  prefix_size = h.prefix_size;
  hop_count = h.hop_count;
  dst = some (ipv4 (byte2int (int_bytes dst)));
  dst_seq_no = int_of (int_bytes h.dst_seq_no);
  origin = some (ipv4 (byte2int (int_bytes origin)));
  life_time = int_of (int_bytes h.life_time);
}

received_lem :
    (byte2int : List ℕ → ℕ) (h : RrepHeader) (dst origin : ℕ)
    → IsBigEndian byte2int
    → IsComplete h dst origin
    → received byte2int h dst origin ≡ h
received_lem byte2int h dst origin big c = cc (
  int_of-int_bytes h.dst_seq_no c.dst_seq_no,
  int_of-int_bytes h.life_time c.life_time,
  byte2int-int_bytes byte2int dst big c.dst_address,
  byte2int-int_bytes byte2int origin big c.origin_address,
  c.dst_set,
  c.origin_set,
)

read_fields-message :
    (byte2int : List ℕ → ℕ) (h : RrepHeader) (dst origin : ℕ) (p s : List ℕ)
    → (b' : ByteBuffer) × (read_fields byte2int
          (record { before = p; after = message h dst origin ++ s })
        ≡ ok (received byte2int h dst origin, b'))
unfolding read_fields get get_int get_four ◌>>=◌
read_fields-message byte2int h dst origin p s = (_, refl)

-- A route reply with both addresses set, and fields that fit their Java types, is written into a
-- buffer with room for 19 bytes; read back from where it began, it is the same reply, in 19 bytes,
-- and the buffer is at the same position. Helper.byte2int is taken to read network order.
pub deserialize-serialize_reply :
    (byte2int : List ℕ → ℕ) (h : RrepHeader) (dst origin : ℕ) (b : ByteBuffer)
    → IsBigEndian byte2int
    → IsComplete h dst origin
    → 19 ≤ remaining b
    → (b' : ByteBuffer) × (serialize h b ≡ ok b')
      × (deserialize byte2int (at_position (position b) b') ≡ ok (19, h, b'))
unfolding deserialize
deserialize-serialize_reply byte2int h dst origin b big c room =
    round_trip
      (Reads-Parses (message h dst origin) h (read_fields-Reads byte2int) refl (λ p s.
        let (b', e) = read_fields-message byte2int h dst origin p s in
        (b', e ∙ ap (λ v. ok (v, b')) (received_lem byte2int h dst origin big c))))
      (serialize-Writes h dst origin c) b room

-- With 19 bytes left, reading a route reply consumes exactly 19 and reports 19, whatever they are.
pub deserialize_reply-advanced :
    (byte2int : List ℕ → ℕ) (b : ByteBuffer)
    → 19 ≤ remaining b
    → (h : RrepHeader) × (deserialize byte2int b ≡ ok (19, h, advanced 19 b))
unfolding deserialize
deserialize_reply-advanced byte2int b h = sized-enough (read_fields-Reads byte2int) b h

-- With fewer than 19 bytes between position and limit, writing a route reply (both addresses set,
-- fields that fit their Java types) ends in a BufferOverflowException, and reading one in a
-- BufferUnderflowException.
pub reply_short :
    (byte2int : List ℕ → ℕ) (h : RrepHeader) (dst origin : ℕ) (b : ByteBuffer)
    → IsComplete h dst origin
    → remaining b < 19
    → (serialize h b ≡ fault Fault.buffer_overflow)
      × (deserialize byte2int b ≡ fault Fault.buffer_underflow)
unfolding deserialize
reply_short byte2int h dst origin b c short = (
  (serialize-Writes h dst origin c).writes b ∙ put_bytes_short _ b short,
  sized-underflow (read_fields-Reads byte2int) b short,
)
