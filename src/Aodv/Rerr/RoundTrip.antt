-- ===== src/Aodv/Rerr/RoundTrip.antt =====
-- Laws of the route error: what it writes and reads, for any number of destinations.
use osak_ext_ns.Prelude.{
  ℕ, suc, ◌+◌, ◌*◌, ◌%◌, ◌≤◌, ◌≡◌, refl, sym, ap, subst, ◌∙◌, arith, Bool, true, false, not, ◌&&◌,
  ◌||◌, Option, some, List, [], ◌∷◌, ◌++◌, length, All, ◌==◌,
}
use osak_ext_ns.Result.{ok}
use osak_ext_ns.Bytes.{
  ByteBuffer, put_bytes, get, get_int, get_four, int_bytes, remaining, position, at_position, ipv4,
  Ipv4Address, address_equals, IsByte, IsInt,
}
use osak_ext_ns.Bytes.Laws.{written, put_bytes_fits}
use osak_ext_ns.Bytes.RoundTrip.{
  IsBigEndian, byte2int-int_bytes, Writes, Parses, put_then, put_int_then, deref_then, round_trip,
  bind-Parses, map-Parses, ok-Parses, at_position-written, sized-Parses, sized, get-Parses,
  get_int-Parses, get_four-Parses,
}
use osak_ext_ns.Aodv.AddressMap.{Entry, find, put_entry}
use osak_ext_ns.Aodv.Rerr.{
  RerrHeader, serialize_entries, serialize, read_entries, read_fields, deserialize, rounds,
  dest_count, serialized_size,
}
use mathlib.Core.List.{append_assoc, append-nil}

-- Destinations by address, each with a sequence number.
abbrev pub entries : List (ℕ × ℕ) → List Entry
entries [] = []
entries ((a, n) ∷ ps) = (some (ipv4 a), n) ∷ entries ps

abbrev pub entry_bytes : List (ℕ × ℕ) → List ℕ
entry_bytes [] = []
entry_bytes ((a, n) ∷ ps) = int_bytes a ++ (int_bytes n ++ entry_bytes ps)

abbrev pub has : ℕ → List (ℕ × ℕ) → Bool
has a [] = false
has a ((b, n) ∷ ps) = b == a || has a ps

abbrev pub distinct : List (ℕ × ℕ) → Bool
distinct [] = true
distinct ((a, n) ∷ ps) = not (has a ps) && distinct ps

abbrev pub AreInts : List (ℕ × ℕ) → Type 0
AreInts ps = All (λ p. IsInt p.0 × IsInt p.1) ps

-- A route error whose map holds `ps`, with distinct addresses.
pub record IsComplete (h : RerrHeader) (ps : List (ℕ × ℕ)) : Type 0 where
  pub flag : IsByte h.flag
  pub reserved : IsByte h.reserved
  pub destinations : h.unreachable_dst_seq_no ≡ entries ps
  pub ints : AreInts ps
  pub keys : distinct ps ≡ true

serialize_entries-Writes :
    (ps : List (ℕ × ℕ)) → Writes (entry_bytes ps) (serialize_entries (entries ps))
unfolding serialize_entries put_bytes
serialize_entries-Writes [] = record { writes = λ b. refl }
serialize_entries-Writes ((a, n) ∷ ps) =
    deref_then _ refl (put_int_then a (put_int_then n (serialize_entries-Writes ps)))

put_entry-entries :
    (a n : ℕ) (qs : List (ℕ × ℕ))
    → has a qs ≡ false
    → put_entry (some (ipv4 a)) n (entries qs) ≡ entries (qs ++ ((a, n) ∷ []))
unfolding put_entry address_equals
put_entry-entries a n [] h = refl
put_entry-entries a n ((b, m) ∷ qs) h = ground (arith, put_entry-entries a n qs)

distinct-has :
    (a n : ℕ) (qs ps : List (ℕ × ℕ)) → distinct (qs ++ ((a, n) ∷ ps)) ≡ true → has a qs ≡ false
distinct-has a n [] ps h = refl
distinct-has a n ((b, m) ∷ qs) ps h = ground (arith, distinct-has a n qs ps, has-append b a n qs ps)
  where
    has-append :
        (b a n : ℕ) (qs ps : List (ℕ × ℕ)) → has b (qs ++ ((a, n) ∷ ps)) ≡ false → (a == b) ≡ false
    has-append b a n [] ps h = ground arith
    has-append b a n ((c, k) ∷ qs) ps h = ground (arith, has-append b a n qs ps)

module _ (byte2int : List ℕ → ℕ) (big : IsBigEndian byte2int) where
  read_entries-Parses :
      (qs ps : List (ℕ × ℕ))
      → distinct (qs ++ ps) ≡ true
      → AreInts ps
      → Parses
          (entry_bytes ps)
          (entries (qs ++ ps))
          (read_entries byte2int (length ps) (entries qs))
  unfolding read_entries
  read_entries-Parses qs [] d i = rw (append-nil qs) (ok-Parses (entries qs))
  read_entries-Parses qs ((a, n) ∷ ps) d ((ia, im), i) =
      bind-Parses (int_bytes a) _ (int_bytes a) _ get_four _ (get_four-Parses a) (
        bind-Parses (int_bytes n) (entry_bytes ps) n _ get_int _ (get_int-Parses n im) (
          tail (
            read_entries-Parses (qs ++ ((a, n) ∷ [])) ps (rw (append_assoc qs ((a, n) ∷ []) ps) d)
              i)))
    where
      next :
          put_entry (some (ipv4 (byte2int (int_bytes a)))) n (entries qs)
          ≡ entries (qs ++ ((a, n) ∷ []))
      next =
          rw (byte2int-int_bytes byte2int a big ia)
            (put_entry-entries a n qs (distinct-has a n qs ps d))

      moved : (qs ++ ((a, n) ∷ [])) ++ ps ≡ qs ++ ((a, n) ∷ ps)
      moved = append_assoc qs ((a, n) ∷ []) ps

      tail :
          Parses
            (entry_bytes ps)
            (entries ((qs ++ ((a, n) ∷ [])) ++ ps))
            (read_entries byte2int (length ps) (entries (qs ++ ((a, n) ∷ []))))
          → Parses (entry_bytes ps) (entries (qs ++ ((a, n) ∷ ps))) (λ b.
            read_entries byte2int
              (length ps)
              (put_entry (some (ipv4 (byte2int (int_bytes a)))) n (entries qs))
              b)
      tail rest = rw (next, sym moved) rest

length-entries : (ps : List (ℕ × ℕ)) → length (entries ps) ≡ length ps
length-entries [] = refl
length-entries ((a, n) ∷ ps) = ap suc (length-entries ps)

length-entry_bytes : (ps : List (ℕ × ℕ)) → length (entry_bytes ps) ≡ 8 * length ps
length-entry_bytes [] = refl
length-entry_bytes ((a, n) ∷ ps) = omega (arith, length-entry_bytes ps)

abbrev message : RerrHeader → List (ℕ × ℕ) → List ℕ
message h ps = h.flag ∷ (h.reserved ∷ (dest_count h ∷ entry_bytes ps))

length-rounds : (n : ℕ) → n ≤ 127 → rounds (n % 256) ≡ n
length-rounds n h = ground arith

small_size :
    (ps : List (ℕ × ℕ)) (h : RerrHeader)
    → length ps ≤ 127
    → length h.unreachable_dst_seq_no ≡ length ps
    → serialized_size h ≡ 3 + 8 * length ps
unfolding serialized_size
small_size ps h few e = ground (arith, few)

no_rounds : (n : ℕ) → 128 ≤ n → n ≤ 255 → rounds (n % 256) ≡ 0
no_rounds n h k = ground arith

module _ (h : RerrHeader) (ps : List (ℕ × ℕ)) (c : IsComplete h ps) where
  serialize-Writes : Writes (message h ps) (serialize h)
  unfolding serialize
  serialize-Writes = put_then _ (
      put_then _ (
        put_then _ (
          subst (λ es. Writes (entry_bytes ps) (serialize_entries es)) (sym c.destinations)
            (serialize_entries-Writes ps))))

  size : length h.unreachable_dst_seq_no ≡ length ps
  size = ap length c.destinations ∙ length-entries ps

  -- The fields that are read when the loop reads `es` from the bytes `xs`.
  read_fields-Parses :
      (byte2int : List ℕ → ℕ) (xs : List ℕ) (es : List Entry)
      → Parses xs es (read_entries byte2int (rounds (dest_count h)) [])
      → Parses
          (h.flag ∷ (h.reserved ∷ (dest_count h ∷ xs)))
          (record { flag = h.flag; reserved = h.reserved; unreachable_dst_seq_no = es })
          (read_fields byte2int)
  unfolding read_fields
  read_fields-Parses byte2int xs es r = bind-Parses (h.flag ∷ []) _ _ _ get _ (get-Parses h.flag) (
      bind-Parses (h.reserved ∷ []) _ _ _ get _ (get-Parses h.reserved) (
        bind-Parses (dest_count h ∷ []) xs _ _ get _ (get-Parses (dest_count h)) (
          map-Parses
            (λ entries. record {
              flag = h.flag;
              reserved = h.reserved;
              unreachable_dst_seq_no = entries;
            })
            r)))

-- A route error for at most 127 destinations, of distinct addresses and with fields that fit their
-- Java types, has a serialized size of 3 bytes and 8 for each; it is written into a buffer with that
-- much room, and read back from where it began it has the same flag, the same reserved byte and the
-- same sequence number for every destination, and the buffer is at the same position.
-- Helper.byte2int is taken to read network order.
pub deserialize-serialize_error :
    (byte2int : List ℕ → ℕ) (h : RerrHeader) (ps : List (ℕ × ℕ)) (b : ByteBuffer)
    → IsBigEndian byte2int
    → IsComplete h ps
    → length ps ≤ 127
    → 3 + 8 * length ps ≤ remaining b
    → (b' : ByteBuffer) × (g : RerrHeader) × (serialized_size h ≡ 3 + 8 * length ps)
      × (serialize h b ≡ ok b')
      × (deserialize byte2int (at_position (position b) b') ≡ ok (3 + 8 * length ps, g, b'))
      × (g.flag ≡ h.flag)
      × (g.reserved ≡ h.reserved)
      × ((key : Option Ipv4Address)
          → find key g.unreachable_dst_seq_no ≡ find key h.unreachable_dst_seq_no)
unfolding deserialize serialized_size
deserialize-serialize_error byte2int h ps b big c few room =
    let received : RerrHeader = record {
      flag = h.flag;
      reserved = h.reserved;
      unreachable_dst_seq_no = entries ps;
    } in
    let (b', w, r) =
      round_trip
        (read_fields-Parses h ps c byte2int (entry_bytes ps) (entries ps) (
          subst (λ n. Parses (entry_bytes ps) (entries ps) (read_entries byte2int n []))
            (sym (ap (λ n. rounds (n % 256)) (size h ps c) ∙ length-rounds _ few))
            (read_entries-Parses byte2int big [] ps c.keys c.ints)))
        (serialize-Writes h ps c) b (omega (arith, length-entry_bytes ps, room)) in
    (
      b',
      received,
      small_size ps h few (size h ps c),
      w,
      r ∙ ap (λ n. ok (n, received, b')) (omega (arith, length-entry_bytes ps)),
      refl,
      refl,
      λ key. ap (find key) (sym c.destinations),
    )

-- A route error for 128 to 255 destinations (of distinct addresses, with fields that fit their Java
-- types) is written, when the buffer has room for all of it; but read back from where it began, it
-- has no destination, and 3 bytes are consumed: the count is negative as a Java byte.
pub error_lost :
    (byte2int : List ℕ → ℕ) (h : RerrHeader) (ps : List (ℕ × ℕ)) (b : ByteBuffer)
    → IsComplete h ps
    → 128 ≤ length ps
    → length ps ≤ 255
    → 3 + 8 * length ps ≤ remaining b
    → (b' c : ByteBuffer) × (serialize h b ≡ ok b')
      × (deserialize byte2int (at_position (position b) b')
          ≡ ok (3, record { flag = h.flag; reserved = h.reserved; unreachable_dst_seq_no = [] }, c))
unfolding deserialize read_entries
error_lost byte2int h ps b c many most room =
    let xs = message h ps in
    let r = read_fields-Parses h ps c byte2int [] [] (
      subst (λ n. Parses [] [] (read_entries byte2int n []))
        (sym (ap (λ n. rounds (n % 256)) (size h ps c) ∙ no_rounds _ many most)) (ok-Parses [])) in
    (
      written xs b,
      _,
      (serialize-Writes h ps c).writes b
          ∙ put_bytes_fits xs b (omega (arith, length-entry_bytes ps, room)),
      ap (sized (read_fields byte2int)) (at_position-written xs b) ∙ sized-Parses r b.before _,
    )
