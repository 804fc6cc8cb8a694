-- ===== src/Inet/ArpHeader/Unset.antt =====
-- Reading into a new ARP header, whose fields are null, as ArpL3Protocol does
-- (java/main/osak/ext/ns3/internet/ArpHeader.java).
use osak_ext_ns.Prelude.{
  ℕ, ◌+◌, ◌*◌, ◌%◌, ◌≤◌, ◌≡◌, ap, ◌∙◌, refl, arith, none, List, [], ◌∷◌, ◌++◌,
}
use osak_ext_ns.Result.{Result, ok, fault, Fault, ◌>>=◌, deref, bind_ok, bind_fault}
use osak_ext_ns.Bytes.{ByteBuffer, get_short, get_bytes, remaining, position, at_position}
use osak_ext_ns.Bytes.Laws.{written, put_bytes_fits}
use osak_ext_ns.Bytes.RoundTrip.{
  Parses, short_bytes, get_short-Parses, get_bytes-Parses, at_position-written,
}
use osak_ext_ns.Inet.ArpHeader.{
  empty_arp_header, len, operation, serialize, read_fields, deserialize,
}
use osak_ext_ns.Inet.ArpHeader.RoundTrip.{
  Contents, header_with, IsComplete, tail, message, read_all, deserialize-sized, length-message,
  array_size-short, operation-IsShort, serialize-Writes,
}
use mathlib.Core.List.{append_assoc}

-- A reader that ends in a fault on the bytes `xs`.
record Fails {A : Type 0} (xs : List ℕ) (e : Fault) (read : ByteBuffer → Result A) : Type 0 where
  fails : (p s : List ℕ) → read (record { before = p; after = xs ++ s }) ≡ fault e

bind-Fails :
    {A B : Type 0} (xs ys : List ℕ) (v : A) {e : Fault}
    (read : ByteBuffer → Result (A × ByteBuffer)) (next : A → ByteBuffer → Result B)
    → Parses xs v read
    → Fails ys e (next v)
    → Fails (xs ++ ys) e (λ b. read b >>= (λ (x, c). next x c))
bind-Fails xs ys v read next r f = record {
  fails = λ p s. rw append_assoc (
      bind_ok (read (record { before = p; after = xs ++ (ys ++ s) })) _ (r.parses p (ys ++ s))
      ∙ f.fails (p ++ xs) s);
}

known-Fails :
    {A B : Type 0} {m : Result A} {a : A} {ys : List ℕ} {e : Fault}
    (next : A → ByteBuffer → Result B)
    → m ≡ ok a
    → Fails ys e (next a)
    → Fails ys e (λ b. m >>= (λ x. next x b))
known-Fails {m = m} next h f = record { fails = λ p s. bind_ok m _ h ∙ f.fails p s }

null-Fails :
    {A B : Type 0} (ys : List ℕ) (next : A → ByteBuffer → Result B)
    → Fails ys Fault.null_pointer (λ b. deref none >>= (λ x. next x b))
unfolding ◌>>=◌
null-Fails ys next = record { fails = λ p s. refl }

module _ (byte2int : List ℕ → ℕ) (h : Contents) (c : IsComplete h) where
  read_fields-Fails :
      Fails
        (tail h)
        Fault.null_pointer
        (read_fields byte2int empty_arp_header (len h.mac_source % 256))
  unfolding read_fields
  read_fields-Fails =
      bind-Fails (short_bytes (operation h.type)) _ _ get_short _
        (get_short-Parses _ (operation-IsShort h.type))
        (known-Fails _ (array_size-short (len h.mac_source) c.short_mac) (
          bind-Fails h.mac_source.bytes _ _ (get_bytes (len h.mac_source)) _
            (get_bytes-Parses h.mac_source.bytes) (null-Fails _ _)))

  read_all-Fails :
      Fails
        (message h)
        Fault.null_pointer
        (read_all byte2int empty_arp_header (len h.mac_source % 256))
  read_all-Fails =
      bind-Fails (short_bytes 1 ++ (short_bytes 0x800 ++ (len h.mac_source % 256 ∷ (4 ∷ []))))
        (tail h) _ (get_bytes 6)
        (λ x b. read_fields byte2int empty_arp_header (len h.mac_source % 256) b)
        (get_bytes-Parses _) read_fields-Fails

-- What Serialize writes of a header without a null field, with two hardware addresses of one length n,
-- up to 20, and initialised IPv4 addresses, into a buffer with room for 16 + 2 * n bytes, cannot be
-- read into a new header: Deserialize from where it began throws a NullPointerException.
pub deserialize_into_new :
    (byte2int : List ℕ → ℕ) (h : Contents) (b : ByteBuffer)
    → IsComplete h
    → 16 + 2 * len h.mac_source ≤ remaining b
    → (b' : ByteBuffer) × (serialize (header_with h) b ≡ ok b')
      × (deserialize byte2int empty_arp_header (at_position (position b) b')
          ≡ fault Fault.null_pointer)
deserialize_into_new byte2int h b c room =
    let n = len h.mac_source % 256 in
    let xs = message h in
    (
      written xs b,
      (serialize-Writes h c).writes b ∙ put_bytes_fits xs b (omega (arith, length-message h, room)),
      ap (deserialize byte2int empty_arp_header) (at_position-written xs b)
          ∙ deserialize-sized byte2int empty_arp_header n b.before _
          ∙ bind_fault _ _ ((read_all-Fails byte2int h c).fails b.before _),
    )
