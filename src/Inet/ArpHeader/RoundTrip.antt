-- ===== src/Inet/ArpHeader/RoundTrip.antt =====
-- An ARP header that is written and read back.
use osak_ext_ns.Prelude.{
  ℕ, ◌+◌, ◌-◌, ◌*◌, ◌%◌, ◌≤◌, ◌≡◌, refl, ap, ◌∙◌, arith, true, false, some, List, ◌∷◌, ◌++◌, length,
  replicate, length-append, ltb,
}
use osak_ext_ns.Result.{Result, ok, ◌>>=◌, bind_ok}
use osak_ext_ns.Bytes.{
  ByteBuffer, get, get_short, get_bytes, int_bytes, ipv4, Ipv4Address, IsShort, IsInt,
}
use osak_ext_ns.Bytes.RoundTrip.{
  IsBigEndian, Writes, put_then, put_bytes_then, put_int_then, put_int_last, short_bytes, sized,
}
use osak_ext_ns.Inet.ArpHeader.{
  ArpHeader, ArpType, Address, len, copy_to, array_size, operation, read_type, arp_type_request,
  arp_type_reply, serialize, read_fields, deserialize,
}
use mathlib.Core.List.{append-nil}

-- What a header holds when no field is null, and that header.
pub record Contents : Type 0 where
  pub type : ArpType
  pub mac_source : Address
  pub mac_dest : Address
  pub ipv4_source : Ipv4Address
  pub ipv4_dest : Ipv4Address

abbrev pub header_with : Contents → ArpHeader
header_with h = record {
  type = some h.type;
  mac_source = some h.mac_source;
  mac_dest = some h.mac_dest;
  ipv4_source = some h.ipv4_source;
  ipv4_dest = some h.ipv4_dest;
}

-- Both hardware addresses of one length, up to 20, and initialised IPv4 addresses.
pub record IsComplete (h : Contents) : Type 0 where
  pub short_mac : len h.mac_source ≤ 20
  pub same_length : len h.mac_dest ≡ len h.mac_source
  pub source_address : IsInt h.ipv4_source.address
  pub source_initialized : h.ipv4_source.initialized ≡ true
  pub dest_address : IsInt h.ipv4_dest.address
  pub dest_initialized : h.ipv4_dest.initialized ≡ true

padding : (xs : List ℕ) (n : ℕ) → n ≡ 0 → xs ++ replicate n 0 ≡ xs
padding xs n e = ap (λ k. xs ++ replicate k 0) e ∙ append-nil xs

copy_to-len : (a : Address) (n : ℕ) → n ≡ len a → copy_to n a ≡ ok a.bytes
unfolding copy_to
copy_to-len a n e =
    let fits : ltb n (len a) ≡ false = ground arith in
    rw fits (ap ok (padding a.bytes (n - len a) (omega arith)))

pub array_size-short : (n : ℕ) → n ≤ 20 → array_size (n % 256) ≡ ok n
array_size-short n h = ground arith

known_Writes :
    {A : Type 0} {m : Result A} {a : A} {ys : List ℕ} (next : A → ByteBuffer → Result ByteBuffer)
    → m ≡ ok a
    → Writes ys (next a)
    → Writes ys (λ b. m >>= (λ x. next x b))
known_Writes {m = m} next e w = record { writes = λ b. bind_ok m _ e ∙ w.writes b }

abbrev pub tail : Contents → List ℕ
tail h =
    short_bytes (operation h.type)
    ++ (h.mac_source.bytes
        ++ (int_bytes h.ipv4_source.address
            ++ (h.mac_source.bytes ++ int_bytes h.ipv4_dest.address)))

abbrev pub message : Contents → List ℕ
message h = short_bytes 1 ++ (short_bytes 0x800 ++ (len h.mac_source % 256 ∷ (4 ∷ tail h)))

module _ (h : Contents) (c : IsComplete h) where
  pub serialize-Writes : Writes (message h) (serialize (header_with h))
  unfolding serialize
  serialize-Writes = put_bytes_then _ (
      put_bytes_then _ (
        known_Writes _ refl (
          put_then _ (
            put_then _ (
              known_Writes _ refl (
                put_bytes_then _ (
                  known_Writes _ (copy_to-len h.mac_source _ refl) (
                    put_bytes_then _ (
                      known_Writes _ refl (
                        put_int_then _ (
                          known_Writes _ refl (
                            known_Writes _ (copy_to-len h.mac_source _ c.same_length)
                              (put_bytes_then _ (known_Writes _ refl (put_int_last _)))))))))))))))

-- What is read back of `h` into a header that was `old`: the source's hardware address twice.
abbrev pub received : Contents → Contents → Contents
received old h = record h {
  mac_source = record old.mac_source { bytes = h.mac_source.bytes };
  mac_dest = record old.mac_dest { bytes = h.mac_source.bytes };
}

pub operation-IsShort : (t : ArpType) → IsShort (operation t)
operation-IsShort arp_type_request = omega arith
operation-IsShort arp_type_reply = omega arith

module _ (byte2int : List ℕ → ℕ) (big : IsBigEndian byte2int) (old h : Contents)
    (c : IsComplete h) where
  read : List ℕ → ArpHeader
  read ip_dest = record {
    type = read_type (operation h.type) (some old.type);
    mac_source = some (record old.mac_source { bytes = h.mac_source.bytes });
    mac_dest = some (record old.mac_dest { bytes = h.mac_source.bytes });
    ipv4_source = some (ipv4 (byte2int (int_bytes h.ipv4_source.address)));
    ipv4_dest = some (ipv4 (byte2int ip_dest));
  }

  abbrev raw : ArpHeader
  raw = read (int_bytes h.ipv4_dest.address)

-- The whole reader, on a header of IPv4 over hardware addresses of `n` bytes.
abbrev pub read_all : (List ℕ → ℕ) → ArpHeader → ℕ → ByteBuffer → Result (ArpHeader × ByteBuffer)
read_all byte2int old n b = get_bytes 6 b >>= (λ (x, c). read_fields byte2int old n c)

pub deserialize-sized :
    (byte2int : List ℕ → ℕ) (old : ArpHeader) (n : ℕ) (p r : List ℕ)
    → deserialize byte2int old
        (record { before = p; after = short_bytes 1 ++ (short_bytes 0x800 ++ (n ∷ (4 ∷ r))) })
      ≡ sized
          (read_all byte2int old n)
          (record { before = p; after = short_bytes 1 ++ (short_bytes 0x800 ++ (n ∷ (4 ∷ r))) })
unfolding deserialize get_short get_bytes get ◌>>=◌
deserialize-sized byte2int old n p r = refl

pub length-message : (h : Contents) → length (message h) ≡ 16 + 2 * len h.mac_source
length-message h = omega (
  arith,
  length-append h.mac_source.bytes
      (int_bytes h.ipv4_source.address ++ (h.mac_source.bytes ++ int_bytes h.ipv4_dest.address)),
  length-append h.mac_source.bytes (int_bytes h.ipv4_dest.address),
)
