-- ===== src/Aodv/Rerr/Destinations.antt =====
-- The destinations of a route error, as a map.
use osak_ext_ns.Prelude.{
  ℕ, ◌+◌, ◌%◌, ◌≡◌, refl, arith, Bool, true, false, Option, none, some, List, [], ◌∷◌, length,
  if◌then◌else◌, inl, inr, Option-cases,
}
use osak_ext_ns.Result.{ok}
use osak_ext_ns.Bytes.{Ipv4Address, address_equals, bool_eq, int_lt, byte_to_int}
use osak_ext_ns.Aodv.AddressMap.{Entry, same_key, find, contains_key, put_entry}
use osak_ext_ns.Aodv.Rerr.{RerrHeader, add_un_destination}

bool_eq_refl : (x : Bool) → bool_eq x x ≡ true
bool_eq_refl true = refl
bool_eq_refl false = refl

same_key_refl : (key : Option Ipv4Address) → same_key key key ≡ true
unfolding address_equals
same_key_refl none = refl
same_key_refl (some a) = ground (arith, bool_eq_refl a.initialized)

find-put_entry :
    (key : Option Ipv4Address) (n : ℕ) (es : List Entry) → find key (put_entry key n es) ≡ some n
unfolding find put_entry
find-put_entry key n [] = ground (arith, same_key_refl key)
find-put_entry key n ((k, m) ∷ es) = ground (arith, find-put_entry key n es)

length-put_entry :
    (key : Option Ipv4Address) (n : ℕ) (es : List Entry)
    → find key es ≡ none
    → length (put_entry key n es) ≡ length es + 1
unfolding find put_entry
length-put_entry key n [] h = refl
length-put_entry key n ((k, m) ∷ es) h = ground (arith, length-put_entry key n es)

not_full : (n : ℕ) → int_lt (byte_to_int (n % 256)) 255 ≡ true
not_full n = ground arith

abbrev pub kept : ℕ → Option ℕ → ℕ
kept n none = n
kept n (some m) = m

-- AddUnDestination never throws, however many destinations there are: the destination is in the map
-- afterwards, with the sequence number that it had before if it was there, and one that was not there
-- makes the map one larger.
pub add_un_destination_total :
    (dst : Option Ipv4Address) (seq_no : ℕ) (h : RerrHeader)
    → (g : RerrHeader) × (add_un_destination dst seq_no h ≡ ok (true, g))
      × (find dst g.unreachable_dst_seq_no ≡ some (kept seq_no (find dst h.unreachable_dst_seq_no)))
      × (length g.unreachable_dst_seq_no
          ≡ length h.unreachable_dst_seq_no
            + (if contains_key dst h.unreachable_dst_seq_no then 0 else 1))
unfolding add_un_destination
add_un_destination_total dst seq_no h = elim (Option-cases (find dst h.unreachable_dst_seq_no)) [
  | inl e ↦ (
    record h { unreachable_dst_seq_no = put_entry dst seq_no h.unreachable_dst_seq_no },
    ground (arith, e, not_full (length h.unreachable_dst_seq_no)),
    rw e (find-put_entry dst seq_no h.unreachable_dst_seq_no),
    rw (contains_key, e) (length-put_entry dst seq_no h.unreachable_dst_seq_no e),
  )
  | inr (m, e) ↦ (h, ground (arith, e), rw e, ground (arith, e))
]
