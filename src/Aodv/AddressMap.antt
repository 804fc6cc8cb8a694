-- ===== src/Aodv/AddressMap.antt =====
-- java.util.HashMap with addresses as keys and numbers (a sequence number, or the number of an object)
-- as values: the list of its entries in the order in which an iterator meets them, whichever that is.
use osak_ext_ns.Prelude.{
  ℕ, Bool, true, false, ◌&&◌, Option, none, some, List, [], ◌∷◌, ◌==◌, if◌then◌else◌,
}
use osak_ext_ns.Bytes.{Ipv4Address, address_equals}

abbrev pub Entry : Type 0
Entry = Option Ipv4Address × ℕ

-- HashMap's comparison of keys, of which one may be null.
abbrev pub same_key : Option Ipv4Address → Option Ipv4Address → Bool
same_key none none = true
same_key none (some b) = false
same_key (some a) o = address_equals a o

unfoldable pub find : Option Ipv4Address → List Entry → Option ℕ
find key [] = none
find key ((k, seq_no) ∷ entries) = if same_key k key then some seq_no else find key entries

abbrev pub contains_key : Option Ipv4Address → List Entry → Bool
contains_key key entries = elim (find key entries) [ none ↦ false | some seq_no ↦ true ]

-- `put`: an entry that is there keeps its key and its place.
unfoldable pub put_entry : Option Ipv4Address → ℕ → List Entry → List Entry
put_entry key seq_no [] = (key, seq_no) ∷ []
put_entry key seq_no ((k, n) ∷ entries) =
    if same_key k key then (k, seq_no) ∷ entries else (k, n) ∷ put_entry key seq_no entries

-- `remove(key, value)`: whether an entry was removed, and the others.
unfoldable pub remove_entry : Option Ipv4Address → ℕ → List Entry → Bool × List Entry
remove_entry key seq_no [] = (false, [])
remove_entry key seq_no ((k, n) ∷ entries) =
    let (removed, others) = remove_entry key seq_no entries in
    if same_key k key
    then (if n == seq_no then (true, entries) else (false, (k, n) ∷ entries))
    else (removed, (k, n) ∷ others)

-- `remove(key)`.
unfoldable pub remove_key : Option Ipv4Address → List Entry → List Entry
remove_key key [] = []
remove_key key ((k, n) ∷ entries) =
    if same_key k key then entries else (k, n) ∷ remove_key key entries

-- `equals` of two maps: of one size, and each entry of the one is in the other.
abbrev pub all_found : List Entry → List Entry → Bool
all_found [] entries = true
all_found ((k, n) ∷ rest) entries = elim (find k entries) [
  | none ↦ false
  | some m ↦ m == n && all_found rest entries
]
