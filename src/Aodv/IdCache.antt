-- ===== src/Aodv/IdCache.antt =====
-- Which identifiers were seen lately: java/main/osak/ext/ns3/aodv/IdCache.java, and its client
-- DuplicatePacketDetection.java. System.currentTimeMillis() is the argument `now`, which stands still
-- within a call; times are long patterns. A UUID is compared by reference, so it is the object's number.
pub mod Purge
pub mod Window
use osak_ext_ns.Prelude.{
  ℕ, ◌+◌, ◌%◌, ◌^◌, Bool, true, false, ◌&&◌, Option, none, some, List, [], ◌∷◌, ◌++◌, length, ltb,
  ◌==◌, if◌then◌else◌,
}
use osak_ext_ns.Result.{Result, ok, fault, Fault, ◌>>=◌, deref}
use osak_ext_ns.Bytes.{Ipv4Address, address_equals}

pub record UniqueId : Type 0 where
  pub context : Option Ipv4Address
  pub uuid : Option ℕ
  pub id : ℕ
  pub expire : ℕ

-- The argument of the two overloads: `UUID id`, which may be null, and `int id`.
pub data Identifier : Type 0 where
  by_uuid : Option ℕ → Identifier
  by_int : ℕ → Identifier

-- The two constructors; each leaves the other's field at its default.
abbrev pub unique_id : Option Ipv4Address → Identifier → ℕ → UniqueId
unique_id context (by_uuid u) expire = record {
  context = context;
  uuid = u;
  id = 0;
  expire = expire;
}
unique_id context (by_int n) expire = record {
  context = context;
  uuid = none;
  id = n;
  expire = expire;
}

-- `a < b` of two longs, and `a + b`.
abbrev pub long_lt : ℕ → ℕ → Bool
long_lt a b = ltb ((a + 2 ^ 63) % 2 ^ 64) ((b + 2 ^ 63) % 2 ^ 64)

abbrev pub long_add : ℕ → ℕ → ℕ
long_add a b = (a + b) % 2 ^ 64

abbrev pub is_expired : ℕ → UniqueId → Bool
is_expired now u = long_lt u.expire now

pub record IdCache : Type 0 where
  pub id_cache : List UniqueId
  pub lifetime : ℕ

-- `IdCache(lifetime)`.
abbrev pub new_cache : ℕ → IdCache
new_cache lifetime = record { id_cache = []; lifetime = lifetime }

-- The for-each loop of `Purge`, which removes from the LinkedList that it walks. After a removal the
-- iterator's next index is one too large: the loop ends if at most one element is behind the removed
-- one, and else `next()` throws.
unfoldable pub purge_list : ℕ → List UniqueId → Result (List UniqueId)
purge_list now [] = ok []
purge_list now (u ∷ us) =
    if is_expired now u
    then (if ltb 1 (length us) then fault Fault.concurrent_modification else ok us)
    else purge_list now us >>= λ vs. ok (u ∷ vs)

unfoldable pub purge : ℕ → IdCache → Result IdCache
purge now c = do us ← purge_list now c.id_cache; ok (record c { id_cache = us })

-- `==` of two references.
abbrev same_object : Option ℕ → Option ℕ → Bool
same_object none none = true
same_object (some a) (some b) = a == b
same_object a b = false

abbrev pub same_id : UniqueId → Identifier → Bool
same_id u (by_uuid o) = same_object u.uuid o
same_id u (by_int n) = u.id == n

-- The loop of `IsDuplicate`.
unfoldable pub is_seen : Option Ipv4Address → Identifier → List UniqueId → Result Bool
is_seen addr id [] = ok false
is_seen addr id (u ∷ us) = do
  context ← deref u.context
  if address_equals context addr && same_id u id then ok true else is_seen addr id us

abbrev pub add_unless : Bool → UniqueId → IdCache → Bool × IdCache
add_unless true u c = (true, c)
add_unless false u c = (false, record c { id_cache = c.id_cache ++ (u ∷ []) })

-- `IsDuplicate`, both overloads.
unfoldable pub is_duplicate :
    ℕ → Option Ipv4Address → Identifier → IdCache → Result (Bool × IdCache)
is_duplicate now addr id c = do
  c ← purge now c
  seen ← is_seen addr id c.id_cache
  ok (add_unless seen (unique_id addr id (long_add c.lifetime now)) c)

unfoldable pub get_size : ℕ → IdCache → Result (ℕ × IdCache)
get_size now c = do c ← purge now c; ok (length c.id_cache, c)

unfoldable pub set_lifetime : ℕ → IdCache → IdCache
set_lifetime lifetime c = record c { lifetime = lifetime }

-- `DuplicatePacketDetection.IsDuplicate(p, header)`, of the header's source and the packet's UUID.
unfoldable pub is_duplicate_packet :
    ℕ → Option Ipv4Address → Option ℕ → IdCache → Result (Bool × IdCache)
is_duplicate_packet now source uid id_cache = is_duplicate now source (by_uuid uid) id_cache
