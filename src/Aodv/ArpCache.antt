-- ===== src/Aodv/ArpCache.antt =====
-- ARP entries and their lookup: java/main/osak/ext/ns3/internet/ArpCacheEntry.java and ArpCache.java,
-- and the hardware addresses that they hold, java/main/osak/ext/ns3/network/utils/Mac48Address.java.
-- Entries, caches, packets and Times are numbers of objects; null caches and Times are left out.
-- The limit of pending packets is not negative. MarkWaitReply, which starts a timer, and the timer are
-- not modelled. Assertions are off.
use osak_ext_ns.Prelude.{
  ℕ, ◌+◌, ◌%◌, ◌^◌, Bool, true, false, ◌&&◌, Option, none, some, List, [], ◌∷◌, ◌++◌, length,
  replicate, take, leb, ltb, ◌==◌, if◌then◌else◌,
}
use osak_ext_ns.Result.{Result, ok, fault, Fault, ◌>>=◌, deref}
use osak_ext_ns.Bytes.{Ipv4Address}
use osak_ext_ns.Inet.ArpHeader.{Address, copy_to}
use osak_ext_ns.Aodv.AddressMap.{Entry, find}
use osak_ext_ns.Aodv.Time.{Times, get_mill_seconds, max_time, minus, greater}

pub data EntryState : Type 0 where
  alive wait_reply dead permanent static_autogenerated : EntryState

pub record ArpCacheEntry : Type 0 where
  pub arp : ℕ
  pub state : EntryState
  pub last_seen : ℕ
  pub mac_address : Option Address
  pub ipv4_address : Option Ipv4Address
  pub pending : List (ℕ × ℕ)
  pub retries : ℕ

pub record ArpCache : Type 0 where
  pub arp_cache : List Entry
  pub alive_timeout : ℕ
  pub dead_timeout : ℕ
  pub wait_reply_timeout : ℕ
  pub pending_queue_size : ℕ

-- The objects, by number.
pub record Arp : Type 0 where
  pub cache : ℕ → ArpCache
  pub entry : ℕ → ArpCacheEntry

-- `ArpCacheEntry(arp)`.
abbrev pub new_arp_entry : ℕ → ArpCacheEntry
new_arp_entry arp = record {
  arp = arp;
  state = EntryState.alive;
  last_seen = 0;
  mac_address = none;
  ipv4_address = none;
  pending = [];
  retries = 0;
}

abbrev pub update_seen : ℕ → ArpCacheEntry → ArpCacheEntry
update_seen now e = record e { last_seen = now }

abbrev pub clear_retries : ArpCacheEntry → ArpCacheEntry
clear_retries e = record e { retries = 0 }

abbrev pub increment_retries : ℕ → ArpCacheEntry → ArpCacheEntry
increment_retries now e = update_seen now (record e { retries = (e.retries + 1) % 2 ^ 32 })

abbrev pub mark_dead : ℕ → ArpCacheEntry → ArpCacheEntry
mark_dead now e = update_seen now (clear_retries (record e { state = EntryState.dead }))

abbrev pub mark_alive : ℕ → Option Address → ArpCacheEntry → ArpCacheEntry
mark_alive now mac e =
    update_seen now (clear_retries (record e { mac_address = mac; state = EntryState.alive }))

abbrev pub mark_permanent : ℕ → ArpCacheEntry → ArpCacheEntry
mark_permanent now e = update_seen now (clear_retries (record e { state = EntryState.permanent }))

abbrev pub mark_auto_generated : ℕ → ArpCacheEntry → ArpCacheEntry
mark_auto_generated now e =
    update_seen now (clear_retries (record e { state = EntryState.static_autogenerated }))

abbrev pub is_alive : ArpCacheEntry → Bool
is_alive e = elim e.state [
  | alive ↦ true
  | wait_reply ↦ false
  | dead ↦ false
  | permanent ↦ false
  | static_autogenerated ↦ false
]

abbrev pub is_permanent : ArpCacheEntry → Bool
is_permanent e = elim e.state [
  | alive ↦ false
  | wait_reply ↦ false
  | dead ↦ false
  | permanent ↦ true
  | static_autogenerated ↦ false
]

-- `GetTimeout().getMillSeconds()`.
abbrev pub get_timeout : Arp → Times → ArpCacheEntry → ℕ
get_timeout a ts e = elim e.state [
  | alive ↦ get_mill_seconds (ts.at (a.cache e.arp).alive_timeout)
  | wait_reply ↦ get_mill_seconds (ts.at (a.cache e.arp).wait_reply_timeout)
  | dead ↦ get_mill_seconds (ts.at (a.cache e.arp).dead_timeout)
  | permanent ↦ get_mill_seconds max_time
  | static_autogenerated ↦ get_mill_seconds max_time
]

abbrev pub is_entry_expired : ℕ → Arp → Times → ArpCacheEntry → Bool
is_entry_expired now a ts e = greater (minus now e.last_seen) (get_timeout a ts e)

abbrev pub update_wait_reply : Arp → ℕ × ℕ → ArpCacheEntry → Bool × ArpCacheEntry
update_wait_reply a waiting e =
    if leb (a.cache e.arp).pending_queue_size (length e.pending)
    then (false, e)
    else (true, record e { pending = e.pending ++ (waiting ∷ []) })

abbrev pub take_pending : List (ℕ × ℕ) → ArpCacheEntry → Option (ℕ × ℕ) × ArpCacheEntry
take_pending [] e = (none, e)
take_pending (p ∷ ps) e = (some p, record e { pending = ps })

-- `DequeuePending()`; without a pending packet the pair of null and a new header.
abbrev pub dequeue_pending : ArpCacheEntry → Option (ℕ × ℕ) × ArpCacheEntry
dequeue_pending e = take_pending e.pending e

abbrev pub clear_pending_packet : ArpCacheEntry → ArpCacheEntry
clear_pending_packet e = record e { pending = [] }

-- `ArpCache.Lookup`: the number of the entry, or null.
unfoldable pub lookup : Option Ipv4Address → ArpCache → Option ℕ
lookup destination c = find destination c.arp_cache

-- A Mac48Address is its array of six bytes.
abbrev pub no_mac : List ℕ
no_mac = replicate 6 0

-- `Arrays.equals`.
unfoldable pub same_bytes : List ℕ → List ℕ → Bool
same_bytes [] [] = true
same_bytes [] (y ∷ ys) = false
same_bytes (x ∷ xs) [] = false
same_bytes (x ∷ xs) (y ∷ ys) = x == y && same_bytes xs ys

-- `Mac48Address.ConvertFrom(address)`.
unfoldable pub mac_convert_from : Option Address → Result (List ℕ)
mac_convert_from address = deref address >>= λ a. copy_to 6 a

-- `Mac48Address.CopyFrom(buffer)`.
unfoldable pub mac_copy_from : List ℕ → Result (List ℕ)
mac_copy_from buffer =
    if ltb (length buffer) 6 then fault Fault.index_out_of_bounds else ok (take 6 buffer)
