-- ===== src/Aodv/RequestQueue.antt =====
-- Packets that wait for a route: java/main/osak/ext/ns3/aodv/RequestQueue.java and QueueEntry.java.
-- `now` is the clock, still within a call. An address object has a number, by which `==` compares it;
-- UUIDs, packets and Times are compared so too. Null Times and null entries are left out.
pub mod Shrinks
pub mod Bounded
pub mod Drift
use osak_ext_ns.Prelude.{
  ℕ, ◌+◌, ◌%◌, Bool, true, false, ◌&&◌, Option, none, some, List, [], ◌∷◌, ◌++◌, length, ltb, ◌==◌,
  if◌then◌else◌,
}
use osak_ext_ns.Result.{Result, ok, fault, Fault, ◌>>=◌, ◌>>◌, deref}
use osak_ext_ns.Bytes.{Ipv4Address, address_equals}
use osak_ext_ns.Aodv.Time.{Times, in_ms, add_to, sub, is_negative}

pub record Packet : Type 0 where
  pub number : ℕ
  pub uid : Option ℕ

pub record AddressObject : Type 0 where
  pub number : ℕ
  pub address : Ipv4Address

pub record Ipv4Header : Type 0 where
  pub destination : Option AddressObject

pub record QueueEntry : Type 0 where
  pub packet : Option Packet
  pub header : Option Ipv4Header
  pub unicast_forward_callback : Bool
  pub error_callback : Bool
  pub expire : ℕ

-- The queue, and the entries whose error callback was called, in order.
pub record RequestQueue : Type 0 where
  pub queue : List QueueEntry
  pub max_len : ℕ
  pub queue_timeout : ℕ
  pub times : Times
  pub dropped : List QueueEntry

-- `RequestQueue(maxLen, routeToQueueTimeout)`.
abbrev pub new_queue : ℕ → ℕ → Times → RequestQueue
new_queue max_len timeout times = record {
  queue = [];
  max_len = max_len;
  queue_timeout = timeout;
  times = times;
  dropped = [];
}

-- `QueueEntry(pa, h, ucb, ecb, exp)` takes over the Time `exp`, and adds the clock to it.
unfoldable pub new_entry :
    ℕ → Option Packet → Option Ipv4Header → Bool → Bool → ℕ → Times → QueueEntry × Times
new_entry now pa h ucb ecb exp ts = (
  record {
    packet = pa;
    header = h;
    unicast_forward_callback = ucb;
    error_callback = ecb;
    expire = exp;
  },
  add_to exp (in_ms now) ts,
)

abbrev pub set_unicast_forward_callback : Bool → QueueEntry → QueueEntry
set_unicast_forward_callback ucb h = record h { unicast_forward_callback = ucb }

abbrev pub set_error_callback : Bool → QueueEntry → QueueEntry
set_error_callback ecb h = record h { error_callback = ecb }

abbrev pub set_packet : Option Packet → QueueEntry → QueueEntry
set_packet p h = record h { packet = p }

abbrev pub set_ipv4_header : Option Ipv4Header → QueueEntry → QueueEntry
set_ipv4_header ip h = record h { header = ip }

-- `SetExpireTime(exp)` does the same.
abbrev pub set_expire_time : ℕ → ℕ → QueueEntry → Times → QueueEntry × Times
set_expire_time now exp e ts = (record e { expire = exp }, add_to exp (in_ms now) ts)

abbrev pub same_reference : Option ℕ → Option ℕ → Bool
same_reference none none = true
same_reference (some a) (some b) = a == b
same_reference a b = false

abbrev pub packet_number : QueueEntry → Option ℕ
packet_number e = elim e.packet [ none ↦ none | some p ↦ some p.number ]

abbrev pub object_number : Option AddressObject → Option ℕ
object_number none = none
object_number (some a) = some a.number

-- `GetIpv4Header().GetDestination()`.
abbrev pub destination : QueueEntry → Result (Option AddressObject)
destination e = deref e.header >>= λ h. ok h.destination

unfoldable pub same_destination : QueueEntry → QueueEntry → Result Bool
same_destination e o = do
  d ← destination e
  c ← destination o
  ok (same_reference (object_number d) (object_number c))

-- `e.equals(o)`.
unfoldable pub entry_equals : QueueEntry → QueueEntry → Result Bool
entry_equals e o =
    if same_reference (packet_number e) (packet_number o)
    then (same_destination e o >>= λ same. ok (same && e.expire == o.expire))
    else ok false

-- `m_queue.remove(i)`: the first entry that `i` equals.
unfoldable pub remove_entry : QueueEntry → List QueueEntry → Result (List QueueEntry)
remove_entry i [] = ok []
remove_entry i (e ∷ es) = do
  same ← entry_equals i e
  if same then ok es else remove_entry i es >>= λ others. ok (e ∷ others)

-- `Drop(en, reason)`.
unfoldable pub drop_entry : QueueEntry → RequestQueue → Result RequestQueue
drop_entry e q =
    if e.error_callback
    then ok (record q { dropped = q.dropped ++ (e ∷ []) })
    else fault Fault.null_pointer

-- `Drop(i, …); m_queue.remove(i)` in a for-each loop that has the entries `rest` to come. The list's
-- iterator then ends the loop if it has at most one to come, and throws if it has more.
unfoldable pub drop_in_loop : QueueEntry → List QueueEntry → RequestQueue → Result RequestQueue
drop_in_loop i rest q = do
  q ← drop_entry i q
  others ← remove_entry i q.queue
  if ltb 1 (length rest)
      then fault Fault.concurrent_modification
      else ok (record q { queue = others })

-- `GetExpireTime().getLong() < 0`: the subtraction changes the entry's own Time.
abbrev pub expires : ℕ → QueueEntry → RequestQueue → Bool × RequestQueue
expires now e q =
    let (s, ts) = sub e.expire (in_ms now) q.times in
    (is_negative (ts.at s).value, record q { times = ts })

unfoldable pub purge_rest : ℕ → List QueueEntry → RequestQueue → Result RequestQueue
purge_rest now [] q = ok q
purge_rest now (i ∷ rest) q =
    let (expired, q') = expires now i q in
    if expired then drop_in_loop i rest q' else purge_rest now rest q'

unfoldable pub purge : ℕ → RequestQueue → Result RequestQueue
purge now q = purge_rest now q.queue q

abbrev pub uid : QueueEntry → Result (Option ℕ)
uid e = deref e.packet >>= λ p. ok p.uid

-- `Enqueue`'s search for the same packet to the same destination object.
unfoldable pub is_queued : QueueEntry → List QueueEntry → Result Bool
is_queued entry [] = ok false
is_queued entry (i ∷ is) = do
  u ← uid i
  v ← uid entry
  same ← (if same_reference u v then same_destination i entry else ok false)
  if same then ok true else is_queued entry is

-- `Drop(m_queue.get(0), …); m_queue.remove(0)`; an empty list has no element 0.
unfoldable pub drop_first : List QueueEntry → RequestQueue → Result RequestQueue
drop_first [] q = fault Fault.index_out_of_bounds
drop_first (e ∷ es) q = drop_entry e q >>= λ r. ok (record r { queue = es })

abbrev pub drop_oldest : RequestQueue → Result RequestQueue
drop_oldest q = drop_first q.queue q

abbrev pub make_room : RequestQueue → Result RequestQueue
make_room q = if length q.queue == q.max_len then drop_oldest q else ok q

-- The end of `Enqueue`, after the search.
unfoldable pub admit : ℕ → QueueEntry → RequestQueue → Result RequestQueue
admit now entry q = do
  let (entry', ts) = set_expire_time now q.queue_timeout entry q.times
  r ← make_room (record q { times = ts })
  ok (record r { queue = r.queue ++ (entry' ∷ []) })

unfoldable pub enqueue : ℕ → QueueEntry → RequestQueue → Result (Bool × RequestQueue)
enqueue now entry q = do
  q ← purge now q
  queued ← is_queued entry q.queue
  if queued then ok (false, q) else admit now entry q >>= λ r. ok (true, r)

-- `GetDestination().equals(dst)`.
abbrev pub goes_to : Option Ipv4Address → QueueEntry → Result Bool
goes_to dst e = do d ← destination e; a ← deref d; ok (address_equals a.address dst)

-- The loop of `Dequeue`, which returns as soon as it has removed an entry. The entry is assigned to
-- the parameter, which the caller does not see.
unfoldable pub dequeue_rest :
    Option Ipv4Address → List QueueEntry → RequestQueue → Result (Bool × RequestQueue)
dequeue_rest dst [] q = ok (false, q)
dequeue_rest dst (i ∷ rest) q = do
  matches ← goes_to dst i
  if matches
      then (remove_entry i q.queue >>= λ others. ok (true, record q { queue = others }))
      else dequeue_rest dst rest q

unfoldable pub dequeue : ℕ → Option Ipv4Address → RequestQueue → Result (Bool × RequestQueue)
dequeue now dst q = do q ← purge now q; dequeue_rest dst q.queue q

unfoldable pub drop_rest : Option Ipv4Address → List QueueEntry → RequestQueue → Result RequestQueue
drop_rest dst [] q = ok q
drop_rest dst (i ∷ rest) q = do
  matches ← goes_to dst i
  if matches then drop_in_loop i rest q else drop_rest dst rest q

unfoldable pub drop_packet_with_dst : ℕ → Option Ipv4Address → RequestQueue → Result RequestQueue
drop_packet_with_dst now dst q = do q ← purge now q; drop_rest dst q.queue q

unfoldable pub find : Option Ipv4Address → List QueueEntry → Result Bool
find dst [] = ok false
find dst (i ∷ is) = do matches ← goes_to dst i; if matches then ok true else find dst is

unfoldable pub get_size : ℕ → RequestQueue → Result (ℕ × RequestQueue)
get_size now q = do q ← purge now q; ok (length q.queue, q)

abbrev pub set_max_queue_len : ℕ → RequestQueue → RequestQueue
set_max_queue_len len q = record q { max_len = len }

abbrev pub set_queue_timeout : ℕ → RequestQueue → RequestQueue
set_queue_timeout t q = record q { queue_timeout = t }
