-- ===== src/Aodv/Time.antt =====
-- Times: java/main/osak/ext/ns3/core/Time.java, with java.util.concurrent.TimeUnit's conversion. A
-- Time is a mutable object, so the ones that are shared live in a store; a long is its bit pattern.
pub mod Laws
use osak_ext_ns.Prelude.{
  ℕ, suc, ◌+◌, ◌-◌, ◌*◌, ◌/◌, ◌%◌, ◌^◌, Bool, true, false, ltb, ◌==◌, if◌then◌else◌, update,
}

pub data TimeUnit : Type 0 where
  nanoseconds microseconds milliseconds seconds minutes hours days : TimeUnit

abbrev nanos : TimeUnit → ℕ
nanos nanoseconds = 1
nanos microseconds = 1_000
nanos milliseconds = 1_000_000
nanos seconds = 1_000_000_000
nanos minutes = 60_000_000_000
nanos hours = 3_600_000_000_000
nanos days = 86_400_000_000_000

abbrev pub same_unit : TimeUnit → TimeUnit → Bool
same_unit u v = nanos u == nanos v

abbrev pub is_negative : ℕ → Bool
is_negative v = ltb (2 ^ 63 - 1) v

abbrev pub plus : ℕ → ℕ → ℕ
plus a b = (a + b) % 2 ^ 64

abbrev pub minus : ℕ → ℕ → ℕ
minus a b = (a + 2 ^ 64 - b) % 2 ^ 64

abbrev pub greater : ℕ → ℕ → Bool
greater a b = ltb ((b + 2 ^ 63) % 2 ^ 64) ((a + 2 ^ 63) % 2 ^ 64)

-- `to.convert(v, from)`, which rounds towards zero and saturates.
abbrev scaled : ℕ → TimeUnit → TimeUnit → ℕ
scaled magnitude to from = magnitude * nanos from / nanos to

abbrev saturated : ℕ → ℕ → ℕ
saturated limit n = if ltb limit n then limit else n

unfoldable pub convert : TimeUnit → ℕ → TimeUnit → ℕ
convert to v from =
    if is_negative v
    then (2 ^ 64 - saturated (2 ^ 63) (scaled (2 ^ 64 - v) to from)) % 2 ^ 64
    else saturated (2 ^ 63 - 1) (scaled v to from)

pub record Time : Type 0 where
  pub value : ℕ
  pub unit : TimeUnit

-- `Time(val)`, and `Now()` at the clock's reading.
abbrev pub in_ms : ℕ → Time
in_ms v = record { value = v; unit = milliseconds }

abbrev pub max_time : Time
max_time = in_ms (2 ^ 63 - 1)

abbrev pub get_mill_seconds : Time → ℕ
get_mill_seconds t = convert milliseconds t.value t.unit

-- The Time objects, by number; those from `next` on are not made yet.
pub record Times : Type 0 where
  pub at : ℕ → Time
  pub next : ℕ

abbrev pub set_value : ℕ → ℕ → Times → Times
set_value r v ts = record ts { at = update ts.at r (record (ts.at r) { value = v }) }

-- `new Time(…)`.
abbrev pub make : Time → Times → ℕ × Times
make t ts = (ts.next, record { at = update ts.at ts.next t; next = suc ts.next })

-- `t.add(u)` and `t.sub(u)` of an object: it is changed, and is the result. `u` is read only.
unfoldable pub add_to : ℕ → Time → Times → Times
add_to r u ts =
    let t = ts.at r in
    if same_unit t.unit u.unit
    then set_value r (plus t.value u.value) ts
    else set_value r (plus t.value (convert t.unit u.value u.unit)) ts

unfoldable pub sub_from : ℕ → Time → Times → Times
sub_from r u ts =
    let t = ts.at r in
    if same_unit t.unit u.unit
    then set_value r (minus t.value u.value) ts
    else set_value r (minus t.value (convert t.unit u.value u.unit)) ts

-- The static `add(t1, t2)` and `sub(t1, t2)`: a new object; `t1.value += t2.value` is an assignment.
unfoldable pub add : ℕ → Time → Times → ℕ × Times
add r u ts =
    let t = ts.at r in
    if same_unit t.unit u.unit
    then make (record { value = plus t.value u.value; unit = t.unit })
        (set_value r (plus t.value u.value) ts)
    else make (in_ms (plus (get_mill_seconds t) (get_mill_seconds u))) ts

unfoldable pub sub : ℕ → Time → Times → ℕ × Times
sub r u ts =
    let t = ts.at r in
    if same_unit t.unit u.unit
    then make (record { value = minus t.value u.value; unit = t.unit })
        (set_value r (minus t.value u.value) ts)
    else make (in_ms (minus (get_mill_seconds t) (get_mill_seconds u))) ts

-- `multiply(a, b)`, with `a` as a long.
abbrev pub multiply : ℕ → Time → Time
multiply a b = record { value = a * b.value % 2 ^ 64; unit = b.unit }

-- `MAX(t1, t2)` and `MIN(t1, t2)`, which return one of the two objects.
unfoldable pub later : ℕ → ℕ → Times → ℕ
later r s ts =
    let t = ts.at r in
    let u = ts.at s in
    if same_unit t.unit u.unit
    then (if greater t.value u.value then r else s)
    else if greater (get_mill_seconds t) (get_mill_seconds u)
    then r
    else s

unfoldable pub earlier : ℕ → ℕ → Times → ℕ
earlier r s ts =
    let t = ts.at r in
    let u = ts.at s in
    if same_unit t.unit u.unit
    then (if greater u.value t.value then r else s)
    else if greater (get_mill_seconds u) (get_mill_seconds t)
    then r
    else s
