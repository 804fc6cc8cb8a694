-- ===== src/Aodv/RoutingTable/Aging.antt =====
-- What looking at lifetimes does to them: GetLifeTime subtracts the clock from the stored Time.
use osak_ext_ns.Prelude.{
  ℕ, ◌≤◌, ◌<◌, ◌≡◌, refl, ap, ◌∙◌, arith, Bool, false, List, [], ◌∷◌, All, ◌==◌, if◌then◌else◌,
}
use osak_ext_ns.Result.{ok}
use osak_ext_ns.Aodv.AddressMap.{Entry}
use osak_ext_ns.Aodv.Time.{Time, Times, milliseconds, minus, in_ms, sub, is_negative}
use osak_ext_ns.Aodv.Time.Laws.{Subtracted, sub-Subtracted}
use osak_ext_ns.Aodv.RoutingTable.{
  RoutingTable, RoutingTableEntry, get_life_time, purge_rows, purge,
}

-- The Time of a row's entry, and which object it is.
abbrev pub life : RoutingTable → Entry → ℕ
life t row = (t.entries row.1).life_time

abbrev pub time : RoutingTable → Entry → Time
time t row = t.times.at (life t row)

-- Rows whose Times are in milliseconds, are made, and do not run out at `now`.
abbrev pub AreAlive : ℕ → RoutingTable → List Entry → Type 0
AreAlive now t rows =
    All
      (λ row.
        ((time t row).unit ≡ milliseconds)
        × (life t row < t.times.next)
        × (is_negative (minus (time t row).value now) ≡ false))
      rows

-- No row has the Time object `r`.
abbrev pub LacksTime : RoutingTable → ℕ → List Entry → Type 0
LacksTime t r rows = All (λ row. (life t row == r) ≡ false) rows

-- No two rows share a Time.
abbrev pub AreApart : (ℕ → RoutingTableEntry) → List Entry → Type 0
AreApart entries [] = Unit
AreApart entries (row ∷ rows) =
    All (λ other. ((entries other.1).life_time == (entries row.1).life_time) ≡ false) rows
    × AreApart entries rows

-- `u` is `t` with the clock subtracted from the Time of each of the rows, and new Times.
pub record Aged (now : ℕ) (rows : List Entry) (t u : RoutingTable) : Type 0 where
  pub entries : u.entries ≡ t.entries
  pub routes : u.routes ≡ t.routes
  pub precursors : u.precursors ≡ t.precursors
  pub rows_kept : u.ipv4_address_entry ≡ t.ipv4_address_entry
  pub bad_link_lifetime : u.bad_link_lifetime ≡ t.bad_link_lifetime
  pub aged : All (λ row. u.times.at (life t row) ≡ in_ms (minus (time t row).value now)) rows
  pub others : (q : ℕ) → q < t.times.next → LacksTime t q rows → u.times.at q ≡ t.times.at q
  pub made : t.times.next ≤ u.times.next

AreAlive-transport :
    (now : ℕ) (t : RoutingTable) (ts : Times) (r : ℕ) (rows : List Entry)
    → LacksTime t r rows
    → t.times.next ≤ ts.next
    → ((q : ℕ) → q < t.times.next → (q == r) ≡ false → ts.at q ≡ t.times.at q)
    → AreAlive now t rows
    → AreAlive now (record t { times = ts }) rows
AreAlive-transport now t ts r [] l m same a = tt
AreAlive-transport now t ts r (row ∷ rows) (e, l) m same ((u, k, v), a) =
    let s = same (life t row) k e in
    (
      (ap (λ x. x.unit) s ∙ u, omega arith, ap (λ x. is_negative (minus x.value now)) s ∙ v),
      AreAlive-transport now t ts r rows l m same a,
    )

All-aged :
    (now : ℕ) (t : RoutingTable) (ts us : Times) (r : ℕ) (rows : List Entry)
    → LacksTime t r rows
    → ((q : ℕ) → q < t.times.next → (q == r) ≡ false → ts.at q ≡ t.times.at q)
    → AreAlive now t rows
    → All (λ row. us.at (life t row) ≡ in_ms (minus (ts.at (life t row)).value now)) rows
    → All (λ row. us.at (life t row) ≡ in_ms (minus (time t row).value now)) rows
All-aged now t ts us r [] l same a h = tt
All-aged now t ts us r (row ∷ rows) (e, l) same ((u, k, v), a) (h, hs) = (
  h ∙ ap (λ x. in_ms (minus x.value now)) (same (life t row) k e),
  All-aged now t ts us r rows l same a hs,
)

==_false : (a b : ℕ) → (a == b) ≡ false → (b == a) ≡ false
==_false a b h = ground arith

if_false {ℓ} : {A : Type ℓ} {b : Bool} (x y : A) → b ≡ false → (if b then x else y) ≡ y
if_false x y h = rw h

-- A first row that is looked at, and the rest.
Aged-step :
    (now : ℕ) (row : Entry) (rows : List Entry) (t : RoutingTable) (result : ℕ) (ts : Times)
    (u : RoutingTable)
    → AreAlive now t (row ∷ rows)
    → AreApart t.entries (row ∷ rows)
    → Subtracted (life t row) now t.times result ts
    → Aged now rows (record t { times = ts }) u
    → Aged now (row ∷ rows) t u
Aged-step now row rows t result ts u ((unit, k, v), a) (l, p) s g = record {
  entries = g.entries;
  routes = g.routes;
  precursors = g.precursors;
  rows_kept = g.rows_kept;
  bad_link_lifetime = g.bad_link_lifetime;
  aged = (
    g.others (life t row) (omega (arith, k, s.next)) l ∙ s.argument,
    All-aged now t ts u.times (life t row) rows l s.others a g.aged,
  );
  others = λ q h (e, n). g.others q (omega (arith, h, s.next)) n ∙ s.others q h (==_false _ _ e);
  made = omega (arith, s.next, g.made);
}

purge_rows-Aged :
    (now : ℕ) (rows : List Entry) (t : RoutingTable)
    → AreAlive now t rows
    → AreApart t.entries rows
    → (u : RoutingTable) × (purge_rows now rows t ≡ ok u) × Aged now rows t u
unfolding purge_rows get_life_time
purge_rows-Aged now [] t a p = (
  t,
  refl,
  record {
    entries = refl;
    routes = refl;
    precursors = refl;
    rows_kept = refl;
    bad_link_lifetime = refl;
    aged = tt;
    others = λ q h n. refl;
    made = omega arith;
  },
)
purge_rows-Aged now ((key, r) ∷ rows) t ((unit, k, v), a) (l, p) =
    let s = sub-Subtracted (t.entries r).life_time now t.times unit in
    let result = sub (t.entries r).life_time (in_ms now) t.times in
    let (u, e, g) =
      purge_rows-Aged now rows (record t { times = result.1 })
        (AreAlive-transport now t result.1 (t.entries r).life_time rows l (omega (arith, s.next))
          s.others a)
        p in
    (
      u,
      if_false _ _ (ap (λ x. is_negative x.value) s.result_value ∙ v) ∙ e,
      Aged-step now (key, r) rows t result.0 result.1 u ((unit, k, v), a) (l, p) s g,
    )

-- Purge of a table whose entries are all alive, with a Time each, keeps the map, the entries and the
-- routes as they are, but subtracts the clock from every entry's lifetime; other Times stay.
pub purge-Aged :
    (now : ℕ) (t : RoutingTable)
    → AreAlive now t t.ipv4_address_entry
    → AreApart t.entries t.ipv4_address_entry
    → (u : RoutingTable) × (purge now t ≡ ok u) × Aged now t.ipv4_address_entry t u
unfolding purge
purge-Aged now t a p = purge_rows-Aged now t.ipv4_address_entry t a p
