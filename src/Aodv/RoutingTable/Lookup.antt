-- ===== src/Aodv/RoutingTable/Lookup.antt =====
-- A route that is looked up twice.
use osak_ext_ns.Prelude.{
  ℕ, ◌+◌, ◌-◌, ◌^◌, ◌≤◌, ◌<◌, ◌≡◌, sym, ap, subst, ◌∙◌, arith, true, false, Option, some, [], ◌∷◌,
  All, ◌==◌, ==_refl, inl, inr, Bool-cases,
}
use osak_ext_ns.Result.{ok, bind_ok}
use osak_ext_ns.Bytes.{Ipv4Address}
use osak_ext_ns.Aodv.AddressMap.{same_key, find}
use osak_ext_ns.Aodv.Time.{minus, in_ms, is_negative}
use osak_ext_ns.Aodv.Time.Laws.{sub-Subtracted}
use osak_ext_ns.Aodv.RoutingTable.{
  RoutingTable, RoutingTableEntry, valid, invalid, same_flag, get_life_time, purge_rows, purge,
  lookup_route, lookup_valid_route, copy, set_entry, invalidate,
}
use osak_ext_ns.Aodv.RoutingTable.Aging.{life, time, AreAlive, AreApart, purge-Aged}

-- A table with one entry, VALID and with a Time in milliseconds of value `v`.
pub record HasRoute (key : Option Ipv4Address) (r v : ℕ) (t : RoutingTable) : Type 0 where
  pub rows : t.ipv4_address_entry ≡ (key, r) ∷ []
  pub flag : (t.entries r).flag ≡ valid
  pub life_made : (t.entries r).life_time < t.times.next
  pub life_value : t.times.at (t.entries r).life_time ≡ in_ms v

no_sign :
    (v now : ℕ)
    → now ≤ v
    → v < 2 ^ 63
    → (is_negative (minus v now) ≡ false) × (minus v now ≡ v - now)
no_sign v now h k = ground arith

sign : (v now : ℕ) → v < now → now < 2 ^ 63 → is_negative (minus v now) ≡ true
sign v now h k = ground arith

purge-alive :
    (now : ℕ) (key : Option Ipv4Address) (r v : ℕ) (t : RoutingTable)
    → HasRoute key r v t
    → now ≤ v
    → v < 2 ^ 63
    → (u : RoutingTable) × (purge now t ≡ ok u) × HasRoute key r (v - now) u
purge-alive now key r v t h lo hi =
    let (positive, difference) = no_sign v now lo hi in
    let (u, e, g) =
      purge-Aged now t
        (subst (λ rows. AreAlive now t rows) (sym h.rows)
          (
            (
              ap (λ x. x.unit) h.life_value,
              h.life_made,
              ap (λ x. is_negative (minus x.value now)) h.life_value ∙ positive,
            ),
            tt,
          ))
        (subst (λ rows. AreApart t.entries rows) (sym h.rows) (tt, tt)) in
    let entry : u.entries r ≡ t.entries r = ap (λ es. es r) g.entries in
    (
      u,
      e,
      record {
        rows = g.rows_kept ∙ h.rows;
        flag = ap (λ x. x.flag) entry ∙ h.flag;
        life_made = omega (arith, ap (λ x. x.life_time) entry, h.life_made, g.made);
        life_value =
            ap (λ x. u.times.at x.life_time) entry
            ∙ (subst
                (λ rows.
                  All (λ row. u.times.at (life t row) ≡ in_ms (minus (time t row).value now)) rows)
                h.rows g.aged).0
            ∙ ap (λ x. in_ms (minus x.value now)) h.life_value
            ∙ ap in_ms difference;
      },
    )

expired_row :
    (now : ℕ) (key : Option Ipv4Address) (r v : ℕ) (t : RoutingTable)
    → HasRoute key r v t
    → v < now
    → now < 2 ^ 63
    → purge_rows now ((key, r) ∷ []) t
      ≡ ok (invalidate now r t.bad_link_lifetime (get_life_time now r t).1)
unfolding purge_rows get_life_time
expired_row now key r v t h lo hi =
    let s = sub-Subtracted (t.entries r).life_time now t.times (ap (λ x. x.unit) h.life_value) in
    let negative =
      ap (λ x. is_negative x.value) s.result_value
      ∙ ap (λ x. is_negative (minus x.value now)) h.life_value
      ∙ sign v now lo hi in
    rw (negative, h.flag)

invalidate-flag :
    (now r bad : ℕ) (t : RoutingTable)
    → (t.entries r).flag ≡ valid
    → ((invalidate now r bad t).entries r).flag ≡ invalid
unfolding invalidate
invalidate-flag now r bad t h = rw (h, ==_refl r)

invalidate-rows :
    (now r bad : ℕ) (t : RoutingTable)
    → (invalidate now r bad t).ipv4_address_entry ≡ t.ipv4_address_entry
unfolding invalidate
invalidate-rows now r bad t = elim (Bool-cases (same_flag (t.entries r).flag invalid)) [
  | inl e ↦ rw e
  | inr e ↦ rw e
]

purge-expired :
    (now : ℕ) (key : Option Ipv4Address) (r v : ℕ) (t : RoutingTable)
    → HasRoute key r v t
    → v < now
    → now < 2 ^ 63
    → (u : RoutingTable) × (purge now t ≡ ok u)
      × (u.ipv4_address_entry ≡ (key, r) ∷ [])
      × ((u.entries r).flag ≡ invalid)
unfolding purge get_life_time
purge-expired now key r v t h lo hi =
    let u = (get_life_time now r t).1 in
    (
      invalidate now r t.bad_link_lifetime u,
      ap (λ rows. purge_rows now rows t) h.rows ∙ expired_row now key r v t h lo hi,
      invalidate-rows now r t.bad_link_lifetime u ∙ h.rows,
      invalidate-flag now r t.bad_link_lifetime u h.flag,
    )

-- What a lookup makes of a purged table.
found :
    (now : ℕ) (key dst : Option Ipv4Address) (rt r : ℕ) (t u : RoutingTable)
    → purge now t ≡ ok u
    → u.ipv4_address_entry ≡ (key, r) ∷ []
    → same_key key dst ≡ true
    → lookup_valid_route now dst rt t
      ≡ ok (same_flag (u.entries r).flag valid, set_entry rt (u.entries r) u)
unfolding lookup_valid_route lookup_route find
found now key dst rt r t u e rows k =
    let row : find dst u.ipv4_address_entry ≡ some r = ap (find dst) rows ∙ rw k in
    let looked_up : lookup_route now dst rt t ≡ ok (true, set_entry rt (u.entries r) u) =
      bind_ok (purge now t) _ e ∙ ap (λ o. ok (copy rt o u)) row in
    bind_ok (lookup_route now dst rt t) _ looked_up ∙ rw (==_refl rt)

HasRoute-set_entry :
    (key : Option Ipv4Address) (rt r v : ℕ) (u : RoutingTable) (x : RoutingTableEntry)
    → (rt == r) ≡ false
    → HasRoute key r v u
    → HasRoute key r v (set_entry rt x u)
HasRoute-set_entry key rt r v u x n g =
    let entry : (set_entry rt x u).entries r ≡ u.entries r = ground arith in
    record {
      rows = g.rows;
      flag = ap (λ y. y.flag) entry ∙ g.flag;
      life_made = omega (arith, ap (λ y. y.life_time) entry, g.life_made);
      life_value = ap (λ y. u.times.at y.life_time) entry ∙ g.life_value;
    }

-- A table with one VALID route, whose Time reads `v` milliseconds: looked up at a time up to `v`, into
-- an entry that is not the table's, it is found; looked up again at a time that is no later than `v`
-- either, but later than what the first lookup has left of it, it is not valid. Times fit a long.
pub lookup_valid_route_twice :
    (first second : ℕ) (key dst : Option Ipv4Address) (rt r v : ℕ) (t : RoutingTable)
    → HasRoute key r v t
    → same_key key dst ≡ true
    → (rt == r) ≡ false
    → first ≤ v
    → second ≤ v
    → v < first + second
    → v < 2 ^ 63
    → (u w : RoutingTable) × (lookup_valid_route first dst rt t ≡ ok (true, u))
      × (lookup_valid_route second dst rt u ≡ ok (false, w))
lookup_valid_route_twice first second key dst rt r v t h k n a b c fits =
    let (u, e, g) = purge-alive first key r v t h a fits in
    let u' = set_entry rt (u.entries r) u in
    let (w, e', rows, flag) =
      purge-expired second key r (v - first) u' (HasRoute-set_entry key rt r _ u (u.entries r) n g)
        (omega arith) (omega arith) in
    (
      u',
      _,
      found first key dst rt r t u e g.rows k ∙ ap (λ f. ok (same_flag f valid, u')) g.flag,
      found second key dst rt r u' w e' rows k
          ∙ ap (λ f. ok (same_flag f valid, set_entry rt (w.entries r) w)) flag,
    )
