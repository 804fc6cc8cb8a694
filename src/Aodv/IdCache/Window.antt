-- ===== src/Aodv/IdCache/Window.antt =====
-- Within one lifetime the cache is a set: it answers whether the same question was asked before.
use osak_ext_ns.Prelude.{
  ℕ, ◌+◌, ◌^◌, ◌≤◌, ◌<◌, ◌≡◌, refl, sym, ap, subst, ◌∙◌, arith, Bool, true, false, ◌&&◌, ◌||◌,
  Option, some, List, [], ◌∷◌, ◌++◌, All, ◌==◌, ==_iff, if◌then◌else◌, inl, inr, Bool-cases,
  if_cases,
}
use osak_ext_ns.Result.{Result, ok, ◌>>=◌, deref, bind_ok, >>=-eq-ok, ok-injective}
use osak_ext_ns.Bytes.{Ipv4Address, address_equals}
use osak_ext_ns.Bytes.Flags.{bool_eq→eq}
use osak_ext_ns.Aodv.IdCache.{
  UniqueId, Identifier, by_uuid, by_int, unique_id, is_expired, IdCache, purge, same_id, is_seen,
  add_unless, is_duplicate, long_add, new_cache,
}
use osak_ext_ns.Aodv.IdCache.Purge.{purge_nothing}

pub record Query : Type 0 where
  pub time : ℕ
  pub address : Ipv4Address
  pub number : ℕ

-- The identifier of a query, of one of the two overloads.
abbrev pub ident : Bool → ℕ → Identifier
ident true n = by_int n
ident false n = by_uuid (some n)

-- IsDuplicate at each query's time, one after the other.
unfoldable pub run : Bool → List Query → IdCache → Result (List Bool × IdCache)
run kind [] c = ok ([], c)
run kind (q ∷ qs) c = do
  (seen, c) ← is_duplicate q.time (some q.address) (ident kind q.number) c
  (answers, c) ← run kind qs c
  ok (seen ∷ answers, c)

-- The ideal: `past` holds every earlier query.
unfoldable pub asked : Ipv4Address → ℕ → List Query → Bool
asked a n [] = false
asked a n (q ∷ past) = address_equals q.address (some a) && q.number == n || asked a n past

abbrev pub ideal : List Query → List Query → List Bool
ideal past [] = []
ideal past (q ∷ qs) = asked q.address q.number past ∷ ideal (q ∷ past) qs

-- All times from `start` to one lifetime later.
abbrev pub IsWindow : ℕ → ℕ → List Query → Type 0
IsWindow start lifetime qs = All (λ q. (start ≤ q.time) × (q.time ≤ start + lifetime)) qs

-- No entry expires before the window ends, and the cache finds what was asked.
record Tracks (start lifetime : ℕ) (kind : Bool) (c : IdCache) (past : List Query) : Type 0 where
  kept : c.lifetime ≡ lifetime
  alive : All (λ u. (start + lifetime ≤ u.expire) × (u.expire < 2 ^ 63)) c.id_cache
  finds :
      (a : Ipv4Address) (n : ℕ) → is_seen (some a) (ident kind n) c.id_cache ≡ ok (asked a n past)

not_expired :
    (limit now : ℕ) (us : List UniqueId)
    → now ≤ limit
    → limit < 2 ^ 63
    → All (λ u. (limit ≤ u.expire) × (u.expire < 2 ^ 63)) us
    → All (λ u. is_expired now u ≡ false) us
not_expired limit now [] h l a = tt
not_expired limit now (u ∷ us) h l ((lo, hi), a) = (ground arith, not_expired limit now us h l a)

All-snoc :
    (P : UniqueId → Type 0) (us : List UniqueId) (u : UniqueId)
    → All P us
    → P u
    → All P (us ++ (u ∷ []))
All-snoc P [] u a p = (p, tt)
All-snoc P (v ∷ us) u (q, a) p = (q, All-snoc P us u a p)

is_seen-snoc :
    (a : Option Ipv4Address) (id : Identifier) (us : List UniqueId) (u : UniqueId) {b : Bool}
    → is_seen a id us ≡ ok b
    → is_seen a id (us ++ (u ∷ [])) ≡ (if b then ok true else is_seen a id (u ∷ []))
unfolding is_seen ◌>>=◌
is_seen-snoc a id [] u h = ground arith
is_seen-snoc a id (v ∷ us) u {b} h =
    let (context, e, r) = >>=-eq-ok (deref v.context) _ h in
    elim (if_cases (address_equals context a && same_id v id) r) [
      | inl (t, k) ↦ rw (e, t, sym (ok-injective k))
      | inr (t, k) ↦ rw (e, t) (is_seen-snoc a id us u k)
    ]

address_equals→eq : (a b : Ipv4Address) → address_equals a (some b) ≡ true → a ≡ b
unfolding address_equals
address_equals→eq a b h = ground (arith, bool_eq→eq a.initialized b.initialized)

if_ok : (b : Bool) → (if b then ok true else ok false) ≡ ok b
if_ok true = refl
if_ok false = refl

if_or : (b m : Bool) → (if b then ok true else ok m) ≡ ok (m || b)
if_or true true = refl
if_or true false = refl
if_or false true = refl
if_or false false = refl

-- The one entry that a query adds answers to itself only.
is_seen-unique_id :
    (kind : Bool) (q : Query) (a : Ipv4Address) (n expire : ℕ)
    → is_seen (some a) (ident kind n) (unique_id (some q.address) (ident kind q.number) expire ∷ [])
      ≡ ok (address_equals q.address (some a) && q.number == n)
unfolding is_seen ◌>>=◌
is_seen-unique_id true q a n expire = if_ok _
is_seen-unique_id false q a n expire = if_ok _

and-eq-true : (x y : Bool) → (x && y) ≡ true → (x ≡ true) × (y ≡ true)
and-eq-true x y h = ground arith

-- A query that was asked before adds nothing to the past.
asked-again :
    (q : Query) (past : List Query) (a : Ipv4Address) (n : ℕ)
    → asked q.address q.number past ≡ true
    → asked a n (q ∷ past) ≡ asked a n past
unfolding asked
asked-again q past a n h = elim (Bool-cases (address_equals q.address (some a) && q.number == n)) [
  | inl e ↦
      let (ea, en) = and-eq-true _ _ e in
      rw e (
        sym (
          subst (λ x. asked x n past ≡ true) (address_equals→eq q.address a ea)
            (subst (λ k. asked q.address k past ≡ true) ((==_iff q.number n).0 en) h)))
  | inr e ↦ rw e
]

expire-unique_id :
    (kind : Bool) (a : Option Ipv4Address) (n expire : ℕ)
    → (unique_id a (ident kind n) expire).expire ≡ expire
expire-unique_id true a n expire = refl
expire-unique_id false a n expire = refl

no_wrap : (l m t : ℕ) → l ≡ m → t + m < 2 ^ 63 → long_add l t ≡ t + m
no_wrap l m t e h = omega arith

module _ (start lifetime : ℕ) (fits : start + lifetime + lifetime < 2 ^ 63) (kind : Bool) where
  Tracks-known :
      (q : Query) {c : IdCache} {past : List Query}
      → asked q.address q.number past ≡ true
      → Tracks start lifetime kind c past
      → Tracks start lifetime kind c (q ∷ past)
  unfolding asked
  Tracks-known q {past = past} h t = record {
    kept = t.kept;
    alive = t.alive;
    finds = λ a n. t.finds a n ∙ ap ok (sym (asked-again q past a n h));
  }

  Tracks-new :
      (q : Query) {c : IdCache} {past : List Query} (u : UniqueId)
      → u ≡ unique_id (some q.address) (ident kind q.number) (long_add c.lifetime q.time)
      → start ≤ q.time
      → q.time ≤ start + lifetime
      → Tracks start lifetime kind c past
      → Tracks start lifetime kind (record c { id_cache = c.id_cache ++ (u ∷ []) }) (q ∷ past)
  unfolding asked
  Tracks-new q {c} {past} u e lo hi t =
      let expire : u.expire ≡ q.time + lifetime =
        ap (λ v. v.expire) e
        ∙ expire-unique_id kind _ q.number _
        ∙ no_wrap c.lifetime lifetime q.time t.kept (omega arith) in
      record {
        kept = t.kept;
        alive = All-snoc _ c.id_cache u t.alive (omega arith, omega arith);
        finds = λ a n.
            is_seen-snoc (some a) (ident kind n) c.id_cache u (t.finds a n)
            ∙ ap (λ r. if asked a n past then ok true else r)
                (ap (λ v. is_seen (some a) (ident kind n) (v ∷ [])) e
                  ∙ is_seen-unique_id kind q a n _)
            ∙ if_or (asked a n past) _;
      }

  Tracks-add :
      (q : Query) {c : IdCache} {past : List Query} (b : Bool)
      → asked q.address q.number past ≡ b
      → start ≤ q.time
      → q.time ≤ start + lifetime
      → Tracks start lifetime kind c past
      → (c' : IdCache) × (add_unless b
            (unique_id (some q.address) (ident kind q.number) (long_add c.lifetime q.time))
            c
          ≡ (b, c'))
        × Tracks start lifetime kind c' (q ∷ past)
  Tracks-add q {c} true h lo hi t = (c, refl, Tracks-known q h t)
  Tracks-add q false h lo hi t = (_, refl, Tracks-new q _ refl lo hi t)

  is_duplicate-Tracks :
      (q : Query) {c : IdCache} {past : List Query}
      → start ≤ q.time
      → q.time ≤ start + lifetime
      → Tracks start lifetime kind c past
      → (c' : IdCache) × (is_duplicate q.time (some q.address) (ident kind q.number) c
          ≡ ok (asked q.address q.number past, c'))
        × Tracks start lifetime kind c' (q ∷ past)
  unfolding is_duplicate
  is_duplicate-Tracks q {c} {past} lo hi t =
      let (c', e, t') = Tracks-add q (asked q.address q.number past) refl lo hi t in
      (
        c',
        bind_ok (purge q.time c) _ (
              purge_nothing q.time c
                (not_expired (start + lifetime) q.time c.id_cache hi (omega arith) t.alive))
            ∙ bind_ok _ _ (t.finds q.address q.number)
            ∙ ap ok e,
        t',
      )

  run-Tracks :
      (qs : List Query) {c : IdCache} {past : List Query}
      → IsWindow start lifetime qs
      → Tracks start lifetime kind c past
      → (c' : IdCache) × (run kind qs c ≡ ok (ideal past qs, c'))
  unfolding run
  run-Tracks [] {c} w t = (c, refl)
  run-Tracks (q ∷ qs) ((lo, hi), w) t =
      let (c1, e, t1) = is_duplicate-Tracks q lo hi t in
      let (c2, e2) = run-Tracks qs w t1 in (c2, bind_ok _ _ e ∙ bind_ok _ _ e2)

-- A run of IsDuplicate on a new cache, all with UUIDs or all with ints, never throws and answers for
-- each query whether the same address and identifier were in an earlier one, when all its times are
-- within one lifetime from `start` (and a lifetime after that still fits a long).
pub run-ideal :
    (start lifetime : ℕ) (kind : Bool) (qs : List Query)
    → start + lifetime + lifetime < 2 ^ 63
    → IsWindow start lifetime qs
    → (c : IdCache) × (run kind qs (new_cache lifetime) ≡ ok (ideal [] qs, c))
unfolding asked is_seen
run-ideal start lifetime kind qs fits w =
    run-Tracks start lifetime fits kind qs w
      (record { kept = refl; alive = tt; finds = λ a n. refl })
