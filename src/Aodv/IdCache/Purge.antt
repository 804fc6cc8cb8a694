-- ===== src/Aodv/IdCache/Purge.antt =====
-- What Purge removes, and when it throws.
use osak_ext_ns.Prelude.{
  ℕ, ◌≡◌, refl, true, false, List, [], ◌∷◌, ◌++◌, length, All, ltb, if◌then◌else◌,
}
use osak_ext_ns.Result.{ok, fault, Fault, ◌>>=◌, bind_if}
use osak_ext_ns.Aodv.IdCache.{UniqueId, is_expired, purge_list, IdCache, purge}

pub purge_list_nothing :
    (now : ℕ) (us : List UniqueId)
    → All (λ u. is_expired now u ≡ false) us
    → purge_list now us ≡ ok us
unfolding purge_list ◌>>=◌
purge_list_nothing now [] h = refl
purge_list_nothing now (u ∷ us) (h, hs) = rw (h, purge_list_nothing now us hs)

pub purge_list_first :
    (now : ℕ) (us : List UniqueId) (u : UniqueId) (vs : List UniqueId)
    → All (λ u. is_expired now u ≡ false) us
    → is_expired now u ≡ true
    → purge_list now (us ++ (u ∷ vs))
      ≡ (if ltb 1 (length vs) then fault Fault.concurrent_modification else ok (us ++ vs))
unfolding purge_list ◌>>=◌
purge_list_first now [] u vs h e = rw e
purge_list_first now (w ∷ us) u vs (h, hs) e =
    rw (h, purge_list_first now us u vs hs e) (bind_if (ltb 1 (length vs)) _ _ _)

-- Purge removes the first expired entry only, and only if at most one entry is behind it, which is
-- then not looked at; with two or more behind it, Purge ends in a ConcurrentModificationException.
pub purge_first :
    (now : ℕ) (c : IdCache) (us : List UniqueId) (u : UniqueId) (vs : List UniqueId)
    → c.id_cache ≡ us ++ (u ∷ vs)
    → All (λ u. is_expired now u ≡ false) us
    → is_expired now u ≡ true
    → purge now c ≡ (
        if ltb 1 (length vs)
        then fault Fault.concurrent_modification
        else ok (record c { id_cache = us ++ vs }))
unfolding purge ◌>>=◌
purge_first now c us u vs e h x =
    rw (e, purge_list_first now us u vs h x) (bind_if (ltb 1 (length vs)) _ _ _)

pub purge_nothing :
    (now : ℕ) (c : IdCache) → All (λ u. is_expired now u ≡ false) c.id_cache → purge now c ≡ ok c
unfolding purge ◌>>=◌
purge_nothing now c h = rw (purge_list_nothing now c.id_cache h)
