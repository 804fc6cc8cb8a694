-- ===== src/Aodv/Neighbors/Started.antt =====
-- The timer of a neighbour list, which nothing starts: java/main/osak/ext/ns3/aodv/Neighbors.java. What
-- a call that throws leaves behind is not modelled.
use osak_ext_ns.Prelude.{
  ℕ, ◌≡◌, ◌≢◌, refl, sym, ap, subst, ◌∙◌, inl, inr, Bool-cases, Bool, Option, none, List, [], ◌∷◌,
  ◌++◌,
}
use osak_ext_ns.Result.{Result, ok, fault, Fault, ◌>>=◌, >>=-eq-ok, ok-state}
use osak_ext_ns.Aodv.RequestQueue.{AddressObject}
use osak_ext_ns.Aodv.Time.{Times}
use osak_ext_ns.Aodv.Timer.{cancel}
use osak_ext_ns.Aodv.ArpCache.{Arp, mac_copy_from}
use osak_ext_ns.Aodv.Neighbors.{
  Neighbor, Neighbors, new_neighbors, remove_closed, schedule_timer, report, has_address,
  find_neighbor, purge_entries, purge, get_expire_time, is_neighbor, refresh_first,
  lookup_mac_address, open_link, update, clear, add_arp_cache, del_arp_cache, set_callback,
  close_links, process_tx_error,
}

-- A call of a Neighbors object that returns, and the object after it.
pub data Call : Neighbors → Neighbors → Type 0 where
  purges : (now : ℕ) (n m : Neighbors) → purge now n ≡ ok m → Call n m
  gets_expire_time :
      (now : ℕ) (addr : Option AddressObject) (left : ℕ) (n m : Neighbors)
      → get_expire_time now addr n ≡ ok (left, m)
      → Call n m
  asks :
      (now : ℕ) (addr : Option AddressObject) (answer : Bool) (n m : Neighbors)
      → is_neighbor now addr n ≡ ok (answer, m)
      → Call n m
  updates :
      (now : ℕ) (a : Arp) (addr : Option AddressObject) (expire : ℕ) (n m : Neighbors)
      → update now a addr expire n ≡ ok m
      → Call n m
  schedules : (n m : Neighbors) → schedule_timer n ≡ ok m → Call n m
  clears : (n : Neighbors) → Call n (clear n)
  adds_arp_cache : (a : ℕ) (n : Neighbors) → Call n (add_arp_cache a n)
  dels_arp_cache : (a : ℕ) (n : Neighbors) → Call n (del_arp_cache a n)
  sets_callback : (cb : Bool) (n : Neighbors) → Call n (set_callback cb n)
  errs :
      (now : ℕ) (dst_mac : List ℕ) (n m : Neighbors)
      → process_tx_error now dst_mac n ≡ ok m
      → Call n m

-- The objects that a new one can become.
pub data IsUsed : Neighbors → Type 0 where
  is_new : (delay : ℕ) (ts : Times) → IsUsed (new_neighbors delay ts)
  is_called : (n m : Neighbors) → IsUsed n → Call n m → IsUsed m

-- No neighbour, and no task that was ever handed to the executor.
pub record IsIdle (n : Neighbors) : Type 0 where
  pub empty : n.nb ≡ []
  pub stopped : n.timer.res ≡ none
  pub unsubmitted : n.timer.submitted ≡ []

pub schedule_timer-stopped :
    (n : Neighbors) → n.timer.res ≡ none → schedule_timer n ≡ fault Fault.null_pointer
unfolding schedule_timer cancel ◌>>=◌
schedule_timer-stopped n s = rw s refl

-- A Purge with a neighbour throws, as the timer was never started.
pub purge_entries-stopped :
    (now : ℕ) (is : List Neighbor) (n : Neighbors) {m : Neighbors}
    → n.timer.res ≡ none
    → purge_entries now is n ≡ ok m
    → (m ≡ n) × (is ≡ [])
unfolding purge_entries
purge_entries-stopped now [] n s h = (cc, refl)
purge_entries-stopped now (i ∷ is) n s h =
    let (others, _, t) = >>=-eq-ok (remove_closed now n.times (i ∷ is)) _ h in
    let x = schedule_timer-stopped (record (report now n) { nb = others }) s in cc (x, t)

purge-IsIdle : (now : ℕ) (n : Neighbors) {m : Neighbors} → IsIdle n → purge now n ≡ ok m → IsIdle m
unfolding purge
purge-IsIdle now n i h =
    let (e, _) = purge_entries-stopped now n.nb n i.stopped h in subst IsIdle (sym e) i

append_one : (is : List Neighbor) (i : Neighbor) → is ++ (i ∷ []) ≢ []
append_one [] i h = cc
append_one (j ∷ is) i h = cc

-- The neighbour that `Update` adds makes the Purge at its end throw.
open_link-throws :
    (now : ℕ) (a : Arp) (addr : Option AddressObject) (expire : ℕ) (n : Neighbors) {m : Neighbors}
    → n.timer.res ≡ none
    → open_link now a addr expire n ≢ ok m
unfolding open_link purge
open_link-throws now a addr expire n s h =
    let (mac, _, t) = >>=-eq-ok (lookup_mac_address now a n.times addr n.arp) _ h in
    let (_, e) = purge_entries-stopped now _ _ s t in append_one n.nb _ e

pub refresh_first-unknown :
    (now : ℕ) (a : Arp) (caches : List ℕ) (addr : Option AddressObject) (expire : ℕ)
    → (is : List Neighbor) (ts : Times) → find_neighbor addr is ≡ none
    → refresh_first now a caches addr expire is ts ≡ ok none
unfolding find_neighbor refresh_first ◌>>=◌
refresh_first-unknown now a caches addr expire [] ts h = refl
refresh_first-unknown now a caches addr expire (i ∷ is) ts h =
    elim (Bool-cases (has_address addr i)) [
      | inl e ↦ cc (rw e at h)
      | inr e ↦ rw (e, refresh_first-unknown now a caches addr expire is ts (rw e at h))
    ]

pub update-unknown :
    (now : ℕ) (a : Arp) (addr : Option AddressObject) (expire : ℕ) (n : Neighbors)
    → find_neighbor addr n.nb ≡ none
    → update now a addr expire n ≡ open_link now a addr expire n
unfolding update ◌>>=◌
update-unknown now a addr expire n h =
    rw (refresh_first-unknown now a n.arp addr expire n.nb n.times h) refl

never_ok : {T : Type 0} (r : Result T) → ((t : T) → r ≢ ok t) → (e : Fault) × (r ≡ fault e)
never_ok (ok t) h = elim (h t refl) [ ]
never_ok (fault e) h = (e, refl)

-- If the timer was never started, Update of an address that no neighbour has throws.
pub update-throws :
    (now : ℕ) (a : Arp) (addr : Option AddressObject) (expire : ℕ) (n : Neighbors)
    → n.timer.res ≡ none
    → find_neighbor addr n.nb ≡ none
    → (e : Fault) × (update now a addr expire n ≡ fault e)
update-throws now a addr expire n s h =
    never_ok (update now a addr expire n) (λ m x.
      open_link-throws now a addr expire n s (sym (update-unknown now a addr expire n h) ∙ x))

-- What begins with a Purge, and changes only Times after it.
unfoldable with_times : {A : Type 0} → (Neighbors → A × Times) → Neighbors → Result (A × Neighbors)
with_times f p = let (x, ts) = f p in ok (x, record p { times = ts })

then_kept :
    {A : Type 0} (now : ℕ) (n : Neighbors) {m : Neighbors} {b : A}
    → (f : Neighbors → A × Times) → IsIdle n
    → (purge now n >>= with_times f) ≡ ok (b, m)
    → IsIdle m
unfolding with_times
then_kept now n f i h =
    let (p, e, t) = >>=-eq-ok (purge now n) _ h in
    let j = purge-IsIdle now n i e in
    subst IsIdle (ok-state t)
      (record { empty = j.empty; stopped = j.stopped; unsubmitted = j.unsubmitted })

nobody : (addr : Option AddressObject) (n : Neighbors) → IsIdle n → find_neighbor addr n.nb ≡ none
unfolding find_neighbor
nobody addr n i = rw i.empty refl

call-IsIdle : (n m : Neighbors) → Call n m → IsIdle n → IsIdle m
unfolding with_times get_expire_time is_neighbor clear process_tx_error close_links
call-IsIdle _ _ (Call.purges now n m h) i = purge-IsIdle now n i h
call-IsIdle _ _ (Call.gets_expire_time now addr left n m h) i = then_kept now n _ i h
call-IsIdle _ _ (Call.asks now addr answer n m h) i =
    let (p, e, t) = >>=-eq-ok (purge now n) _ h in
    subst IsIdle (ok-state t) (purge-IsIdle now n i e)
call-IsIdle _ _ (Call.updates now a addr expire n m h) i =
    let (e, f) = update-throws now a addr expire n i.stopped (nobody addr n i) in cc (f, h)
call-IsIdle _ _ (Call.schedules n m h) i = cc (schedule_timer-stopped n i.stopped, h)
call-IsIdle _ _ (Call.clears n) i = record {
  empty = refl;
  stopped = i.stopped;
  unsubmitted = i.unsubmitted;
}
call-IsIdle _ _ (Call.adds_arp_cache a n) i = record {
  empty = i.empty;
  stopped = i.stopped;
  unsubmitted = i.unsubmitted;
}
call-IsIdle _ _ (Call.dels_arp_cache a n) i = record {
  empty = i.empty;
  stopped = i.stopped;
  unsubmitted = i.unsubmitted;
}
call-IsIdle _ _ (Call.sets_callback cb n) i = record {
  empty = i.empty;
  stopped = i.stopped;
  unsubmitted = i.unsubmitted;
}
call-IsIdle _ _ (Call.errs now dst_mac n m h) i =
    let (mac, _, t) = >>=-eq-ok (mac_copy_from dst_mac) _ h in
    purge-IsIdle now (record n { nb = close_links mac n.nb })
      (record {
        empty = ap (close_links mac) i.empty;
        stopped = i.stopped;
        unsubmitted = i.unsubmitted;
      })
      t

-- Whatever methods of a new neighbour list are called and return, it has no neighbour, and no task was
-- handed to the executor.
pub IsUsed-IsIdle : (n : Neighbors) → IsUsed n → IsIdle n
IsUsed-IsIdle _ (IsUsed.is_new delay ts) = record {
  empty = refl;
  stopped = refl;
  unsubmitted = refl;
}
IsUsed-IsIdle _ (IsUsed.is_called n m u c) = call-IsIdle n m c (IsUsed-IsIdle n u)
