-- ===== src/Aodv/RequestQueue/Bounded.antt =====
-- How long the queue gets, and whose Times its entries have.
use osak_ext_ns.Prelude.{
  ℕ, suc, ◌≤◌, ◌≡◌, refl, sym, ap, subst, ◌∙◌, arith, Bool, true, false, Option, List, [], ◌∷◌,
  ◌++◌, length, length-append, All, ◌==◌, ==_refl, inl, inr, if_cases,
}
use osak_ext_ns.Result.{Result, ok, ◌>>=◌, >>=-eq-ok, ok-injective, ok-state, bind_ok}
use osak_ext_ns.Aodv.Time.{Times, milliseconds, plus, add_to, in_ms}
use osak_ext_ns.Bytes.{Ipv4Address}
use osak_ext_ns.Aodv.RequestQueue.{
  QueueEntry, RequestQueue, purge, make_room, admit, is_queued, enqueue, dequeue,
  drop_packet_with_dst, get_size, new_queue,
}
use osak_ext_ns.Aodv.RequestQueue.Shrinks.{
  Shrinks, Shrinks-trans, purge-Shrinks, dequeue_rest-Shrinks, drop_rest-Shrinks, make_room-HasRoom,
}

-- A queue of at most its maximal length, which is not 0, whose entries all have its own Time object.
pub record IsBounded (q : RequestQueue) : Type 0 where
  pub bound : length q.queue ≤ q.max_len
  pub positive : 1 ≤ q.max_len
  pub shared : All (λ e. e.expire ≡ q.queue_timeout) q.queue

Shrinks-IsBounded : (q r : RequestQueue) → Shrinks q r → IsBounded q → IsBounded r
Shrinks-IsBounded q r s b = record {
  bound = omega (arith, s.shorter, s.max_len, b.bound);
  positive = omega (arith, s.max_len, b.positive);
  shared = subst (λ x. All (λ e. e.expire ≡ x) r.queue) (sym s.queue_timeout) (s.among _ b.shared);
}

All-snoc :
    (x : ℕ) (es : List QueueEntry) (e : QueueEntry)
    → All (λ e. e.expire ≡ x) es
    → e.expire ≡ x
    → All (λ e. e.expire ≡ x) (es ++ (e ∷ []))
All-snoc x [] e a h = (h, tt)
All-snoc x (i ∷ es) e (b, a) h = (b, All-snoc x es e a h)

admit-IsBounded :
    (now : ℕ) (entry : QueueEntry) (q : RequestQueue) {r : RequestQueue}
    → admit now entry q ≡ ok r
    → IsBounded q
    → IsBounded r
unfolding admit
admit-IsBounded now entry q h b =
    let (r1, e, h1) = >>=-eq-ok _ _ h in
    let room = make_room-HasRoom _ b.bound e in
    let s = room.shrinks in
    subst IsBounded (ok-injective h1) (record {
      bound = omega (
        arith,
        length-append r1.queue (record entry { expire = q.queue_timeout } ∷ []),
        room.room,
        s.max_len,
      );
      positive = omega (arith, s.max_len, b.positive);
      shared =
          subst
            (λ x.
              All (λ e. e.expire ≡ x)
                (r1.queue ++ (record entry { expire = q.queue_timeout } ∷ [])))
            (sym s.queue_timeout) (All-snoc _ r1.queue _ (s.among _ b.shared) refl);
    })

enqueue-IsBounded :
    (now : ℕ) (entry : QueueEntry) (q : RequestQueue) {a : Bool} {r : RequestQueue}
    → enqueue now entry q ≡ ok (a, r)
    → IsBounded q
    → IsBounded r
unfolding enqueue
enqueue-IsBounded now entry q h b =
    let (q1, e, h1) = >>=-eq-ok _ _ h in
    let b1 = Shrinks-IsBounded q q1 (purge-Shrinks now q e) b in
    let (queued, e2, h2) = >>=-eq-ok _ _ h1 in
    elim (if_cases queued h2) [
      | inl (t, k) ↦ subst IsBounded (ok-state k) b1
      | inr (t, k) ↦
          let (q2, e3, k3) = >>=-eq-ok _ _ k in
          subst IsBounded (ok-state k3) (admit-IsBounded now entry q1 e3 b1)
    ]

-- The calls of a client, at the clock's readings.
pub data Call : Type 0 where
  to_enqueue : ℕ → QueueEntry → Call
  to_dequeue to_drop : ℕ → Option Ipv4Address → Call
  to_count : ℕ → Call

unfoldable pub call : Call → RequestQueue → Result RequestQueue
call (to_enqueue now e) q = enqueue now e q >>= λ (a, r). ok r
call (to_dequeue now dst) q = dequeue now dst q >>= λ (a, r). ok r
call (to_drop now dst) q = drop_packet_with_dst now dst q
call (to_count now) q = get_size now q >>= λ (n, r). ok r

unfoldable pub run : List Call → RequestQueue → Result RequestQueue
run [] q = ok q
run (c ∷ cs) q = call c q >>= run cs

call-IsBounded :
    (c : Call) (q : RequestQueue) {r : RequestQueue} → call c q ≡ ok r → IsBounded q → IsBounded r
unfolding call dequeue drop_packet_with_dst get_size
call-IsBounded (to_enqueue now e) q h b =
    let ((a, r), e1, k) = >>=-eq-ok _ _ h in
    subst IsBounded (ok-injective k) (enqueue-IsBounded now e q e1 b)
call-IsBounded (to_dequeue now dst) q h b =
    let ((a, r), e1, k) = >>=-eq-ok _ _ h in
    let (q1, e2, k2) = >>=-eq-ok _ _ e1 in
    subst IsBounded (ok-injective k) (
      Shrinks-IsBounded q r
        (Shrinks-trans q q1 r (purge-Shrinks now q e2) (dequeue_rest-Shrinks dst q1.queue q1 k2)) b)
call-IsBounded (to_drop now dst) q {r} h b =
    let (q1, e2, k2) = >>=-eq-ok _ _ h in
    Shrinks-IsBounded q r
      (Shrinks-trans q q1 r (purge-Shrinks now q e2) (drop_rest-Shrinks dst q1.queue q1 k2)) b
call-IsBounded (to_count now) q h b =
    let ((n, r), e1, k) = >>=-eq-ok _ _ h in
    let (q1, e2, k2) = >>=-eq-ok _ _ e1 in
    subst IsBounded (ok-state k2 ∙ ok-injective k)
      (Shrinks-IsBounded q q1 (purge-Shrinks now q e2) b)

run-from :
    (cs : List Call) (q : RequestQueue) {r : RequestQueue}
    → run cs q ≡ ok r
    → IsBounded q
    → IsBounded r
unfolding run
run-from [] q h b = subst IsBounded (ok-injective h) b
run-from (c ∷ cs) q h b =
    let (q1, e, k) = >>=-eq-ok _ _ h in run-from cs q1 k (call-IsBounded c q e b)

-- Whatever calls of Enqueue, Dequeue, DropPacketWithDst and GetSize a queue with a maximal length of
-- at least 1 has had since it was made, if none of them threw, it holds at most that many entries,
-- and all of them have the queue's m_queueTimeout object as their expire time.
pub run-IsBounded :
    (max_len timeout : ℕ) (times : Times) (cs : List Call) (q : RequestQueue)
    → 1 ≤ max_len
    → run cs (new_queue max_len timeout times) ≡ ok q
    → IsBounded q
run-IsBounded max_len timeout times cs q m h =
    run-from cs _ h (record { bound = omega arith; positive = m; shared = tt })

added :
    (r now : ℕ) (ts : Times)
    → (ts.at r).unit ≡ milliseconds
    → ((add_to r (in_ms now) ts).at r).value ≡ plus (ts.at r).value now
unfolding add_to
added r now ts u = rw (u, ==_refl r)

lt-neq : (a b : ℕ) → suc a ≤ b → (a == b) ≡ false
lt-neq a b h = ground arith

make_room_already : (q : RequestQueue) → suc (length q.queue) ≤ q.max_len → make_room q ≡ ok q
make_room_already q h = rw (lt-neq (length q.queue) q.max_len h)

All-value :
    (v t : ℕ) (ts : Times) (es : List QueueEntry)
    → (ts.at t).value ≡ v
    → All (λ e. e.expire ≡ t) es
    → All (λ e. (ts.at e.expire).value ≡ v) es
All-value v t ts [] h a = tt
All-value v t ts (e ∷ es) h (x, a) = (ap (λ y. (ts.at y).value) x ∙ h, All-value v t ts es h a)

-- When Enqueue at `now` lets in a packet (Purge succeeds, the packet is not queued, and there is
-- room), on a queue whose entries share its Time, in milliseconds: the Time of every queued entry,
-- old and new, is `now` later than after Purge.
pub enqueue_postpones :
    (now : ℕ) (entry : QueueEntry) (q q1 : RequestQueue)
    → purge now q ≡ ok q1
    → is_queued entry q1.queue ≡ ok false
    → IsBounded q1
    → suc (length q1.queue) ≤ q1.max_len
    → (q1.times.at q1.queue_timeout).unit ≡ milliseconds
    → (r : RequestQueue) × (enqueue now entry q ≡ ok (true, r))
      × (length r.queue ≡ suc (length q1.queue))
      × All
          (λ e. (r.times.at e.expire).value ≡ plus (q1.times.at q1.queue_timeout).value now)
          r.queue
unfolding enqueue admit
enqueue_postpones now entry q q1 e n b room ms =
    let ts = add_to q1.queue_timeout (in_ms now) q1.times in
    let new : QueueEntry = record entry { expire = q1.queue_timeout } in
    let r : RequestQueue = record q1 { queue = q1.queue ++ (new ∷ []); times = ts } in
    (
      r,
      bind_ok (purge now q) _ e
          ∙ bind_ok (is_queued entry q1.queue) _ n
          ∙ bind_ok _ _ (bind_ok _ _ (make_room_already (record q1 { times = ts }) room)),
      omega (arith, length-append q1.queue (new ∷ [])),
      All-value _ q1.queue_timeout ts r.queue (added q1.queue_timeout now q1.times ms)
          (All-snoc _ q1.queue new b.shared refl),
    )
