-- ===== src/Aodv/RequestQueue/Drift.antt =====
-- What Enqueue does to the Time that the entries of a queue share
-- (java/main/osak/ext/ns3/aodv/RequestQueue.java).
use osak_ext_ns.Prelude.{
  ℕ, suc, ◌+◌, ◌-◌, ◌*◌, ◌^◌, ◌≤◌, ◌<◌, ◌≡◌, refl, ap, subst, ◌∙◌, arith, Bool, true, false, List,
  [], ◌∷◌, length, All, if◌then◌else◌,
}
use osak_ext_ns.Result.{ok}
use osak_ext_ns.Aodv.Time.{Times, in_ms, minus, plus, is_negative, sub}
use osak_ext_ns.Aodv.Time.Laws.{after, sub_ms, after-new, after-argument}
use osak_ext_ns.Aodv.RequestQueue.{
  QueueEntry, RequestQueue, expires, drop_in_loop, purge_rest, purge, is_queued, enqueue,
}
use osak_ext_ns.Aodv.RequestQueue.Bounded.{IsBounded, enqueue_postpones}

-- The Time object `r` was made, and reads `v` milliseconds.
pub record Reads (r v : ℕ) (ts : Times) : Type 0 where
  pub reading : ts.at r ≡ in_ms v
  pub made : r < ts.next

minus-exact : (v now : ℕ) → now ≤ v → v < 2 ^ 63 → minus v now ≡ v - now
minus-exact v now h l = omega arith

sub_now :
    (r v now : ℕ) (ts : Times)
    → Reads r v ts
    → now ≤ v
    → v < 2 ^ 63
    → sub r (in_ms now) ts ≡ (ts.next, after r (v - now) ts)
sub_now r v now ts h room small =
    sub_ms r now ts (ap (λ t. t.unit) h.reading)
    ∙ ap (λ k. (ts.next, after r k ts))
        (ap (λ t. minus t.value now) h.reading ∙ minus-exact v now room small)

not_negative : (n : ℕ) → n < 2 ^ 63 → is_negative n ≡ false
not_negative n h = ground arith

after-is_negative :
    (r n : ℕ) (ts : Times) → n < 2 ^ 63 → is_negative ((after r n ts).at ts.next).value ≡ false
after-is_negative r n ts h = ap (λ t. is_negative t.value) (after-new r n ts) ∙ not_negative n h

after-Reads : (r v n : ℕ) (ts : Times) → Reads r v ts → Reads r n (after r n ts)
after-Reads r v n ts h = record { reading = after-argument r n ts; made = omega (arith, h.made) }

-- One entry that the loop of Purge looks at.
expires_now :
    (now r v : ℕ) (e : QueueEntry) (q : RequestQueue)
    → e.expire ≡ r
    → Reads r v q.times
    → now ≤ v
    → v < 2 ^ 63
    → expires now e q ≡ (false, record q { times = after r (v - now) q.times })
expires_now now r v e q same h room small =
    ap
      (λ (x : ℕ).
        let (s, ts) = sub x (in_ms now) q.times in
        (is_negative (ts.at s).value, record q { times = ts }))
      same
    ∙ ap
        (λ (x : ℕ × Times).
          let (s, ts) = x in (is_negative (ts.at s).value, record q { times = ts }))
        (sub_now r v now q.times h room small)
    ∙ ap (λ b. (b, record q { times = after r (v - now) q.times }))
        (after-is_negative r (v - now) q.times (omega arith))

rest-of :
    (now : ℕ) (i : QueueEntry) (rest : List QueueEntry) (q q' : RequestQueue)
    → expires now i q ≡ (false, q')
    → purge_rest now (i ∷ rest) q ≡ purge_rest now rest q'
unfolding purge_rest
rest-of now i rest q q' h =
    ap
      (λ (x : Bool × RequestQueue).
        let (expired, q') = x in if expired then drop_in_loop i rest q' else purge_rest now rest q')
      h

times_suc : (n now : ℕ) → suc n * now ≡ now + n * now
times_suc n now = grind arith

-- Purge, of entries that share the Time `r` and do not expire.
purge_rest-Reads :
    (now r v : ℕ) (es : List QueueEntry) (q : RequestQueue)
    → All (λ e. e.expire ≡ r) es
    → Reads r v q.times
    → length es * now ≤ v
    → v < 2 ^ 63
    → (ts : Times) × (purge_rest now es q ≡ ok (record q { times = ts }))
      × Reads r (v - length es * now) ts
unfolding purge_rest
purge_rest-Reads now r v [] q a h room small =
    (q.times, refl, subst (λ n. Reads r n q.times) (omega arith) h)
purge_rest-Reads now r v (e ∷ es) q (same, a) h room small =
    let long = times_suc (length es) now in
    let first : now ≤ v = omega (arith, long, room) in
    let (ts, run, reads) =
      purge_rest-Reads now r (v - now) es (record q { times = after r (v - now) q.times }) a
        (after-Reads r v (v - now) q.times h) (omega (arith, long, room)) (omega arith) in
    (
      ts,
      rest-of now e es q _ (expires_now now r v e q same h first small) ∙ run,
      subst (λ n. Reads r n ts) (omega (arith, long, room)) reads,
    )

-- When Enqueue at `now` lets in a packet (it is not queued, and there is room) on a queue of k entries
-- that share its Time, which reads v milliseconds, at least k times `now`, both numbers below 2 ^ 63:
-- Purge, which takes `now` off that Time once for each entry, removes none, and the Time of all k + 1
-- entries is then v - k * now + now. So it is `now` later with no entry, as it was with one, and from
-- then on earlier with each further one.
pub enqueue_drifts :
    (now v : ℕ) (entry : QueueEntry) (q : RequestQueue)
    → IsBounded q
    → Reads q.queue_timeout v q.times
    → length q.queue * now ≤ v
    → v < 2 ^ 63
    → now < 2 ^ 63
    → is_queued entry q.queue ≡ ok false
    → suc (length q.queue) ≤ q.max_len
    → (r : RequestQueue) × (enqueue now entry q ≡ ok (true, r))
      × (length r.queue ≡ suc (length q.queue))
      × All (λ e. (r.times.at e.expire).value ≡ v - length q.queue * now + now) r.queue
unfolding purge
enqueue_drifts now v entry q b h room small soon n free =
    let (ts, run, reads) = purge_rest-Reads now q.queue_timeout v q.queue q b.shared h room small in
    let k = length q.queue * now in
    let late : plus (v - k) now ≡ v - k + now = omega (arith, small, soon) in
    let q1 : RequestQueue = record q { times = ts } in
    let b1 : IsBounded q1 = record { bound = b.bound; positive = b.positive; shared = b.shared } in
    let (r, done, longer, all) =
      enqueue_postpones now entry q q1 run n b1 free (ap (λ t. t.unit) reads.reading) in
    (
      r,
      done,
      longer,
      subst (λ x. All (λ e. (r.times.at e.expire).value ≡ x) r.queue)
          (ap (λ t. plus t.value now) reads.reading ∙ late) all,
    )
