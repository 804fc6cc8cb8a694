-- ===== src/Aodv/RequestQueue/Shrinks.antt =====
-- What a queue loses, and what stays, when entries leave it.
use osak_ext_ns.Prelude.{
  ℕ, suc, ◌≤◌, ◌≡◌, refl, sym, ap, subst, ◌∙◌, arith, Bool, Option, List, [], ◌∷◌, ◌++◌, length,
  All, ltb, ◌==◌, inl, inr, if_cases,
}
use osak_ext_ns.Result.{ok, >>=-eq-ok, ok-injective, ok-state}
use osak_ext_ns.Bytes.{Ipv4Address}
use osak_ext_ns.Aodv.RequestQueue.{
  QueueEntry, RequestQueue, remove_entry, drop_entry, drop_in_loop, expires, purge_rest, purge,
  drop_first, make_room, dequeue_rest, drop_rest,
}

-- `q` has become `r` by leaving entries out.
pub record Shrinks (q r : RequestQueue) : Type 0 where
  pub shorter : length r.queue ≤ length q.queue
  pub among : (x : ℕ) → All (λ e. e.expire ≡ x) q.queue → All (λ e. e.expire ≡ x) r.queue
  pub max_len : r.max_len ≡ q.max_len
  pub queue_timeout : r.queue_timeout ≡ q.queue_timeout

pub Shrinks-refl : (q : RequestQueue) → Shrinks q q
Shrinks-refl q = record {
  shorter = omega arith;
  among = λ x a. a;
  max_len = refl;
  queue_timeout = refl;
}

pub Shrinks-trans : (q r s : RequestQueue) → Shrinks q r → Shrinks r s → Shrinks q s
Shrinks-trans q r s a b = record {
  shorter = omega (arith, a.shorter, b.shorter);
  among = λ x h. b.among x (a.among x h);
  max_len = b.max_len ∙ a.max_len;
  queue_timeout = b.queue_timeout ∙ a.queue_timeout;
}

length-remove_entry :
    (i : QueueEntry) (es : List QueueEntry) {others : List QueueEntry}
    → remove_entry i es ≡ ok others
    → length others ≤ length es
unfolding remove_entry
length-remove_entry i [] h = omega (arith, ap length (ok-injective h))
length-remove_entry i (e ∷ es) h =
    let (same, s, r) = >>=-eq-ok _ _ h in
    elim (if_cases same r) [
      | inl (t, k) ↦ omega (arith, ap length (ok-injective k))
      | inr (t, k) ↦
          let (others, o, k') = >>=-eq-ok _ _ k in
          omega (arith, ap length (ok-injective k'), length-remove_entry i es o)
    ]

remove_entry-All :
    (x : ℕ) (i : QueueEntry) (es : List QueueEntry) {others : List QueueEntry}
    → remove_entry i es ≡ ok others
    → All (λ e. e.expire ≡ x) es
    → All (λ e. e.expire ≡ x) others
unfolding remove_entry
remove_entry-All x i [] h a = subst (All (λ e. e.expire ≡ x)) (ok-injective h) tt
remove_entry-All x i (e ∷ es) h (b, a) =
    let (same, s, r) = >>=-eq-ok _ _ h in
    elim (if_cases same r) [
      | inl (t, k) ↦ subst (All (λ e. e.expire ≡ x)) (ok-injective k) a
      | inr (t, k) ↦
          let (others, o, k') = >>=-eq-ok _ _ k in
          subst (All (λ e. e.expire ≡ x)) (ok-injective k') (b, remove_entry-All x i es o a)
    ]

drop_entry-eq-ok :
    (e : QueueEntry) (q : RequestQueue) {r : RequestQueue}
    → drop_entry e q ≡ ok r
    → r ≡ record q { dropped = q.dropped ++ (e ∷ []) }
unfolding drop_entry
drop_entry-eq-ok e q h = elim (if_cases e.error_callback h) [
  | inl (t, k) ↦ sym (ok-injective k)
  | inr (t, k) ↦ cc
]

drop_entry-Shrinks :
    (e : QueueEntry) (q : RequestQueue) {r : RequestQueue} → drop_entry e q ≡ ok r → Shrinks q r
drop_entry-Shrinks e q h =
    subst (Shrinks q) (sym (drop_entry-eq-ok e q h))
      (record { shorter = omega arith; among = λ x a. a; max_len = refl; queue_timeout = refl })

removed-Shrinks :
    (i : QueueEntry) (q : RequestQueue) {others : List QueueEntry}
    → remove_entry i q.queue ≡ ok others
    → Shrinks q (record q { queue = others })
removed-Shrinks i q h = record {
  shorter = length-remove_entry i q.queue h;
  among = λ x a. remove_entry-All x i q.queue h a;
  max_len = refl;
  queue_timeout = refl;
}

drop_in_loop-Shrinks :
    (i : QueueEntry) (rest : List QueueEntry) (q : RequestQueue) {r : RequestQueue}
    → drop_in_loop i rest q ≡ ok r
    → Shrinks q r
unfolding drop_in_loop
drop_in_loop-Shrinks i rest q h =
    let (q1, e1, h1) = >>=-eq-ok _ _ h in
    let (others, e2, h2) = >>=-eq-ok _ _ h1 in
    elim (if_cases (ltb 1 (length rest)) h2) [
      | inl (t, k) ↦ cc
      | inr (t, k) ↦
          subst (Shrinks q) (ok-injective k)
            (Shrinks-trans q q1 _ (drop_entry-Shrinks i q e1) (removed-Shrinks i q1 e2))
    ]

purge_rest-Shrinks :
    (now : ℕ) (rest : List QueueEntry) (q : RequestQueue) {r : RequestQueue}
    → purge_rest now rest q ≡ ok r
    → Shrinks q r
unfolding purge_rest
purge_rest-Shrinks now [] q h = subst (Shrinks q) (ok-injective h) (Shrinks-refl q)
purge_rest-Shrinks now (i ∷ rest) q {r} h =
    let looked : Shrinks q (expires now i q).1 = record {
      shorter = omega arith;
      among = λ x a. a;
      max_len = refl;
      queue_timeout = refl;
    } in
    elim (if_cases (expires now i q).0 h) [
      | inl (t, k) ↦ Shrinks-trans q (expires now i q).1 r looked (drop_in_loop-Shrinks i rest _ k)
      | inr (t, k) ↦ Shrinks-trans q (expires now i q).1 r looked (purge_rest-Shrinks now rest _ k)
    ]

pub purge-Shrinks :
    (now : ℕ) (q : RequestQueue) {r : RequestQueue} → purge now q ≡ ok r → Shrinks q r
unfolding purge
purge-Shrinks now q h = purge_rest-Shrinks now q.queue q h

pub dequeue_rest-Shrinks :
    (dst : Option Ipv4Address) (rest : List QueueEntry) (q : RequestQueue) {a : Bool}
    {r : RequestQueue}
    → dequeue_rest dst rest q ≡ ok (a, r)
    → Shrinks q r
unfolding dequeue_rest
dequeue_rest-Shrinks dst [] q h = subst (Shrinks q) (ok-state h) (Shrinks-refl q)
dequeue_rest-Shrinks dst (i ∷ rest) q h =
    let (matches, e, h1) = >>=-eq-ok _ _ h in
    elim (if_cases matches h1) [
      | inl (t, k) ↦
          let (others, e2, k2) = >>=-eq-ok _ _ k in
          subst (Shrinks q) (ok-state k2) (removed-Shrinks i q e2)
      | inr (t, k) ↦ dequeue_rest-Shrinks dst rest q k
    ]

pub drop_rest-Shrinks :
    (dst : Option Ipv4Address) (rest : List QueueEntry) (q : RequestQueue) {r : RequestQueue}
    → drop_rest dst rest q ≡ ok r
    → Shrinks q r
unfolding drop_rest
drop_rest-Shrinks dst [] q h = subst (Shrinks q) (ok-injective h) (Shrinks-refl q)
drop_rest-Shrinks dst (i ∷ rest) q h =
    let (matches, e, h1) = >>=-eq-ok _ _ h in
    elim (if_cases matches h1) [
      | inl (t, k) ↦ drop_in_loop-Shrinks i rest q k
      | inr (t, k) ↦ drop_rest-Shrinks dst rest q k
    ]

-- Room for one more.
pub record HasRoom (q r : RequestQueue) : Type 0 where
  pub room : suc (length r.queue) ≤ q.max_len
  pub shrinks : Shrinks q r

drop_first-HasRoom :
    (es : List QueueEntry) (q : RequestQueue) {r : RequestQueue}
    → es ≡ q.queue
    → length q.queue ≤ q.max_len
    → drop_first es q ≡ ok r
    → HasRoom q r
unfolding drop_first
drop_first-HasRoom [] q e b h = cc
drop_first-HasRoom (i ∷ es) q e b h =
    let (q1, e1, h1) = >>=-eq-ok _ _ h in
    let s = drop_entry-Shrinks i q e1 in
    subst (HasRoom q) (ok-injective h1) (record {
      room = omega (arith, ap length e, b);
      shrinks = record {
        shorter = omega (arith, ap length e);
        among = λ x a. (subst (All (λ k. k.expire ≡ x)) (sym e) a).1;
        max_len = s.max_len;
        queue_timeout = s.queue_timeout;
      };
    })

pub make_room-HasRoom :
    (q : RequestQueue) {r : RequestQueue}
    → length q.queue ≤ q.max_len
    → make_room q ≡ ok r
    → HasRoom q r
make_room-HasRoom q {r} b h = elim (if_cases (length q.queue == q.max_len) h) [
  | inl (t, k) ↦ drop_first-HasRoom q.queue q refl b k
  | inr (t, k) ↦
      subst (HasRoom q) (ok-injective k) (record { room = ground arith; shrinks = Shrinks-refl q })
]
