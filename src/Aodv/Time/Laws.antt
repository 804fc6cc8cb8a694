-- ===== src/Aodv/Time/Laws.antt =====
-- The static operations of Time change their first argument.
use osak_ext_ns.Prelude.{ℕ, suc, ◌<◌, ◌≡◌, refl, arith, false, ◌==◌, update}
use osak_ext_ns.Aodv.Time.{Times, milliseconds, minus, in_ms, sub}

-- The Times after `Time.sub` of a Time in milliseconds.
abbrev pub after : ℕ → ℕ → Times → Times
after r v ts = record {
  at = update (update ts.at r (in_ms v)) ts.next (in_ms v);
  next = suc ts.next;
}

pub sub_ms :
    (r now : ℕ) (ts : Times)
    → (ts.at r).unit ≡ milliseconds
    → sub r (in_ms now) ts ≡ (ts.next, after r (minus (ts.at r).value now) ts)
unfolding sub
sub_ms r now ts u = rw u refl

pub after-new : (r v : ℕ) (ts : Times) → (after r v ts).at ts.next ≡ in_ms v
after-new r v ts = ground arith

pub after-argument : (r v : ℕ) (ts : Times) → (after r v ts).at r ≡ in_ms v
after-argument r v ts = ground arith

after-others :
    (r v : ℕ) (ts : Times) (q : ℕ) → q < ts.next → (q == r) ≡ false → (after r v ts).at q ≡ ts.at q
after-others r v ts q h e = ground arith

-- `ts'` is `ts` after `Time.sub(t, now)` on the object `r`: the result is new and its value is the
-- difference, `r` has that value too, and no other object has changed.
pub record Subtracted (r now : ℕ) (ts : Times) (result : ℕ) (ts' : Times) : Type 0 where
  pub result_new : result ≡ ts.next
  pub result_value : ts'.at result ≡ in_ms (minus (ts.at r).value now)
  pub argument : ts'.at r ≡ in_ms (minus (ts.at r).value now)
  pub others : (q : ℕ) → q < ts.next → (q == r) ≡ false → ts'.at q ≡ ts.at q
  pub next : ts'.next ≡ suc ts.next

-- The static Time.sub(t1, t2), on a Time `t1` in milliseconds and the clock's `t2`, changes `t1`: it
-- has the result's value afterwards. The result is a new Time, and no other has changed.
pub sub-Subtracted :
    (r now : ℕ) (ts : Times)
    → (ts.at r).unit ≡ milliseconds
    → Subtracted r now ts (sub r (in_ms now) ts).0 (sub r (in_ms now) ts).1
sub-Subtracted r now ts u = rw (sub_ms r now ts u) (record {
  result_new = refl;
  result_value = after-new r _ ts;
  argument = after-argument r _ ts;
  others = after-others r _ ts;
  next = refl;
})
