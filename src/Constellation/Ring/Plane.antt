-- ===== src/Constellation/Ring/Plane.antt =====
-- The permanent links that ConstellationHelper::LinkConfig
-- (cpp/contrib/satellite/helper/constellation-helper.cc) makes in one plane.
use native.Mathlib.Nat.{mod-eq_of_lt, mod-lt, mod_self}
use osak_ext_ns.Prelude.{
  ℕ, zero, suc, ◌+◌, ◌%◌, ◌≤◌, ◌<◌, ◌≡◌, ◌≢◌, ◌⊎◌, refl, sym, ap, subst, ◌∙◌, Option, some, arith,
  ◌==◌, Bool-cases, ==_iff, inl, inr,
}
use osak_ext_ns.Result.{ok, bind_ok, deref}
use osak_ext_ns.Platform.{Platform}
use osak_ext_ns.World.{World}
use osak_ext_ns.Constellation.Placement.{Text}
use osak_ext_ns.Constellation.Config.{terminal, permanent_link, permanent_row}
use osak_ext_ns.Constellation.Ring.{IsLink, IsAdded, link_up-IsAdded}

-- The satellite after the last one is the first one.
next_below : (l n : ℕ) → l + 1 < n → (l + 1) % n ≡ l + 1
next_below l n h = mod-eq_of_lt h

next_last : (l n : ℕ) → l + 1 ≡ n → (l + 1) % n ≡ 0
next_last l n h = ap (λ (k : ℕ). k % n) h ∙ mod_self n

next_cases : (l n : ℕ) → l < n → (l + 1 < n) ⊎ (l + 1 ≡ n)
next_cases l n h = omega arith

next_lt : (l n : ℕ) → l < n → (l + 1) % n < n
next_lt l n h = mod-lt (l + 1) (omega arith)

next_apart : (j l n : ℕ) → j < l → l < n → (j + 1) % n ≢ (l + 1) % n
next_apart j l n h u e = elim (next_cases l n u) [
  | inl below ↦ omega (arith, e, next_below j n (omega arith), next_below l n below)
  | inr last ↦ omega (arith, e, next_below j n (omega arith), next_last l n last)
]

-- The forward and backward terminals of the `n` satellites of plane `i` are found by their names, and
-- are all different.
pub record IsNamed (find : Text → Option ℕ) (pad2 : ℕ → Text) (n i : ℕ) (front back : ℕ → ℕ)
    : Type 0 where
  pub front_found : (l : ℕ) → l < n → terminal find pad2 i l b'F' ≡ some (front l)
  pub back_found : (l : ℕ) → l < n → terminal find pad2 i l b'B' ≡ some (back l)
  pub fronts : (l m : ℕ) → l < n → m < n → front l ≡ front m → l ≡ m
  pub backs : (l m : ℕ) → l < n → m < n → back l ≡ back m → l ≡ m
  pub sides : (l m : ℕ) → l < n → m < n → front l ≢ back m

before_or_after : (c n j e : ℕ) → (e < c + j) ⊎ (c + n ≤ e) → (e < c + (j + 1)) ⊎ (c + n ≤ e)
before_or_after c n j e (inl o) = inl (omega arith)
before_or_after c n j e (inr o) = inr o

not_this : (c n j e : ℕ) → j < n → (e < c + j) ⊎ (c + n ≤ e) → e ≢ c + j
not_this c n j e h (inl o) = omega arith
not_this c n j e h (inr o) = omega arith

module _ {p : Platform} where
  -- Those terminals have mobility models.
  pub record IsPlaced (n : ℕ) (front back : ℕ → ℕ) (w : World p) : Type 0 where
    pub fronts : (l : ℕ) → l < n → (m : p.Mobility) × ((w.devices (front l)).mobility ≡ some m)
    pub backs : (l : ℕ) → l < n → (m : p.Mobility) × ((w.devices (back l)).mobility ≡ some m)

  module _ (find : Text → Option ℕ) (pad2 : ℕ → Text) (stale : p.floats.Real) where
    module _ (n i c : ℕ) (front back : ℕ → ℕ) (names : IsNamed find pad2 n i front back) where
      permanent_link-IsAdded :
          (j : ℕ) (w : World p)
          → j < n
          → IsPlaced n front back w
          → (w' : World p) × (permanent_link find pad2 stale n i j (c + j) w ≡ ok w')
            × IsAdded (c + j) (front j) (back ((j + 1) % n)) w w'
      unfolding permanent_link
      permanent_link-IsAdded j w h placed =
          let (ma, ha) = placed.fronts j h in
          let (mb, hb) = placed.backs ((j + 1) % n) (next_lt j n h) in
          let (w', done, r) =
            link_up-IsAdded stale (c + j) (front j) (back ((j + 1) % n)) ma mb w ha hb in
          (
            w',
            bind_ok (deref (terminal find pad2 i j b'F')) _ (ap deref (names.front_found j h))
                ∙ bind_ok (deref (terminal find pad2 i ((j + 1) % n) b'B')) _
                    (ap deref (names.back_found ((j + 1) % n) (next_lt j n h)))
                ∙ done,
            r,
          )

      -- The links from satellite `j` on were made.
      record IsPart (j : ℕ) (w w' : World p) : Type 0 where
        made : (l : ℕ) → j ≤ l → l < n → IsLink (c + l) (front l) (back ((l + 1) % n)) w'
        devices :
            (d : ℕ)
            → ((l : ℕ) → j ≤ l → l < n → (d ≢ front l) × (d ≢ back ((l + 1) % n)))
            → w'.devices d ≡ w.devices d
        channels : (e : ℕ) → (e < c + j) ⊎ (c + n ≤ e) → w'.channels e ≡ w.channels e

      added-IsPlaced :
          (x a b : ℕ) (w w' : World p)
          → IsAdded x a b w w'
          → IsPlaced n front back w
          → IsPlaced n front back w'
      added-IsPlaced x a b w w' r q = record {
        fronts = λ l h. let (m, e) = q.fronts l h in (m, r.mobility (front l) ∙ e);
        backs = λ l h. let (m, e) = q.backs l h in (m, r.mobility (back l) ∙ e);
      }

      -- A link that was made stays while later ones are made.
      stays :
          (j : ℕ) (w w' : World p)
          → j < n
          → IsPart (j + 1) w w'
          → IsLink (c + j) (front j) (back ((j + 1) % n)) w
          → IsLink (c + j) (front j) (back ((j + 1) % n)) w'
      stays j w w' h r k =
          let ch = r.channels (c + j) (inl (omega arith)) in
          let da = r.devices (front j) λ l a u. (
            λ e. omega (arith, names.fronts j l h u e),
            names.sides j ((l + 1) % n) h (next_lt l n u),
          ) in
          let db = r.devices (back ((j + 1) % n)) λ l a u. (
            λ e. names.sides l ((j + 1) % n) u (next_lt j n h) (sym e),
            λ e.
                next_apart j l n (omega arith) u
                  (names.backs ((j + 1) % n) ((l + 1) % n) (next_lt j n h) (next_lt l n u) e),
          ) in
          record {
            end0 = ap (λ v. v.dev0) ch ∙ k.end0;
            end1 = ap (λ v. v.dev1) ch ∙ k.end1;
            forever = ap (λ v. v.is_temporary) ch ∙ k.forever;
            on_a = ap (λ v. v.channel) da ∙ k.on_a;
            on_b = ap (λ v. v.channel) db ∙ k.on_b;
            up_a = ap (λ v. v.link_up) da ∙ k.up_a;
            up_b = ap (λ v. v.link_up) db ∙ k.up_b;
          }

      permanent_row-IsPart :
          (rounds j : ℕ) (w : World p)
          → j + rounds ≡ n
          → IsPlaced n front back w
          → (w' : World p) × (permanent_row find pad2 stale n i rounds j (c + j) w ≡ ok w')
            × IsPart j w w'
      unfolding permanent_row
      permanent_row-IsPart zero j w h placed = (
        w,
        refl,
        record {
          made = λ l a u. absurd (omega arith);
          devices = λ d f. refl;
          channels = λ e o. refl;
        },
      )
      permanent_row-IsPart (suc rounds) j w h placed =
          let (w1, first, a) = permanent_link-IsAdded j w (omega arith) placed in
          let (w', rest, q) =
            permanent_row-IsPart rounds (j + 1) w1 (omega arith)
              (added-IsPlaced _ _ _ w w1 a placed) in
          let shift : c + (j + 1) ≡ c + j + 1 = omega arith in
          (
            w',
            bind_ok (permanent_link find pad2 stale n i j (c + j) w) _ first
                ∙ subst (λ (k : ℕ). permanent_row find pad2 stale n i rounds (j + 1) k w1 ≡ ok w')
                    shift rest,
            record {
              made = λ l b u. elim (Bool-cases (l == j)) [
                | inl here ↦ rw ((==_iff l j).0 here) (stays j w1 w' (omega arith) q a.link)
                | inr later ↦ q.made l (ground arith) u
              ];
              devices = λ d f.
                  q.devices d (λ l b u. f l (omega arith) u)
                  ∙ a.devices d (f j (omega arith) (omega arith)).0
                      (f j (omega arith) (omega arith)).1;
              channels = λ e o.
                  q.channels e (before_or_after c n j e o)
                  ∙ a.channels e (not_this c n j e (omega arith) o);
            },
          )

      -- The permanent links of one plane form a ring: if the terminals of its satellites are found by
      -- their names, are different and have mobility models, the loop succeeds, and for each satellite
      -- the forward terminal and the backward one of the next satellite, after the last one the first
      -- again, are the two ends of a permanent channel of their own, are on it, and are up. No other
      -- device and no other channel changes.
      pub permanent_row-IsLink :
          (w : World p)
          → IsPlaced n front back w
          → (w' : World p) × (permanent_row find pad2 stale n i n 0 c w ≡ ok w')
            × ((l : ℕ) → l < n → IsLink (c + l) (front l) (back ((l + 1) % n)) w')
            × ((d : ℕ)
                → ((l : ℕ) → l < n → (d ≢ front l) × (d ≢ back l))
                → w'.devices d ≡ w.devices d)
            × ((e : ℕ) → (e < c) ⊎ (c + n ≤ e) → w'.channels e ≡ w.channels e)
      permanent_row-IsLink w placed =
          let (w', done, q) = permanent_row-IsPart n 0 w (omega arith) placed in
          let whole : c + 0 ≡ c = omega arith in
          (
            w',
            subst (λ (k : ℕ). permanent_row find pad2 stale n i n 0 k w ≡ ok w') whole done,
            λ l u. q.made l (omega arith) u,
            λ d f. q.devices d λ l a u. ((f l u).0, (f ((l + 1) % n) (next_lt l n u)).1),
            λ e o. q.channels e (subst (λ (k : ℕ). (e < k) ⊎ (c + n ≤ e)) (sym whole) o),
          )
