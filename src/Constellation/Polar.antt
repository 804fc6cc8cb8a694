-- ===== src/Constellation/Polar.antt =====
-- The polar set of ConstellationHelper::LinkMaintenance
-- (cpp/contrib/satellite/helper/constellation-helper.cc).
use osak_ext_ns.Prelude.{
  ℕ, zero, suc, ◌+◌, ◌≤◌, ◌<◌, ◌≡◌, ◌⊎◌, refl, sym, subst, ap, ◌∙◌, Bool, true, false, not, ◌&&◌,
  ◌||◌, none, some, List, if◌then◌else◌, ◌==◌, contains, contains-insert, contains-erase, arith,
  Bool-cases, if_cases, inl, inr, ==_iff, ==_refl,
}
use osak_ext_ns.Result.{ok, >>=-eq-ok, ok-injective, deref-eq-ok}
use osak_ext_ns.Platform.{Platform}
use osak_ext_ns.World.{World, Event, schedule}
use osak_ext_ns.Device.Machine.{Same, machine}
use osak_ext_ns.Constellation.{Helper}
use osak_ext_ns.Constellation.Config.{latitude_degrees}
use osak_ext_ns.Constellation.Maintenance.{set_polar, visit_at, visit, visit_from, link_maintenance}
use osak_ext_ns.Constellation.Relinked.{IsRelinked, enter-IsRelinked, leave-IsRelinked}

-- Whether a satellite at a latitude is in the polar set after the round.
abbrev pub polar_after : (p : Platform) → Helper p.floats → p.floats.Real → Bool → Bool
polar_after p h lat old = (p.floats.lt h.lat_limit lat || old) && not (p.floats.lt lat h.lat_limit)

stays : (a o : Bool) → (a && not o) ≡ false → o ≡ a || o
stays a o h = ground arith

erased : (a l o c : Bool) → c ≡ a || o → (l && c) ≡ true → false ≡ ((a || o) && not l)
erased a l o c e h = ground arith

kept_polar : (a l o c : Bool) → c ≡ a || o → (l && c) ≡ false → c ≡ ((a || o) && not l)
kept_polar a l o c e h = ground arith

beyond :
    (node rounds k : ℕ)
    → (k < node) ⊎ (node + suc rounds ≤ k)
    → (k < node + 1) ⊎ (node + 1 + rounds ≤ k)
beyond node rounds k (inl h) = inl (omega arith)
beyond node rounds k (inr h) = inr (omega arith)

elsewhere : (node rounds k : ℕ) → (k < node) ⊎ (node + suc rounds ≤ k) → (k == node) ≡ false
elsewhere node rounds k (inl h) = ground arith
elsewhere node rounds k (inr h) = ground arith

module _ {p : Platform} where
  -- The world after the visit of one satellite.
  record IsVisited (node : ℕ) (b : Bool) (w w' : World p) : Type 0 where
    polar :
        (k : ℕ)
        → contains w'.links.over_polar k ≡ (if k == node then b else contains w.links.over_polar k)
    models : w'.mobilities ≡ w.mobilities
    clock : w'.now ≡ w.now
    machines : Same w w'

  of_relinked :
      (node : ℕ) (b : Bool) (over : List ℕ) (w w' : World p)
      → IsRelinked (set_polar over w) w'
      → ((k : ℕ) → contains over k ≡ (if k == node then b else contains w.links.over_polar k))
      → IsVisited node b w w'
  of_relinked node b over w w' r e = record {
    polar = λ k. ap (λ o. contains o k) r.over ∙ e k;
    models = r.models;
    clock = r.clock;
    machines = r.machines;
  }

  unvisited :
      (node : ℕ) (w w' : World p) → w ≡ w' → IsVisited node (contains w.links.over_polar node) w w'
  unvisited node w w' e =
      subst (IsVisited node (contains w.links.over_polar node) w) e
        (record { polar = λ k. ground arith; models = refl; clock = refl; machines = λ e. refl })

  IsVisited-trans :
      (node : ℕ) (b b' : Bool) (u v w : World p)
      → IsVisited node b u v
      → IsVisited node b' v w
      → IsVisited node b' u w
  IsVisited-trans node b b' u v w x y = record {
    polar = λ k. y.polar k ∙ rw (x.polar k) (ground arith);
    models = y.models ∙ x.models;
    clock = y.clock ∙ x.clock;
    machines = λ e. y.machines e ∙ x.machines e;
  }

  visit_at-IsVisited :
      (h : Helper p.floats) (node : ℕ) (lat : p.floats.Real) (w : World p) {w' : World p}
      → visit_at h node lat w ≡ ok w'
      → IsVisited node (polar_after p h lat (contains w.links.over_polar node)) w w'
  unfolding visit_at
  visit_at-IsVisited h node lat w {w'} e =
      let (w1, first, second) = >>=-eq-ok _ _ e in
      let over = contains w.links.over_polar node in
      let one : IsVisited node (p.floats.lt h.lat_limit lat || over) w w1 =
        elim (if_cases (p.floats.lt h.lat_limit lat && not over) first) [
          | inl (t, entered) ↦
              of_relinked node _ _ w w1 (enter-IsRelinked node w entered)
                λ k. ground (arith, contains-insert node k w.links.over_polar)
          | inr (t, same) ↦
              subst (λ b. IsVisited node b w w1) (stays (p.floats.lt h.lat_limit lat) over t)
                (unvisited node w w1 (ok-injective same))
        ] in
      let now1 : contains w1.links.over_polar node ≡ p.floats.lt h.lat_limit lat || over =
        one.polar node ∙ rw (==_refl node) in
      elim (if_cases (p.floats.lt lat h.lat_limit && contains w1.links.over_polar node) second) [
        | inl (t, left) ↦ IsVisited-trans node _ _ w w1 w' one (
            of_relinked node _ _ w1 w' (leave-IsRelinked _ _ node w1 left) λ k. ground (
              arith,
              contains-erase node k w1.links.over_polar,
              erased (p.floats.lt h.lat_limit lat) (p.floats.lt lat h.lat_limit) over _ now1 t,
            ))
        | inr (t, same) ↦ IsVisited-trans node _ _ w w1 w' one (
            subst (λ b. IsVisited node b w1 w')
              (kept_polar (p.floats.lt h.lat_limit lat) (p.floats.lt lat h.lat_limit) over _ now1 t)
              (unvisited node w1 w' (ok-injective same)))
      ]

  -- The latitude of a node whose mobility model is `m`.
  abbrev pub latitude_of : p.Mobility → World p → p.floats.Real
  latitude_of m w = latitude_degrees p.floats (p.get_position m w.now)

  visit-IsVisited :
      (h : Helper p.floats) (node : ℕ) (w : World p) {w' : World p}
      → visit h node w ≡ ok w'
      → (m : p.Mobility) × (w.mobilities node ≡ some m)
        × IsVisited node (polar_after p h (latitude_of m w) (contains w.links.over_polar node)) w w'
  unfolding visit
  visit-IsVisited h node w e =
      let (m, found, visited) = >>=-eq-ok _ _ e in
      (m, deref-eq-ok _ found, visit_at-IsVisited h node (latitude_of m w) w visited)

  -- The world after the visit of the nodes from `node` on, `rounds` of them.
  record IsSwept (h : Helper p.floats) (node rounds : ℕ) (w w' : World p) : Type 0 where
    inside :
        (k : ℕ)
        → node ≤ k
        → k < node + rounds
        → (m : p.Mobility) × (w.mobilities k ≡ some m)
          × (contains w'.links.over_polar k
              ≡ polar_after p h (latitude_of m w) (contains w.links.over_polar k))
    outside :
        (k : ℕ)
        → (k < node) ⊎ (node + rounds ≤ k)
        → contains w'.links.over_polar k ≡ contains w.links.over_polar k
    machines : Same w w'

  visit_from-IsSwept :
      (h : Helper p.floats) (rounds node : ℕ) (w : World p) {w' : World p}
      → visit_from h rounds node w ≡ ok w'
      → IsSwept h node rounds w w'
  unfolding visit_from
  visit_from-IsSwept h zero node w e = subst (IsSwept h node 0 w) (ok-injective e) (record {
    inside = λ k l u. absurd (omega arith);
    outside = λ k o. refl;
    machines = λ e. refl;
  })
  visit_from-IsSwept h (suc rounds) node w {w'} e =
      let (w1, first, rest) = >>=-eq-ok _ _ e in
      let (m, found, v) = visit-IsVisited h node w first in
      let r = visit_from-IsSwept h rounds (node + 1) w1 rest in
      record {
        inside = λ k l u. elim (Bool-cases (k == node)) [
          | inl here ↦
              rw ((==_iff k node).0 here)
                (m, found, r.outside node (inl (omega arith)) ∙ v.polar node ∙ rw (==_refl node))
          | inr later ↦
              let (m', found', swept) = r.inside k (ground arith) (omega arith) in
              (
                m',
                sym (ap (λ f. f k) v.models) ∙ found',
                swept
                    ∙ ap
                        (λ t.
                          polar_after p h (latitude_degrees p.floats (p.get_position m' t))
                            (contains w1.links.over_polar k))
                        v.clock
                    ∙ ap (polar_after p h (latitude_of m' w)) (v.polar k ∙ rw later),
              )
        ];
        outside = λ k o.
            r.outside k (beyond node rounds k o) ∙ v.polar k ∙ rw (elsewhere node rounds k o);
        machines = λ e. r.machines e ∙ v.machines e;
      }

  schedule-Same : (delay : ℕ) (w : World p) → Same w (schedule delay none Event.link_maintenance w)
  schedule-Same delay w e = ground arith

  -- A round of LinkMaintenance that ends puts the polar set right: every satellite above the limit
  -- is in it, none below the limit is, and one at the limit is in it as before; numbers that are no
  -- satellite's are as before. No transmit machine changes.
  pub link_maintenance-polar_after :
      (h : Helper p.floats) (nodes : ℕ) (w : World p) {w' : World p}
      → link_maintenance h nodes w ≡ ok w'
      → ((k : ℕ)
          → k < nodes
          → (m : p.Mobility) × (w.mobilities k ≡ some m)
            × (contains w'.links.over_polar k
                ≡ polar_after p h (latitude_of m w) (contains w.links.over_polar k)))
        × ((k : ℕ) → nodes ≤ k → contains w'.links.over_polar k ≡ contains w.links.over_polar k)
        × Same w w'
  unfolding link_maintenance
  link_maintenance-polar_after h nodes w e =
      let (_, _, e0) = >>=-eq-ok _ _ e in
      let (w1, visited, done) = >>=-eq-ok _ _ e0 in
      let r = visit_from-IsSwept h nodes 0 w visited in
      (
        λ k l. rw (← ok-injective done) (r.inside k (omega arith) (omega arith)),
        λ k l. rw (← ok-injective done) (r.outside k (inr (omega arith))),
        λ d.
            subst (λ v. machine v d ≡ machine w d) (ok-injective done)
              (schedule-Same h.link_check_interval w1 d ∙ r.machines d),
      )
