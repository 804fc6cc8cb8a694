-- ===== src/System/Reachable.antt =====
-- The transmit machines in every world that a run reaches.
use osak_ext_ns.Prelude.{ℕ, ◌+◌, ◌≡◌, refl, sym, ap, ◌∙◌, subst, List, [], ◌∷◌, ◌++◌, arith}
use osak_ext_ns.Platform.{Platform}
use osak_ext_ns.World.{World, Event, Scheduled}
use osak_ext_ns.Device.Machine.{
  IsMatched, Matched, Fired, Same, machine, pending, completes, send_from-Matched,
  transmit_complete-Matched,
}
use osak_ext_ns.Constellation.{Helper}
use osak_ext_ns.Constellation.Links.{dis_connect}
use osak_ext_ns.Constellation.Links.Wiring.{dis_connect-Keeps}
use osak_ext_ns.Constellation.Polar.{link_maintenance-polar_after}
use osak_ext_ns.System.{Step, Run, at_event}
use osak_ext_ns.System.Received.{channel_receive-Same}

module _ {p : Platform} where
  pending_middle :
      (d : ℕ) (before : List (Scheduled p)) (s : Scheduled p) (after : List (Scheduled p))
      → pending d (before ++ (s ∷ after)) ≡ completes d s.event + pending d (before ++ after)
  pending_middle d [] s after = refl
  pending_middle d (t ∷ before) s after = omega (arith, pending_middle d before s after)

  Same-Matched : (w w' : World p) → Same w w' → Matched w → Matched w'
  Same-Matched w w' same m e = subst IsMatched (sym (same e)) (m e)

  -- An event that runs is off the list; if it completes no transmission, nothing is missing.
  without_event :
      (s : Scheduled p) (before after : List (Scheduled p)) (w : World p)
      → w.events ≡ before ++ (s ∷ after)
      → ((e : ℕ) → completes e s.event ≡ 0)
      → Same w (at_event s.time (before ++ after) w)
  without_event s before after w next idle e =
      ap (λ (k : ℕ). record (machine w e) { calls = k })
        (sym (ap (pending e) next ∙ pending_middle e before s after ∙ (omega (arith, idle e))))

  event-Fired :
      (d : ℕ) (s : Scheduled p) (before after : List (Scheduled p)) (w : World p)
      → w.events ≡ before ++ (s ∷ after)
      → s.event ≡ Event.transmit_complete d
      → Matched w
      → Fired d (at_event s.time (before ++ after) w)
  event-Fired d s before after w next fires m e =
      subst (λ (k : ℕ). IsMatched (record (machine w e) { calls = k }))
        (ap (pending e) next ∙ pending_middle e before s after ∙ rw fires) (m e)

module _ {p : Platform} (h : Helper p.floats) (nodes : ℕ) where
  step-Matched : (w w' : World p) → Step h nodes w w' → Matched w → Matched w'
  step-Matched _ _ (Step.sends d packet source dest protocol b w w' e) m =
      send_from-Matched dis_connect dis_connect-Keeps d packet source dest protocol w e m
  step-Matched _ _ (Step.completes d s before after w w' next fires e) m =
      transmit_complete-Matched dis_connect dis_connect-Keeps d
        (at_event s.time (before ++ after) w) e (event-Fired d s before after w next fires m)
  step-Matched _ _ (Step.receives a b packet s before after w w' next is e) m =
      Same-Matched (at_event s.time (before ++ after) w) w'
        (channel_receive-Same a b packet (at_event s.time (before ++ after) w) e)
        (Same-Matched w (at_event s.time (before ++ after) w)
          (without_event s before after w next (λ d. rw is)) m)
  step-Matched _ _ (Step.maintains s before after w w' next is e) m =
      Same-Matched (at_event s.time (before ++ after) w) w'
        (link_maintenance-polar_after h nodes (at_event s.time (before ++ after) w) e).2
        (Same-Matched w (at_event s.time (before ++ after) w)
          (without_event s before after w next (λ d. rw is)) m)

  -- In every world that a run reaches by calls that succeed, whatever is sent and in whatever order
  -- the events run, every transmit machine is matched, if it was so at the start: an idle device
  -- has no packet and no TransmitComplete scheduled, a busy one has a packet and exactly one.
  pub Run-Matched : (u w : World p) → Run h nodes u w → Matched u → Matched w
  Run-Matched _ _ (Run.start u) m = m
  Run-Matched _ _ (Run.step u v w r s) m = step-Matched v w s (Run-Matched u v r m)
