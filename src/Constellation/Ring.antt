-- ===== src/Constellation/Ring.antt =====
-- One permanent link that ConstellationHelper::LinkConfig
-- (cpp/contrib/satellite/helper/constellation-helper.cc) makes.
pub mod Plane
use native.Mathlib.Nat.{mod-eq_of_lt, mod-lt, mod_self}
use osak_ext_ns.Prelude.{
  ℕ, zero, suc, ◌+◌, ◌*◌, ◌%◌, ◌≤◌, ◌<◌, ◌≡◌, ◌≢◌, ◌⊎◌, refl, sym, ap, subst, ◌∙◌, Bool, true,
  false, Option, none, some, arith, ◌==◌, if◌then◌else◌, Bool-cases, ==_iff, inl, inr,
}
use osak_ext_ns.Result.{Result, ok, ◌>>=◌, bind_ok, deref}
use osak_ext_ns.Platform.{Platform}
use osak_ext_ns.World.{Device, Channel, World, set_channel}
use osak_ext_ns.Device
use osak_ext_ns.Channel.{new_channel, set_type, ChannelType, get_latitude}
use osak_ext_ns.Channel
use osak_ext_ns.Constellation.Placement.{Text}
use osak_ext_ns.Constellation.Config.{terminal, link_up, permanent_link, permanent_row}
use osak_ext_ns.Constellation.Links.Linked.{with_end0, with_end1, attach_first, attach_second}

module _ {p : Platform} where
  -- The link of the terminals `a` and `b` on channel `c`.
  pub record IsLink (c a b : ℕ) (w : World p) : Type 0 where
    pub end0 : (w.channels c).dev0 ≡ some a
    pub end1 : (w.channels c).dev1 ≡ some b
    pub forever : (w.channels c).is_temporary ≡ false
    pub on_a : (w.devices a).channel ≡ some c
    pub on_b : (w.devices b).channel ≡ some c
    pub up_a : (w.devices a).link_up ≡ true
    pub up_b : (w.devices b).link_up ≡ true

  abbrev lat : ℕ → World p → (m : p.Mobility) → p.floats.Real
  lat d w m = get_latitude p.floats (p.get_position m w.now)

  -- What a new link between `a` and `b` changes.
  pub record IsAdded (c a b : ℕ) (w w' : World p) : Type 0 where
    pub link : IsLink c a b w'
    pub devices : (d : ℕ) → d ≢ a → d ≢ b → w'.devices d ≡ w.devices d
    pub channels : (e : ℕ) → e ≢ c → w'.channels e ≡ w.channels e
    pub mobility : (d : ℕ) → (w'.devices d).mobility ≡ (w.devices d).mobility

  abbrev added : ℕ → ℕ → ℕ → p.floats.Real → p.floats.Real → World p → World p
  added c a b la lb w =
      Device.attach b c (Device.attach a c (with_end1 c b lb (with_end0 c a la w)))

  abbrev fresh : p.floats.Real → ℕ → World p → World p
  fresh stale c w = set_channel c (set_type ChannelType.forever (new_channel stale)) w

  added-IsLink :
      (stale : p.floats.Real) (c a b : ℕ) (la lb : p.floats.Real) (w : World p)
      → IsLink c a b (added c a b la lb (fresh stale c w))
  unfolding Device.attach Device.notify_link_up set_type new_channel
  added-IsLink stale c a b la lb w = record {
    end0 = ground arith;
    end1 = ground arith;
    forever = ground arith;
    on_a = ground arith;
    on_b = ground arith;
    up_a = ground arith;
    up_b = ground arith;
  }

  added-IsAdded :
      (stale : p.floats.Real) (c a b : ℕ) (la lb : p.floats.Real) (w : World p)
      → IsAdded c a b w (added c a b la lb (fresh stale c w))
  unfolding Device.attach Device.notify_link_up
  added-IsAdded stale c a b la lb w = record {
    link = added-IsLink stale c a b la lb w;
    devices = λ d n m. ground arith;
    channels = λ e n. ground arith;
    mobility = λ d. ground arith;
  }

  fresh_free :
      (stale : p.floats.Real) (c : ℕ) (w : World p) → ((fresh stale c w).channels c).dev0 ≡ none
  unfolding set_type new_channel
  fresh_free stale c w = ground arith

  dev0_first :
      (c a : ℕ) (la : p.floats.Real) (w : World p) → ((with_end0 c a la w).channels c).dev0 ≡ some a
  dev0_first c a la w = ground arith

  pub link_up-IsAdded :
      (stale : p.floats.Real) (c a b : ℕ) (ma mb : p.Mobility) (w : World p)
      → (w.devices a).mobility ≡ some ma
      → (w.devices b).mobility ≡ some mb
      → (w' : World p) × (link_up c a b (fresh stale c w) ≡ ok w') × IsAdded c a b w w'
  unfolding link_up
  link_up-IsAdded stale c a b ma mb w ha hb =
      let la = get_latitude p.floats (p.get_position ma w.now) in
      let lb = get_latitude p.floats (p.get_position mb w.now) in
      let w0 = fresh stale c w in
      let w1 = with_end0 c a la w0 in
      (
        added c a b la lb w0,
        bind_ok (Channel.attach c a w0) _ (attach_first c a w0 (fresh_free stale c w) ha)
            ∙ bind_ok (Channel.attach c b w1) _ (attach_second c b a w1 (dev0_first c a la w0) hb),
        added-IsAdded stale c a b la lb w,
      )
