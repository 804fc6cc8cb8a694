-- ===== src/Aodv/Rreq/Fields.antt =====
-- The flags of a route request, and its comparison.
use osak_ext_ns.Prelude.{◌≡◌, arith, Bool}
use osak_ext_ns.Bytes.{IsByte}
use osak_ext_ns.Bytes.Flags.{get_bit-set_bit}
use osak_ext_ns.Aodv.Rreq.{
  RreqHeader, set_gratuitous_rrep, get_gratuitous_rrep, set_destination_only, get_destination_only,
  set_unknown_seqno, get_unknown_seqno,
}

-- The three flags, as the getters give them.
pub record HasFlags (h : RreqHeader) (gratuitous destination_only unknown : Bool) : Type 0 where
  pub gratuitous_rrep : get_gratuitous_rrep h ≡ gratuitous
  pub destination_only_rrep : get_destination_only h ≡ destination_only
  pub unknown_seqno : get_unknown_seqno h ≡ unknown

-- Each setter of a flag of a route request sets what its getter reads, and leaves the other two
-- flags as they were. The flags are a byte.
pub HasFlags-set :
    (f : Bool) (h : RreqHeader)
    → IsByte h.flags
    → HasFlags (set_gratuitous_rrep f h) f (get_destination_only h) (get_unknown_seqno h)
      × HasFlags (set_destination_only f h) (get_gratuitous_rrep h) f (get_unknown_seqno h)
      × HasFlags (set_unknown_seqno f h) (get_gratuitous_rrep h) (get_destination_only h) f
unfolding set_gratuitous_rrep get_gratuitous_rrep set_destination_only get_destination_only
    set_unknown_seqno get_unknown_seqno
HasFlags-set f h b = (
  record {
    gratuitous_rrep = get_bit-set_bit f 5 5 h.flags (omega arith) (omega arith) b;
    destination_only_rrep = get_bit-set_bit f 5 4 h.flags (omega arith) (omega arith) b;
    unknown_seqno = get_bit-set_bit f 5 3 h.flags (omega arith) (omega arith) b;
  },
  record {
    gratuitous_rrep = get_bit-set_bit f 4 5 h.flags (omega arith) (omega arith) b;
    destination_only_rrep = get_bit-set_bit f 4 4 h.flags (omega arith) (omega arith) b;
    unknown_seqno = get_bit-set_bit f 4 3 h.flags (omega arith) (omega arith) b;
  },
  record {
    gratuitous_rrep = get_bit-set_bit f 3 5 h.flags (omega arith) (omega arith) b;
    destination_only_rrep = get_bit-set_bit f 3 4 h.flags (omega arith) (omega arith) b;
    unknown_seqno = get_bit-set_bit f 3 3 h.flags (omega arith) (omega arith) b;
  },
)
