-- ===== src/Aodv/Types.antt =====
-- The type byte in front of a message and the acknowledgement:
-- java/main/osak/ext/ns3/aodv/MessageType.java, TypeHeader.java and RrepAckHeader.java.
use osak_ext_ns.Prelude.{ℕ, ◌-◌, Bool, true, false, ◌&&◌, ◌==◌, if◌then◌else◌}
use osak_ext_ns.Result.{Result, ok, fault, Fault, ◌>>=◌}
use osak_ext_ns.Bytes.{ByteBuffer, put, get, position, bool_eq}

pub data MessageType : Type 0 where
  aodvtype_rreq aodvtype_rrep aodvtype_rerr aodvtype_rrep_ack : MessageType

abbrev pub value : MessageType → ℕ
value aodvtype_rreq = 1
value aodvtype_rrep = 2
value aodvtype_rerr = 3
value aodvtype_rrep_ack = 4

-- `valueOf`, which throws on any other byte.
unfoldable pub value_of : ℕ → Result MessageType
value_of x =
    if x == 1
    then ok aodvtype_rreq
    else if x == 2
    then ok aodvtype_rrep
    else if x == 3
    then ok aodvtype_rerr
    else if x == 4
    then ok aodvtype_rrep_ack
    else fault Fault.runtime_error

pub record TypeHeader : Type 0 where
  pub type : MessageType
  pub valid : Bool

-- `TypeHeader(t)`.
abbrev pub type_header : MessageType → TypeHeader
type_header t = record { type = t; valid = true }

unfoldable pub serialize_type : TypeHeader → ByteBuffer → Result ByteBuffer
serialize_type h b = put (value h.type) b

-- An unknown byte leaves the type as it was.
abbrev recognise : TypeHeader → Result MessageType → TypeHeader
recognise h (ok t) = record h { type = t }
recognise h (fault e) = record h { valid = false }

-- `Deserialize`: the number of bytes read, the header and the buffer after it.
unfoldable pub deserialize_type : TypeHeader → ByteBuffer → Result (ℕ × TypeHeader × ByteBuffer)
deserialize_type h b = do
  (x, b') ← get b
  ok (position b' - position b, recognise h (value_of x), b')

unfoldable pub type_equals : TypeHeader → TypeHeader → Bool
type_equals h g = bool_eq g.valid h.valid && value g.type == value h.type

pub record RrepAckHeader : Type 0 where
  pub reserved : ℕ

unfoldable pub serialize_ack : RrepAckHeader → ByteBuffer → Result ByteBuffer
serialize_ack h b = put h.reserved b

unfoldable pub deserialize_ack : ByteBuffer → Result (ℕ × RrepAckHeader × ByteBuffer)
deserialize_ack b = do (x, b') ← get b; ok (position b' - position b, record { reserved = x }, b')

unfoldable pub ack_equals : RrepAckHeader → RrepAckHeader → Bool
ack_equals h g = h.reserved == g.reserved
