-- ===== src/Device/Frame.antt =====
-- The Ethernet frame of OpticalDevice::SendFrom, and what OpticalDevice::Receive reads of it
-- (cpp/contrib/satellite/model/optical-device.cc).
use osak_ext_ns.Prelude.{ℕ, ◌-◌, ltb, leb, if◌then◌else◌, replicate}
use osak_ext_ns.Result.{Result, ok, ◌>>◌, check}
use osak_ext_ns.Platform.{Platform, EthernetHeader}
use osak_ext_ns.World.{Device, PacketType}

module _ (p : Platform) where
  open p use {Packet, Mac}

  -- A payload below 46 bytes is filled up with zeros.
  unfoldable pub pad : Packet → Packet
  pad packet =
      if ltb (p.get_size packet) 46
      then p.add_at_end packet (p.create_packet (replicate (46 - p.get_size packet) 0))
      else packet

  unfoldable pub make_frame : Mac → Mac → ℕ → Packet → Packet
  make_frame from to protocol packet =
      let header : EthernetHeader Mac = record {
        source = from;
        destination = to;
        length_type = protocol;
      } in
      let framed = p.add_header header (pad packet) in
      p.add_trailer (p.calc_fcs p.checksum_enabled framed) framed

  -- A length in place of a protocol number: the padding is cut off, and the LLC header read.
  unfoldable pub read_llc : ℕ → Packet → Result (ℕ × Packet)
  read_llc len copy = do
    check (leb len (p.get_size copy))
    let padlen = p.get_size copy - len
    check (leb padlen 46)
    ok (p.remove_llc (if ltb 0 padlen then p.remove_at_end padlen copy else copy))

  -- The protocol number, and the packet without padding and LLC header.
  unfoldable pub read_protocol : EthernetHeader Mac → Packet → Result (ℕ × Packet)
  read_protocol header copy =
      if leb header.length_type 1500
      then read_llc header.length_type copy
      else ok (header.length_type, copy)

  unfoldable pub packet_type : Device p → Mac → PacketType
  packet_type d to =
      if p.mac_eq to d.address
      then PacketType.host
      else (if p.is_broadcast to
          then PacketType.broadcast
          else (if p.is_group to then PacketType.multicast else PacketType.other_host))
