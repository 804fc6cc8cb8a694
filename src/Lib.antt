-- ===== src/Lib.antt =====
-- Verification library of osak_ext_ns3: the C++ modules `satellite` and `extension` for ns-3, which
-- simulate a constellation of satellites with laser links, and the AODV routing of its Java port of
-- ns-3, with the headers that it stands on.
--
-- The program. ConstellationHelper places satellites (nodes with a SatelliteMobilityModel) in the
-- planes of a Walker constellation, gives each four laser terminals (OpticalDevice), and links them by
-- OpticalChannels: a permanent ring in each plane, temporary links between neighbouring planes. A device
-- frames a packet, queues it, and sends it over its channel; the channel checks the latitudes of its
-- ends, and schedules the reception at the other end, which the power budget may refuse. A temporary
-- channel over the latitude limit calls ConstellationHelper::DisConnect; LinkMaintenance, once in an
-- interval, breaks the links of satellites that enter the polar region and makes new ones for those
-- that leave it. SatellitePcapHelper connects the devices' trace sources to files.
--
-- In the Java port, an AODV node (RoutingProtocol) writes and reads RreqHeader, RrepHeader and RerrHeader
-- behind a TypeHeader, drops the requests that its IdCache has seen, keeps routes in a RoutingTable and
-- packets without a route in a RequestQueue, and its neighbours in Neighbors; its packets have an
-- Ipv4Header, and its neighbours are resolved with ArpHeaders. Lifetimes are Time objects, which the tables share.
--
-- The files. Paths are from the repository's root, without the leading src/.
--   Prelude, Prelude/*: Boolean tests, lists over native numbers, stores and sets.
--   Result: null pointers, failed assertions, exceptions, as results.
--   Floats, Platform: the `double` type, and what the code calls in ns-3. Parameters.
--   World: the state of devices, channels and links, the scheduled events, the log of callbacks and
--     traces (cpp/contrib/satellite/model/optical-device.h, optical-channel.h,
--     helper/constellation-helper.h).
--   Device and its children: cpp/contrib/satellite/model/optical-device.cc. Frame is the Ethernet
--     frame; Receive and Transmit the two directions; Machine is about the transmit machine, Outcomes
--     about the branches of SendFrom and Receive.
--   Channel and its children: cpp/contrib/satellite/model/optical-channel.cc.
--   Orbit and its children: cpp/contrib/satellite/model/satellite-mobility-model.cc.
--   Constellation and its children: cpp/contrib/satellite/helper/constellation-helper.cc. Placement is
--     Install, Devices the loops of InstallDev, Config is LinkConfig, Links is Connect and DisConnect,
--     Maintenance is LinkMaintenance; Params, Match, Coverage, Terminals, Ring, Relinked, Polar and
--     Relink are about them.
--   System and its children: the events and calls of a whole run, over all of these files.
--   TypeIds: the GetTypeId tables.
--   Pcap: cpp/contrib/satellite/helper/satellite-pcap-helper.cc.
--   Extension: cpp/contrib/extension/model/extension.cc and extension.h.
--   Pbstack: cpp/contrib/extension/model/pbstack.cc.
--   Bytes and its children: java.nio.ByteBuffer with its laws, round trips of whatever is written and
--     read in sequence, flag bits, and Ipv4Address (java/main/osak/ext/ns3/network/utils/).
--   Aodv and its children: java/main/osak/ext/ns3/aodv. Types is TypeHeader, MessageType and
--     RrepAckHeader; Rreq, Rrep, Rerr the other headers; AddressMap the HashMap of destinations; IdCache
--     is IdCache and DuplicatePacketDetection; Time is core/Time.java; RoutingTable is RoutingTable and
--     RoutingTableEntry; RequestQueue is RequestQueue and QueueEntry; Neighbors is Neighbors, Timer is
--     core/Timer.java, ArpCache is internet/ArpCache.java, ArpCacheEntry.java and Mac48Address.java.
--   Inet and its children: internet/Ipv4Header.java, internet/ArpHeader.java and network/Address.java
--     of java/main/osak/ext/ns3.
--   Examples: small worlds, and the theorems at them.
--
-- The model. An object is a record in a store, named by a number, and a Ptr is an optional number.
-- Assertions are compiled in; one that fails, a null pointer that is dereferenced, the back of an empty
-- vector, and an integer division by zero end the run with a fault. Calls of user callbacks and trace
-- sinks are entries of a log: what a user's callback does in turn to the simulation is not modelled,
-- but for the disconnect callback of a channel, which is an argument. Packets are values. `int`
-- parameters are natural numbers. Nodes are numbered from 0 in the order of the container, and a
-- node's number is its identifier; the terminals of node k are the devices 4 k, 4 k + 1, 4 k + 2 and
-- 4 k + 3, which are its first four devices. Floating-point numbers have no laws, so that what is
-- stated holds of IEEE arithmetic; `abs` of a `double` is taken as the floating-point one.
-- The Newton loop of SetTimeEpoch, which the source writes as `while (true)`, has fuel: more fuel than
-- rounds before the first estimate that is fine is enough, and with none the loop does not end in the
-- source either. All other loops run over a container or a counter.
--
-- In the Java classes bytes, shorts, ints and longs are their bit patterns. A method is a function of the
-- objects that it reads; an exception is a fault, after which the objects' state is not followed. The
-- clock is an argument, and stands still within a call. Assertions are off. A for-each loop over a
-- LinkedList, an ArrayList or a HashMap that removes from it goes on as the iterators of java.util do:
-- at the next element they throw. Where the order of a HashMap matters, its list of entries is any list.
--
-- Not modelled: logging, the copies of spdlog, fmt and SimpleIni, the tests and build files; of the Java
-- port RoutingProtocol, packets, sockets, the other addresses, the executor of timers, the ARP cache
-- but for its lookup, and the interfaces;
-- Helper.byte2int, which the repository does not hold, is a parameter, assumed to read network order
-- where a theorem says so.
pub mod Prelude
pub mod Pbstack
pub mod Floats
pub mod Extension
pub mod Platform
pub mod Result
pub mod World
pub mod Orbit
pub mod Device
pub mod Channel
pub mod Constellation
pub mod System
pub mod TypeIds
pub mod Pcap
pub mod Bytes
pub mod Aodv
pub mod Inet
pub mod Examples
