-- ===== src/Examples.antt =====
-- Concrete instances of the code's parameters, small worlds, and runs of the code on them. The numbers
-- stand for floats, a packet is a payload of some size with its headers and trailers, a mobility model
-- is a fixed position, and a queue is a list with room for two frames.
mod Devices
mod Runs
mod Rings
mod Channels
mod Wires
mod Helpers
mod Texts
mod Headers
mod Caches
mod Neighborhood
use osak_ext_ns.Prelude.{
  ℕ, ◌+◌, ◌-◌, ◌*◌, ◌/◌, ◌%◌, ◌^◌, Bool, true, false, Option, none, some, List, [], ◌∷◌, ◌++◌, ltb,
  ◌==◌, length, if◌then◌else◌,
}
use osak_ext_ns.Result.{Result, ok, fault}
use osak_ext_ns.Floats.{Floats, Vector}
use osak_ext_ns.Platform.{Platform, EthernetHeader}
use osak_ext_ns.World.{Device, Channel, World, Links, TxMachineState, Direction}
use osak_ext_ns.Constellation.Links.{dis_connect}

abbrev pub numbers : Floats
numbers = record {
  Real = ℕ;
  lit = λ m k. m / 10 ^ k;
  neg = λ x. 0;
  ◌⊕◌ = λ x y. x + y;
  ◌⊖◌ = λ x y. x - y;
  ◌⊗◌ = λ x y. x * y;
  ◌⊘◌ = λ x y. x / y;
  lt = ltb;
  eq = λ x y. x == y;
  pi = 3;
  abs = λ x. x;
  sqrt = λ x. x;
  pow = λ x y. x ^ y;
  fmod = λ x y. x % y;
  sin = λ x. x;
  cos = λ x. 0;
  tan = λ x. x;
  asin = λ x. x;
  atan = λ x. x;
  log10 = λ x. 0;
  of_int = λ n. n;
}

pub data Frame : Type 0 where
  payload : ℕ → Frame
  headed : EthernetHeader ℕ → Frame → Frame
  closed : Bool → Frame → Frame

abbrev pub size : Frame → ℕ
size (Frame.payload n) = n
size (Frame.headed h q) = 14 + size q
size (Frame.closed t q) = 4 + size q

abbrev no_header : EthernetHeader ℕ
no_header = record { source = 0; destination = 0; length_type = 0 }

abbrev behead : Frame → EthernetHeader ℕ × Frame
behead (Frame.headed h q) = (h, q)
behead q = (no_header, q)

abbrev uncloses : Frame → Bool × Frame
uncloses (Frame.closed t q) = (t, q)
uncloses q = (false, q)

abbrev stored : Frame → List Frame → Bool × List Frame
stored q qs = if ltb (length qs) 2 then (true, qs ++ (q ∷ [])) else (false, qs)

abbrev taken : List Frame → Option Frame × List Frame
taken [] = (none, [])
taken (q ∷ qs) = (some q, qs)

abbrev pub bench : Platform
bench = record {
  floats = numbers;
  Packet = Frame;
  Mac = ℕ;
  Address = ℕ;
  Trailer = Bool;
  Queue = List Frame;
  DataRate = ℕ;
  ErrorModel = Bool;
  Mobility = Vector numbers;
  DelayModel = ℕ;
  LossModel = ℕ;
  get_size = size;
  create_packet = λ bytes. Frame.payload (length bytes);
  add_at_end = λ a b. Frame.payload (size a + size b);
  remove_at_end = λ n q. Frame.payload (size q - n);
  add_header = λ h q. Frame.headed h q;
  remove_header = behead;
  remove_llc = λ q. (2048, q);
  calc_fcs = λ enabled q. true;
  check_fcs = λ enabled t q. t;
  add_trailer = λ t q. Frame.closed t q;
  remove_trailer = uncloses;
  checksum_enabled = true;
  mac_eq = λ a b. a == b;
  is_broadcast = λ a. a == 255;
  is_group = λ a. a == 254;
  broadcast = 255;
  multicast_ipv4 = λ a. 254;
  multicast_ipv6 = λ a. 254;
  is_matching_type = λ a. true;
  convert_from = λ a. a;
  to_address = λ a. a;
  enqueue = stored;
  dequeue = taken;
  calculate_bytes_tx_time = λ rate n. rate * n;
  is_corrupt = λ bad q. (bad, bad);
  get_position = λ m t. m;
  get_distance_from = λ a b t. 1;
  default_loss = 0;
  default_delay = 5;
  get_delay = λ delay a b t. delay;
}

abbrev pub equator : Vector numbers
equator = record { x = 1; y = 0; z = 0 }

abbrev pub pole : Vector numbers
pole = record { x = 0; y = 0; z = 1 }

-- Terminal `d` of node `d`, at `position`, linked to channel 7 and idle.
abbrev pub terminal_at : Vector numbers → ℕ → Device bench
terminal_at position d = record {
  tx_machine_state = TxMachineState.ready;
  bps = 2;
  queue = some [];
  receive_error_model = none;
  node = some d;
  channel = some 7;
  mobility = some position;
  current_pkt = none;
  mtu = 1500;
  link_up = true;
  if_index = 0;
  address = d;
  rx_callback = true;
  promisc_callback = false;
  initialized = true;
  direction = if d % 4 == 0 then Direction.right else Direction.left;
  tx_power_dbm = 20;
  rx_sensitivity_dbm = 10;
  wave_length = 1550;
  tx_gain = 120;
  rx_gain = 120;
}

abbrev pub channel_between : ℕ → ℕ → Bool → Channel bench
channel_between a b is_temporary = record {
  loss = 0;
  delay = 5;
  lat_limit = 0;
  disconnect_cb = true;
  ready_break_cb = false;
  dev0 = some a;
  dev1 = some b;
  last0 = 0;
  last1 = 0;
  is_temporary = is_temporary;
  threshold = 0;
}

abbrev pub links_with : List ℕ → Links
links_with unused_link = record {
  connect_cb = true;
  disconnect_cb = true;
  unused_link = unused_link;
  breaked_left = [];
  breaked_right = [];
  over_polar = [];
}

-- All terminals at one position; every channel, temporary or not, is between terminals 0 and 1.
abbrev pub world_at : Vector numbers → Bool → List ℕ → World bench
world_at position is_temporary unused = record {
  devices = terminal_at position;
  channels = λ c. channel_between 0 1 is_temporary;
  error_models = λ e. false;
  links = links_with unused;
  mobilities = λ n. some position;
  events = [];
  log = [];
  now = 100;
}

abbrev pub world_of {ℓ} : {A : Type ℓ} → World bench → Result (A × World bench) → World bench
world_of w (ok (a, w')) = w'
world_of w (fault f) = w

abbrev pub left_by : World bench → Result (World bench) → World bench
left_by w (ok w') = w'
left_by w (fault f) = w
