-- ===== src/Pcap.antt =====
-- cpp/contrib/satellite/helper/satellite-pcap-helper.h and satellite-pcap-helper.cc: which trace
-- sources are connected to which files. Devices and nodes are numbers; `as_optical` is
-- `nd->GetObject<OpticalDevice>()`, `filename_of` GetFilenameFromDevice. The files that were made
-- are a list, newest first, and a file is named by how many were made before it.
pub mod Files
use Prim.Native.String.{String}
use osak_ext_ns.Prelude.{
  ℕ, Bool, true, false, Option, none, some, List, [], ◌∷◌, if◌then◌else◌, length,
}

abbrev pub Text : Type 0
Text = List ℕ

-- Where a sink is connected: a device's or its queue's trace source, or a path of Config::Connect,
-- which is the device's name, what of it is meant, and the source.
pub data Target : Type 0 where
  device_source : ℕ → String → Target
  queue_source : ℕ → String → Target
  config_path : Text → String → Target

-- Which default sink of the trace helpers.
pub data Sink : Type 0 where
  pcap receive enqueue dequeue drop : Sink

pub record Hook : Type 0 where
  pub target : Target
  pub sink : Sink
  pub file : ℕ

pub record PcapHelper : Type 0 where
  pub global_file : Option ℕ
  pub files : List Text
  pub hooks : List Hook

-- PcapHelper::CreateFile and AsciiTraceHelper::CreateFileStream
abbrev pub create_file : Text → PcapHelper → PcapHelper
create_file name h = record h { files = name ∷ h.files }

abbrev pub connect : Target → Sink → ℕ → PcapHelper → PcapHelper
connect target sink file h = record h {
  hooks = record { target = target; sink = sink; file = file } ∷ h.hooks;
}

unfoldable pub hook_pcap : ℕ → ℕ → PcapHelper → PcapHelper
hook_pcap d file = connect (Target.device_source d "PromiscSniffer") Sink.pcap file

-- One file for all devices, which the first of them makes.
unfoldable pub hook_global : Text → ℕ → Option ℕ → PcapHelper → PcapHelper
hook_global prefix d none h =
    hook_pcap d (length h.files)
      (record (create_file prefix h) { global_file = some (length h.files) })
hook_global prefix d (some file) h = hook_pcap d file h

module _ (as_optical : ℕ → Option ℕ) (filename_of : Text → ℕ → Text) where
  -- EnablePcapInternal, for a device that is an OpticalDevice or is not.
  unfoldable pub hook_device : Text → Option ℕ → Bool → PcapHelper → PcapHelper
  hook_device prefix none explicit h = h
  hook_device prefix (some d) true h = hook_global prefix d h.global_file h
  hook_device prefix (some d) false h =
      hook_pcap d (length h.files) (create_file (filename_of prefix d) h)

  unfoldable pub enable_pcap_internal : Text → ℕ → Bool → Bool → PcapHelper → PcapHelper
  enable_pcap_internal prefix nd promiscuous explicit h =
      hook_device prefix (as_optical nd) explicit h

  -- The devices of one node.
  unfoldable pub enable_pcap_node : Text → List ℕ → Bool → Bool → PcapHelper → PcapHelper
  enable_pcap_node prefix [] promiscuous explicit h = h
  enable_pcap_node prefix (nd ∷ nds) promiscuous explicit h =
      enable_pcap_node prefix nds promiscuous explicit
        (enable_pcap_internal prefix nd promiscuous explicit h)

  -- The nodes, each with its devices. EnablePcapAll is this over all nodes.
  unfoldable pub enable_pcap : Text → List (List ℕ) → Bool → Bool → PcapHelper → PcapHelper
  enable_pcap prefix [] promiscuous explicit h = h
  enable_pcap prefix (node ∷ nodes) promiscuous explicit h =
      enable_pcap prefix nodes promiscuous explicit
        (enable_pcap_node prefix node promiscuous explicit h)

  -- EnableAsciiInternal without a stream: a file of its own.
  unfoldable pub hook_ascii_file : Text → ℕ → Bool → PcapHelper → PcapHelper
  hook_ascii_file prefix d explicit h =
      let file = length h.files in
      connect (Target.device_source d "PhyRxDrop") Sink.drop file (
        connect (Target.queue_source d "Dequeue") Sink.dequeue file (
          connect (Target.queue_source d "Drop") Sink.drop file (
            connect (Target.queue_source d "Enqueue") Sink.enqueue file (
              connect (Target.device_source d "MacRx") Sink.receive file
                (create_file (if explicit then prefix else filename_of prefix d) h)))))

  -- With a stream: by the device's path, which Names::FindPath gives.
  unfoldable pub hook_ascii_stream : Text → ℕ → PcapHelper → PcapHelper
  hook_ascii_stream path file h = connect (Target.config_path path "PhyRxDrop") Sink.drop file (
      connect (Target.config_path path "TxQueue/Drop") Sink.drop file (
        connect (Target.config_path path "TxQueue/Dequeue") Sink.dequeue file (
          connect (Target.config_path path "TxQueue/Enqueue") Sink.enqueue file
            (connect (Target.config_path path "MacRx") Sink.receive file h))))

  unfoldable pub enable_ascii_internal :
      (ℕ → Text) → Option ℕ → Text → ℕ → Bool → PcapHelper → PcapHelper
  enable_ascii_internal find_path stream prefix nd explicit h = elim (as_optical nd) [
    | none ↦ h
    | some d ↦ elim stream [
      | none ↦ hook_ascii_file prefix d explicit h
      | some file ↦ hook_ascii_stream (find_path nd) file h
    ]
  ]
