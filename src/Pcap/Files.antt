-- ===== src/Pcap/Files.antt =====
-- How many files SatellitePcapHelper::EnablePcap makes, and what is connected to them
-- (cpp/contrib/satellite/helper/satellite-pcap-helper.h and satellite-pcap-helper.cc).
use osak_ext_ns.Prelude.{ℕ, ◌≡◌, Bool, true, Option, none, some, List, [], ◌∷◌, length, arith}
use osak_ext_ns.Pcap.{
  Text, Hook, Target, Sink, PcapHelper, hook_pcap, hook_global, hook_device, enable_pcap_internal,
  enable_pcap_node, enable_pcap,
}

-- The pcap connections of devices to one file.
abbrev pub hooks_to : ℕ → List ℕ → List Hook
hooks_to file [] = []
hooks_to file (d ∷ ds) =
    record { target = Target.device_source d "PromiscSniffer"; sink = Sink.pcap; file = file }
    ∷ hooks_to file ds

-- A device that is an OpticalDevice, before others.
abbrev pub with_optical : Option ℕ → List ℕ → List ℕ
with_optical none ds = ds
with_optical (some d) ds = d ∷ ds

-- The single file was made if there is a device.
abbrev pub global_of : List ℕ → ℕ → Option ℕ
global_of [] file = none
global_of (d ∷ ds) file = some file

abbrev pub files_of : Text → List ℕ → List Text → List Text
files_of prefix [] files = files
files_of prefix (d ∷ ds) files = prefix ∷ files

-- The devices `ds`, newest first, all write into one file, which was made after `files`.
pub record IsGlobal (prefix : Text) (files : List Text) (ds : List ℕ) (h : PcapHelper)
    : Type 0 where
  pub global_file : h.global_file ≡ global_of ds (length files)
  pub files_made : h.files ≡ files_of prefix ds files
  pub hooks : h.hooks ≡ hooks_to (length files) ds

module _ (as_optical : ℕ → Option ℕ) (filename_of : Text → ℕ → Text) where
  -- The optical devices of a node, newest first, before those of `acc`.
  abbrev pub opticals : List ℕ → List ℕ → List ℕ
  opticals [] acc = acc
  opticals (nd ∷ nds) acc = opticals nds (with_optical (as_optical nd) acc)

  abbrev pub opticals_of : List (List ℕ) → List ℕ → List ℕ
  opticals_of [] acc = acc
  opticals_of (node ∷ nodes) acc = opticals_of nodes (opticals node acc)

  hook_device-IsGlobal :
      (prefix : Text) (files : List Text) (o : Option ℕ) (acc : List ℕ) (h : PcapHelper)
      → IsGlobal prefix files acc h
      → IsGlobal prefix files
          (with_optical o acc)
          (hook_device as_optical filename_of prefix o true h)
  unfolding hook_device hook_global hook_pcap
  hook_device-IsGlobal prefix files none acc h g = g
  hook_device-IsGlobal prefix files (some d) [] h g = record {
    global_file = ground (arith, g.global_file, g.files_made, g.hooks);
    files_made = ground (arith, g.global_file, g.files_made, g.hooks);
    hooks = ground (arith, g.global_file, g.files_made, g.hooks);
  }
  hook_device-IsGlobal prefix files (some d) (a ∷ acc) h g = record {
    global_file = ground (arith, g.global_file, g.files_made, g.hooks);
    files_made = ground (arith, g.global_file, g.files_made, g.hooks);
    hooks = ground (arith, g.global_file, g.files_made, g.hooks);
  }

  enable_pcap_node-IsGlobal :
      (prefix : Text) (files : List Text) (nds : List ℕ) (promiscuous : Bool) (acc : List ℕ)
      (h : PcapHelper)
      → IsGlobal prefix files acc h
      → IsGlobal prefix files
          (opticals nds acc)
          (enable_pcap_node as_optical filename_of prefix nds promiscuous true h)
  unfolding enable_pcap_node enable_pcap_internal
  enable_pcap_node-IsGlobal prefix files [] promiscuous acc h g = g
  enable_pcap_node-IsGlobal prefix files (nd ∷ nds) promiscuous acc h g =
      enable_pcap_node-IsGlobal prefix files nds promiscuous (with_optical (as_optical nd) acc)
        (hook_device as_optical filename_of prefix (as_optical nd) true h)
        (hook_device-IsGlobal prefix files (as_optical nd) acc h g)

  -- With an explicit file name, EnablePcap over nodes connects exactly the optical devices of the nodes,
  -- all to one file, after those that were connected before; the file is made once, for the first
  -- optical device, and not at all without one.
  pub enable_pcap-IsGlobal :
      (prefix : Text) (files : List Text) (nodes : List (List ℕ)) (promiscuous : Bool)
      (acc : List ℕ) (h : PcapHelper)
      → IsGlobal prefix files acc h
      → IsGlobal prefix files
          (opticals_of nodes acc)
          (enable_pcap as_optical filename_of prefix nodes promiscuous true h)
  unfolding enable_pcap
  enable_pcap-IsGlobal prefix files [] promiscuous acc h g = g
  enable_pcap-IsGlobal prefix files (node ∷ nodes) promiscuous acc h g =
      enable_pcap-IsGlobal prefix files nodes promiscuous (opticals node acc)
        (enable_pcap_node as_optical filename_of prefix node promiscuous true h)
        (enable_pcap_node-IsGlobal prefix files node promiscuous acc h g)
