-- ===== src/Examples/Texts.antt =====
-- Runs of the formatter, the vector operations, the caller's name and the pcap files.
use osak_ext_ns.Prelude.{
  ℕ, ◌%◌, ◌==◌, if◌then◌else◌, ◌≡◌, refl, true, Option, none, some, List, [], ◌∷◌, arith,
}
use osak_ext_ns.Pbstack.{Text, print_caller_function_name}
use osak_ext_ns.Pbstack.CallerName.{
  symbol_line, print_caller_function_name-symbol_line, print_caller_function_name_total,
}
use osak_ext_ns.Pcap.{PcapHelper, enable_pcap}
use osak_ext_ns.Pcap.Files.{IsGlobal, enable_pcap-IsGlobal}

abbrev one_letter : ℕ → List ℕ
one_letter n = n ∷ []

abbrev strip : Text → Option Text
strip name = some (b'g' ∷ [])

abbrev line : Text
line =
    symbol_line (b'.' ∷ b'/' ∷ b'a' ∷ []) (b'_' ∷ b'Z' ∷ []) (b'0' ∷ b'x' ∷ b'1' ∷ []) (b' ' ∷ [])

print_caller_function_name-symbol_line_example :
    print_caller_function_name true strip 3 (some ([] ∷ [] ∷ line ∷ [])) [] ≡ some (b'g' ∷ [])
print_caller_function_name-symbol_line_example =
    print_caller_function_name-symbol_line strip 3 [] [] [] (b'.' ∷ b'/' ∷ b'a' ∷ [])
      (b'_' ∷ b'Z' ∷ []) (b'0' ∷ b'x' ∷ b'1' ∷ []) (b' ' ∷ []) [] (omega arith)
      (refl, (refl, (refl, tt))) ((refl, refl, refl), ((refl, refl, refl), tt))
      ((refl, refl, refl), ((refl, refl, refl), ((refl, refl, refl), tt)))

print_caller_function_name_total_example :
    (t : Text) × (print_caller_function_name true strip 3 (some ([] ∷ [] ∷ line ∷ [])) [] ≡ some t)
print_caller_function_name_total_example =
    print_caller_function_name_total true strip (some ([] ∷ [] ∷ line ∷ [])) [] 3
      (λ lines e. ground arith)

-- Even numbers are optical devices.
abbrev even_only : ℕ → Option ℕ
even_only n = if n % 2 == 0 then some n else none

abbrev no_hooks : PcapHelper
no_hooks = record { global_file = none; files = []; hooks = [] }

enable_pcap-IsGlobal_example : IsGlobal (b'p' ∷ []) [] (4 ∷ 2 ∷ []) (
    enable_pcap even_only
      (λ prefix d. prefix)
      (b'p' ∷ [])
      ((2 ∷ 3 ∷ []) ∷ (4 ∷ []) ∷ [])
      true
      true
      no_hooks)
enable_pcap-IsGlobal_example =
    enable_pcap-IsGlobal even_only (λ prefix d. prefix) (b'p' ∷ []) []
      ((2 ∷ 3 ∷ []) ∷ (4 ∷ []) ∷ []) true [] no_hooks
      (record { global_file = refl; files_made = refl; hooks = refl })
