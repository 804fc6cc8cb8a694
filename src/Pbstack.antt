-- ===== src/Pbstack.antt =====
-- cpp/contrib/extension/model/pbstack.cc: the name of the calling function, cut out of a line that
-- `backtrace_symbols` prints. A text is the list of its character codes. `backtrace`,
-- `backtrace_symbols` and `abi::__cxa_demangle` are the arguments `num_frames`, `symbols` and
-- `demangle`; a read outside the array of symbols gives `none`.
pub mod CallerName
use osak_ext_ns.Prelude.{
  ℕ, ◌+◌, ◌-◌, suc, Option, none, some, List, [], ◌∷◌, Bool, true, false, ◌&&◌, ltb, ◌==◌,
  if◌then◌else◌, get_elem?, take, drop, is_some,
}

abbrev pub Text : Type 0
Text = List ℕ

-- The three pointers that the loop fills, as positions in the line.
pub record Scan : Type 0 where
  pub mangled_name : Option ℕ
  pub offset_begin : Option ℕ
  pub offset_end : Option ℕ

abbrev pub no_marks : Scan
no_marks = record { mangled_name = none; offset_begin = none; offset_end = none }

unfoldable pub mark : ℕ → ℕ → Scan → Scan
mark i c s =
    if c == b'('
    then record s { mangled_name = some i }
    else if c == b'+'
    then record s { offset_begin = some i }
    else if c == b')'
    then record s { offset_end = some i }
    else s

-- `for (char* p = symbols[2]; *p; ++p)`, with the `break` at the first `)`.
unfoldable pub scan : ℕ → Text → Scan → Scan
unfolding mark
scan i [] s = s
scan i (c ∷ cs) s =
    let rest = scan (i + 1) cs (mark i c s) in if c == b')' then mark i c s else rest

-- The text between two terminators that the code writes into the line.
abbrev pub between : ℕ → ℕ → Text → Text
between i j line = take (j - (i + 1)) (drop (suc i) line)

abbrev pub demangled : (Text → Option Text) → Text → Text
demangled demangle name = elim (demangle name) [ none ↦ name | some real ↦ real ]

unfoldable pub caller_of_line : (Text → Option Text) → Text → Scan → Text
caller_of_line demangle line s = elim s.mangled_name [
  | none ↦ line
  | some i ↦ elim s.offset_begin [
    | none ↦ line
    | some j ↦
        if is_some s.offset_end && ltb i j then demangled demangle (between i j line) else line
  ]
]

-- `log_enable` is whether NS3_LOG_ENABLE is defined.
unfoldable pub print_caller_function_name :
    Bool → (Text → Option Text) → ℕ → Option (List Text) → Text → Option Text
unfolding scan caller_of_line
print_caller_function_name false demangle num_frames symbols funcname = some []
print_caller_function_name true demangle num_frames none funcname = some []
print_caller_function_name true demangle num_frames (some lines) funcname =
    if ltb 2 num_frames
    then elim (get_elem? lines 2) [
      | none ↦ none
      | some line ↦ some (caller_of_line demangle line (scan 0 line no_marks))
    ]
    else some []
