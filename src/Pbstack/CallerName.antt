-- ===== src/Pbstack/CallerName.antt =====
-- What cpp/contrib/extension/model/pbstack.cc cuts out of a line, on every form of line.
use osak_ext_ns.Prelude.{
  ℕ, ◌+◌, ◌-◌, ◌<◌, suc, take, drop, ◌≤◌, ◌≡◌, refl, ap, ◌∙◌, Option, none, some, List, [], ◌∷◌,
  ◌++◌, Bool, true, false, ltb, ◌==◌, arith, length, All, take-append, get_elem?-lt, lt→ltb, ltb→lt,
  Bool-cases, inl, inr, subst, sym,
}
use osak_ext_ns.Pbstack.{
  Text, Scan, no_marks, mark, scan, between, demangled, caller_of_line, print_caller_function_name,
}

abbrev pub IsPlain : ℕ → Type 0
IsPlain c = ((c == b'(') ≡ false) × ((c == b'+') ≡ false) × ((c == b')') ≡ false)

-- A line as glibc prints it: module, `(`, name, `+`, offset, `)`, rest.
abbrev pub symbol_line : Text → Text → Text → Text → Text
symbol_line file name offset rest = file ++ (b'(' ∷ (name ++ (b'+' ∷ (offset ++ (b')' ∷ rest)))))

shift : (i n : ℕ) → i + 1 + n ≡ i + suc n
shift i n = omega arith

shift_zero : (i : ℕ) → i ≡ i + 0
shift_zero i = omega arith

zero_plus : (i : ℕ) → 0 + i ≡ i
zero_plus i = omega arith

name_width : (i n : ℕ) → i + 1 + n - (i + 1) ≡ n
name_width i n = omega arith

drop-suc : (xs : Text) (c : ℕ) (ys : Text) → drop (suc (length xs)) (xs ++ (c ∷ ys)) ≡ ys
drop-suc [] c ys = refl
drop-suc (x ∷ xs) c ys = drop-suc xs c ys

-- Plain characters leave the marks alone.
scan-plain :
    (i : ℕ) (xs ys : Text) (s : Scan)
    → All IsPlain xs
    → scan i (xs ++ ys) s ≡ scan (i + length xs) ys s
unfolding scan mark
scan-plain i [] ys s h = ap (λ (k : ℕ). scan k ys s) (shift_zero i)
scan-plain i (x ∷ xs) ys s (h, hs) =
    ground (arith, scan-plain (i + 1) xs ys s hs, ap (λ (k : ℕ). scan k ys s) (shift i (length xs)))

abbrev pub IsNotClose : ℕ → Type 0
IsNotClose c = (c == b')') ≡ false

-- What stands before the first `)` changes the marks, but does not stop the loop.
scan-open :
    (i : ℕ) (xs ys : Text) (s : Scan)
    → All IsNotClose xs
    → (t : Scan) × (scan i (xs ++ ys) s ≡ scan (i + length xs) ys t)
unfolding scan mark
scan-open i [] ys s h = (s, ap (λ (k : ℕ). scan k ys s) (shift_zero i))
scan-open i (x ∷ xs) ys s (h, hs) =
    let (t, e) = scan-open (i + 1) xs ys (mark i x s) hs in
    (t, ground (arith, e, ap (λ (k : ℕ). scan k ys t) (shift i (length xs))))

abbrev marks_of : Text → Text → Text → Scan
marks_of file name offset = record {
  mangled_name = some (length file);
  offset_begin = some (length file + 1 + length name);
  offset_end = some (length file + 1 + length name + 1 + length offset);
}

scan-symbol_line :
    (file name offset rest : Text)
    → All IsNotClose file
    → All IsPlain name
    → All IsPlain offset
    → scan 0 (symbol_line file name offset rest) no_marks ≡ marks_of file name offset
unfolding scan mark
scan-symbol_line file name offset rest hf hn ho =
    let tail = offset ++ (b')' ∷ rest) in
    let (t, e) = scan-open 0 file (b'(' ∷ (name ++ (b'+' ∷ tail))) no_marks hf in
    let t' : Scan = record t { mangled_name = some (length file) } in
    let t'' : Scan = record t' { offset_begin = some (length file + 1 + length name) } in
    e
    ∙ ap (λ (k : ℕ). scan k (b'(' ∷ (name ++ (b'+' ∷ tail))) t) (zero_plus (length file))
    ∙ scan-plain (length file + 1) name (b'+' ∷ tail) t' hn
    ∙ scan-plain (length file + 1 + length name + 1) offset (b')' ∷ rest) t'' ho

between-symbol_line :
    (file name offset rest : Text)
    → between (length file) (length file + 1 + length name) (symbol_line file name offset rest)
      ≡ name
between-symbol_line file name offset rest =
    let tail = b'+' ∷ (offset ++ (b')' ∷ rest)) in
    ap (λ (k : ℕ). take k (drop (suc (length file)) (symbol_line file name offset rest)))
      (name_width (length file) (length name))
    ∙ ap (take (length name)) (drop-suc file b'(' (name ++ tail))
    ∙ take-append name tail

caller_of_line-marks_of :
    (d : Text → Option Text) (line file name offset : Text)
    → caller_of_line d line (marks_of file name offset)
      ≡ demangled d (between (length file) (length file + 1 + length name) line)
unfolding caller_of_line
caller_of_line-marks_of d line file name offset =
    rw (lt→ltb (length file) (length file + 1 + length name) (omega arith))

-- Of a line in glibc's form the function cuts out the name and demangles it; a name that cannot be
-- demangled is returned as it is. The file name holds no `)`; the name and the offset hold none of
-- `(`, `+` and `)`. Three frames or more were found, and the line is the third.
pub print_caller_function_name-symbol_line :
    (demangle : Text → Option Text) (frames : ℕ) (l0 l1 : Text) (lines : List Text)
    (file name offset rest funcname : Text)
    → 2 < frames
    → All IsNotClose file
    → All IsPlain name
    → All IsPlain offset
    → print_caller_function_name true demangle frames
        (some (l0 ∷ l1 ∷ symbol_line file name offset rest ∷ lines))
        funcname
      ≡ some (demangled demangle name)
unfolding print_caller_function_name
print_caller_function_name-symbol_line d frames l0 l1 lines file name offset rest fn hf a b c =
    rw (lt→ltb 2 frames hf, scan-symbol_line file name offset rest a b c)
      (ap some (
        caller_of_line-marks_of d (symbol_line file name offset rest) file name offset
        ∙ ap (demangled d) (between-symbol_line file name offset rest)))

scan_never_closed :
    (i : ℕ) (xs : Text) (s : Scan) → All IsNotClose xs → (scan i xs s).offset_end ≡ s.offset_end
unfolding scan mark
scan_never_closed i [] s h = refl
scan_never_closed i (x ∷ xs) s (h, hs) =
    ground (arith, scan_never_closed (i + 1) xs (mark i x s) hs)

caller_of_line_whole :
    (d : Text → Option Text) (line : Text) (s : Scan)
    → s.offset_end ≡ none
    → caller_of_line d line s ≡ line
unfolding caller_of_line
caller_of_line_whole d line s h = ground arith

-- A third line with no `)` in it is returned whole, when three frames or more were found.
pub print_caller_function_name_whole :
    (demangle : Text → Option Text) (frames : ℕ) (l0 l1 : Text) (lines : List Text)
    (line funcname : Text)
    → 2 < frames
    → All IsNotClose line
    → print_caller_function_name true demangle frames (some (l0 ∷ l1 ∷ line ∷ lines)) funcname
      ≡ some line
unfolding print_caller_function_name
print_caller_function_name_whole d frames l0 l1 lines line fn hf h = rw (lt→ltb 2 frames hf) (
    ap some
      (caller_of_line_whole d line (scan 0 line no_marks) (scan_never_closed 0 line no_marks h)))

-- The function always answers, on every line: with as many symbols as frames, nothing is read
-- outside the array of symbols.
pub print_caller_function_name_total :
    (log_enable : Bool) (demangle : Text → Option Text) (symbols : Option (List Text))
    (funcname : Text)
    → (frames : ℕ) → ((lines : List Text) → symbols ≡ some lines → length lines ≡ frames)
    → (t : Text) × (print_caller_function_name log_enable demangle frames symbols funcname ≡ some t)
unfolding print_caller_function_name
print_caller_function_name_total false d symbols fn frames h = ([], refl)
print_caller_function_name_total true d none fn frames h = ([], refl)
print_caller_function_name_total true d (some lines) fn frames h =
    elim (Bool-cases (ltb 2 frames)) [
      | inl e ↦
          let (line, found) =
            get_elem?-lt lines 2
              (subst (λ (k : ℕ). 3 ≤ k) (sym (h lines refl)) (ltb→lt 2 frames e)) in
          (caller_of_line d line (scan 0 line no_marks), rw (e, found))
      | inr e ↦ ([], rw e)
    ]
