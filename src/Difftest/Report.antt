-- ===== src/Difftest/Report.antt =====
-- `difftest_show_error` of csrc/difftest.cpp: the lines that it prints.
use native.Mathlib.Decide.{ℕ_discrete}
use my_diff.Base.{
  ℕ, zero, suc, ◌+◌, ◌≤◌, ◌<◌, ◌≡◌, refl, ap, ap₂, ◌∙◌, Bool, true, false, not, ◌==◌, ◌&&◌, ◌||◌,
  List, [], ◌∷◌, ◌++◌, get_elem?, get_elem?-eq-get_or, length, arith, if◌then◌else◌, Outcome, done,
  in_bounds, ◌>>=◌, Bool-cases, inl, inr,
}
use my_diff.Difftest.{DiffState, difftest_check, same_gprs}
use my_diff.Difftest.Check.{gpr_at}

-- What a line is about.
pub data Name : Type 0 where
  reg : ℕ → Name
  pc : Name

-- A value of the CPU in the plain colour, one that differs in red, and the reference's in green.
pub data Line : Type 0 where
  plain red green : Name → ℕ → Line

-- The lines for one value; `error` says that it differs.
shown : Name → ℕ → ℕ → List Line
shown name value expected =
    if expected == value then plain name value ∷ [] else red name value ∷ green name expected ∷ []

-- The loop from register `i` on, with `left` registers to go.
show_gprs : DiffState → DiffState → ℕ → ℕ → Outcome (List Line)
show_gprs cpu ref zero i = done []
show_gprs cpu ref (suc left) i = do
  expected ← in_bounds (get_elem? ref.gpr i)
  value ← in_bounds (get_elem? cpu.gpr i)
  rest ← show_gprs cpu ref left (i + 1)
  done (shown (reg i) value expected ++ rest)

-- The lines after the heading.
pub difftest_show_error : DiffState → DiffState → Outcome (List Line)
unfolding show_gprs shown
difftest_show_error cpu ref = do
  lines ← show_gprs cpu ref 32 0
  done (lines ++ shown pc cpu.pc ref.pc)

-- The line is one of the CPU, in either colour.
abbrev pub of_cpu : List Line → List Line
of_cpu [] = []
of_cpu (plain name v ∷ lines) = plain name v ∷ of_cpu lines
of_cpu (red name v ∷ lines) = red name v ∷ of_cpu lines
of_cpu (green name v ∷ lines) = of_cpu lines

-- The line marks a difference.
abbrev pub has_red : List Line → Bool
has_red [] = false
has_red (red name v ∷ lines) = true
has_red (plain name v ∷ lines) = has_red lines
has_red (green name v ∷ lines) = has_red lines

-- The lines for registers `i` to `i + left`, by the states' values.
pub reported : DiffState → DiffState → ℕ → ℕ → List Line
reported cpu ref zero i = []
reported cpu ref (suc left) i =
    let value = gpr_at cpu i in
    let expected = gpr_at ref i in
    let rest = reported cpu ref left (i + 1) in
    if expected == value
    then plain (reg i) value ∷ rest
    else red (reg i) value ∷ green (reg i) expected ∷ rest

show_gprs_lem :
    (left : ℕ) (cpu ref : DiffState) (i : ℕ)
    → i + left ≤ length cpu.gpr
    → i + left ≤ length ref.gpr
    → show_gprs cpu ref left i ≡ done (reported cpu ref left i)
unfolding show_gprs shown reported
show_gprs_lem zero cpu ref i hc hr = refl
show_gprs_lem (suc left) cpu ref i hc hr =
    rw
      (
        get_elem?-eq-get_or ref.gpr i 0 (omega arith),
        get_elem?-eq-get_or cpu.gpr i 0 (omega arith),
        show_gprs_lem left cpu ref (i + 1) (omega arith) (omega arith),
      )
      (elim (Bool-cases (gpr_at ref i == gpr_at cpu i)) [
        | inl same ↦ rw same refl
        | inr other ↦ rw other refl
      ])

has_red-append : (xs ys : List Line) → has_red (xs ++ ys) ≡ (has_red xs || has_red ys)
has_red-append [] ys = refl
has_red-append (plain name v ∷ xs) ys = has_red-append xs ys
has_red-append (green name v ∷ xs) ys = has_red-append xs ys
has_red-append (red name v ∷ xs) ys = refl

length-of_cpu-append :
    (xs ys : List Line) → length (of_cpu (xs ++ ys)) ≡ length (of_cpu xs) + length (of_cpu ys)
length-of_cpu-append [] ys = omega arith
length-of_cpu-append (plain name v ∷ xs) ys = omega (arith, length-of_cpu-append xs ys)
length-of_cpu-append (red name v ∷ xs) ys = omega (arith, length-of_cpu-append xs ys)
length-of_cpu-append (green name v ∷ xs) ys = length-of_cpu-append xs ys

length-reported :
    (left : ℕ) (cpu ref : DiffState) (i : ℕ) → length (of_cpu (reported cpu ref left i)) ≡ left
unfolding reported
length-reported zero cpu ref i = refl
length-reported (suc left) cpu ref i = elim (Bool-cases (gpr_at ref i == gpr_at cpu i)) [
  | inl same ↦ rw same (ap suc (length-reported left cpu ref (i + 1)))
  | inr other ↦ rw other (ap suc (length-reported left cpu ref (i + 1)))
]

-- The comparison of the registers is false exactly if a line is red.
same_gprs-reported :
    (left : ℕ) (cpu ref : DiffState) (i : ℕ) (ans : Bool)
    → i + left ≤ length cpu.gpr
    → i + left ≤ length ref.gpr
    → same_gprs cpu ref left i ans ≡ done (ans && not (has_red (reported cpu ref left i)))
unfolding same_gprs reported
same_gprs-reported zero cpu ref i ans hc hr = ground arith
same_gprs-reported (suc left) cpu ref i ans hc hr =
    let here = gpr_at ref i == gpr_at cpu i in
    rw
      (get_elem?-eq-get_or ref.gpr i 0 (omega arith), get_elem?-eq-get_or cpu.gpr i 0 (omega arith))
      (same_gprs-reported left cpu ref (i + 1) (ans && here) (omega arith) (omega arith)
        ∙ ground arith)

length-shown : (name : Name) (value expected : ℕ) → length (of_cpu (shown name value expected)) ≡ 1
unfolding shown
length-shown name value expected = ground arith

has_red-shown :
    (name : Name) (value expected : ℕ) (lines : List Line)
    → (expected == value && not (has_red lines))
      ≡ not (has_red (lines ++ shown name value expected))
unfolding shown
has_red-shown name value expected lines =
    ground (arith, has_red-append lines (shown name value expected))

abbrev pub same_name : Name → Name → Bool
same_name (reg i) (reg j) = i == j
same_name pc pc = true
same_name _ _ = false

-- The lines about one value.
abbrev pub about : Name → List Line → List Line
about name [] = []
about name (plain m v ∷ lines) =
    if same_name name m then plain m v ∷ about name lines else about name lines
about name (red m v ∷ lines) =
    if same_name name m then red m v ∷ about name lines else about name lines
about name (green m v ∷ lines) =
    if same_name name m then green m v ∷ about name lines else about name lines

-- What is to be seen of a value: its own line, or two lines if the reference has another value.
abbrev pub told : Name → ℕ → ℕ → List Line
told name value expected =
    if value == expected then plain name value ∷ [] else red name value ∷ green name expected ∷ []

about-append :
    (name : Name) (xs ys : List Line) → about name (xs ++ ys) ≡ about name xs ++ about name ys
about-append name [] ys = refl
about-append name (plain m v ∷ xs) ys = ground (arith, about-append name xs ys)
about-append name (red m v ∷ xs) ys = ground (arith, about-append name xs ys)
about-append name (green m v ∷ xs) ys = ground (arith, about-append name xs ys)

about_reg-shown : (r value expected : ℕ) → about (reg r) (shown pc value expected) ≡ []
unfolding shown
about_reg-shown r value expected = ground arith

about_pc-shown : (value expected : ℕ) → about pc (shown pc value expected) ≡ told pc value expected
unfolding shown
about_pc-shown value expected = ground arith

about_pc-reported :
    (left : ℕ) (cpu ref : DiffState) (i : ℕ) → about pc (reported cpu ref left i) ≡ []
unfolding reported
about_pc-reported zero cpu ref i = refl
about_pc-reported (suc left) cpu ref i = ground (arith, about_pc-reported left cpu ref (i + 1))

about_earlier :
    (left : ℕ) (cpu ref : DiffState) (i r : ℕ)
    → r < i
    → about (reg r) (reported cpu ref left i) ≡ []
unfolding reported
about_earlier zero cpu ref i r lt = refl
about_earlier (suc left) cpu ref i r lt =
    ground (arith, about_earlier left cpu ref (i + 1) r (omega arith))

about_reg-reported :
    (left : ℕ) (cpu ref : DiffState) (i r : ℕ)
    → i ≤ r
    → r < i + left
    → about (reg r) (reported cpu ref left i) ≡ told (reg r) (gpr_at cpu r) (gpr_at ref r)
unfolding reported
about_reg-reported zero cpu ref i r lo hi = absurd (omega arith)
about_reg-reported (suc left) cpu ref i r lo hi = elim (ℕ_discrete r i) [
  | yes e ↦ rw e (ground (arith, about_earlier left cpu ref (i + 1) i (omega arith)))
  | no n ↦ ground (arith, about_reg-reported left cpu ref (i + 1) r (omega arith) (omega arith))
]

told_end :
    (name : Name) (value expected : ℕ) → told name value expected ++ [] ≡ told name value expected
told_end name value expected = ground arith

-- The report, on two states of 32 registers. `difftest_show_error` returns. For each register, and for
-- the program counter, the lines about it are one with the CPU's value in the plain colour where the
-- reference has the same value, and else one with the CPU's value in red and one with the reference's in
-- green. No other line shows a value of the CPU: there are 33. A line is red exactly if `difftest_check`
-- returns false.
pub difftest_show_error_lem :
    (cpu ref : DiffState)
    → length cpu.gpr ≡ 32
    → length ref.gpr ≡ 32
    → (lines : List Line) × (difftest_show_error cpu ref ≡ done lines)
      × ((r : ℕ) → r < 32 → about (reg r) lines ≡ told (reg r) (gpr_at cpu r) (gpr_at ref r))
      × (about pc lines ≡ told pc cpu.pc ref.pc)
      × (length (of_cpu lines) ≡ 33)
      × (difftest_check cpu ref ≡ done (not (has_red lines)))
unfolding difftest_show_error difftest_check
difftest_show_error_lem cpu ref hc hr =
    let gprs = reported cpu ref 32 0 in
    let pcs = shown pc cpu.pc ref.pc in
    (
      gprs ++ pcs,
      rw (show_gprs_lem 32 cpu ref 0 (omega arith) (omega arith)) refl,
      λ r lt.
          about-append (reg r) gprs pcs
          ∙ ap₂ (λ xs ys. xs ++ ys) (about_reg-reported 32 cpu ref 0 r (omega arith) (omega arith))
              (about_reg-shown r cpu.pc ref.pc)
          ∙ told_end (reg r) (gpr_at cpu r) (gpr_at ref r),
      about-append pc gprs pcs
          ∙ ap₂ (λ xs ys. xs ++ ys) (about_pc-reported 32 cpu ref 0) (about_pc-shown cpu.pc ref.pc),
      length-of_cpu-append gprs pcs
          ∙ omega (arith, length-reported 32 cpu ref 0, length-shown pc cpu.pc ref.pc),
      same_gprs-reported 32 cpu ref 0 (ref.pc == cpu.pc) (omega arith) (omega arith)
          ∙ ap (λ b. done b) (has_red-shown pc cpu.pc ref.pc gprs),
    )
