-- ===== src/Nscscc/Trace.antt =====
-- `nscscc_confreg::do_trace`: which sequences of commits agree with a trace.
use my_diff.Base.{
  ℕ, ◌≤◌, ◌<◌, ◌≡◌, ◌↔◌, refl, subst, ◌∙◌, true, false, not, ◌==◌, ◌&&◌, arith, if◌then◌else◌, Bool,
  List, [], ◌∷◌, length, Bool-cases, inl, inr,
}
use my_diff.Difftest.Export.{DebugInfo}
use my_diff.Nscscc.{NscsccConfreg, Entry, read_ref, judge, differs, trace_on, do_trace}

-- The numbers of a trace file.
abbrev pub render : List Entry → List ℕ
render [] = []
render (e ∷ trace) = e.cmp_flag ∷ e.pc ∷ e.wnum ∷ e.wdata ∷ render trace

-- The entries that are compared: all of them if the trace is forced, otherwise those with a flag.
abbrev pub expected : Bool → List Entry → List Entry
expected force [] = []
expected force (e ∷ trace) =
    let rest = expected force trace in if e.cmp_flag == 0 && not force then rest else e ∷ rest

abbrev pub is_write : DebugInfo → Bool
is_write k = not (k.wen == 0) && not (k.wnum == 0)

-- The commits that write a register other than 0.
abbrev pub writes : List DebugInfo → List DebugInfo
writes [] = []
writes (k ∷ commits) = let rest = writes commits in if is_write k then k ∷ rest else rest

-- `do_trace` for each commit, up to the first that it refuses.
pub accepts : NscsccConfreg → List DebugInfo → Entry → Bool
accepts c [] garbage = true
accepts c (k ∷ commits) garbage =
    let (ok, lines, c') = do_trace c k.pc k.wen k.wnum k.wdata false garbage in
    let rest = accepts c' commits garbage in if ok then rest else false

-- The commits are the first entries.
abbrev pub Agree : List DebugInfo → List Entry → Type 0
Agree [] entries = Unit {0}
Agree (k ∷ commits) [] = ⊥
Agree (k ∷ commits) (e ∷ entries) =
    (k.pc ≡ e.pc) × (k.wnum ≡ e.wnum) × (k.wdata ≡ e.wdata) × Agree commits entries

first_entry :
    (entries : List Entry)
    → 0 < length entries
    → (e : Entry) × (rest : List Entry) × (entries ≡ e ∷ rest)
first_entry [] h = absurd (omega arith)
first_entry (e ∷ rest) h = (e, rest, refl)

-- The loop reads up to the next entry that is compared.
read_ref_lem :
    (force : Bool) (trace : List Entry) (ref e : Entry) (entries : List Entry)
    → expected force trace ≡ e ∷ entries
    → (rest : List Entry) × (read_ref force (render trace) ref ≡ (e, render rest))
      × (expected force rest ≡ entries)
unfolding read_ref
read_ref_lem force [] ref e entries h = absurd (cc)
read_ref_lem force (x ∷ trace) ref e entries h = elim (Bool-cases (x.cmp_flag == 0 && not force)) [
  | inl skipped ↦
      let (rest, r, more) = read_ref_lem force trace x e entries (ground arith) in
      (rest, rw skipped r, more)
  | inr compared ↦ (trace, rw compared (ground arith), ground arith)
]

-- A commit that writes no register is not compared.
do_trace_passes :
    (c : NscsccConfreg) (k : DebugInfo) (output : Bool) (garbage : Entry)
    → is_write k ≡ false
    → do_trace c k.pc k.wen k.wnum k.wdata output garbage ≡ (true, [], c)
unfolding do_trace
do_trace_passes c k output garbage h = ground arith

-- The device after a comparison that succeeds.
abbrev compared : NscsccConfreg → DebugInfo → List Entry → NscsccConfreg
compared c k rest = record c {
  trace_file = render rest;
  last_pc = k.pc;
  last_wnum = k.wnum;
  last_wdata = k.wdata;
}

module _ (c : NscsccConfreg) (k : DebugInfo) (garbage e : Entry) (rest : List Entry)
    (read : read_ref c.force_trace c.trace_file garbage ≡ (e, render rest)) (on : trace_on c ≡ true)
    (write : is_write k ≡ true) where
  do_trace_compares :
      do_trace c k.pc k.wen k.wnum k.wdata false garbage
      ≡ judge (record c { trace_file = render rest }) k.pc k.wnum k.wdata false e
  unfolding do_trace trace_on
  do_trace_compares =
      let test : (trace_on c && not (k.wen == 0) && not (k.wnum == 0)) ≡ true =
        ground (arith, on, write) in
      rw (test, read) refl

  do_trace_accepts :
      differs k.pc k.wnum k.wdata e ≡ false
      → do_trace c k.pc k.wen k.wnum k.wdata false garbage ≡ (true, [], compared c k rest)
  unfolding judge
  do_trace_accepts same = do_trace_compares ∙ rw same refl

  do_trace_refuses :
      differs k.pc k.wnum k.wdata e ≡ true
      → do_trace c k.pc k.wen k.wnum k.wdata false garbage
        ≡ (false, [], record c { trace_file = render rest })
  unfolding judge
  do_trace_refuses other = do_trace_compares ∙ rw other refl

  accepts_write :
      (commits : List DebugInfo) (entries : List Entry)
      → (accepts (compared c k rest) commits garbage ≡ true) ↔ Agree (writes commits) entries
      → (accepts c (k ∷ commits) garbage ≡ true) ↔ Agree (writes (k ∷ commits)) (e ∷ entries)
  unfolding accepts
  accepts_write commits entries (only, back) = elim (Bool-cases (differs k.pc k.wnum k.wdata e)) [
    | inl other ↦
        rw (do_trace_refuses other, write)
          (λ r. absurd (cc), λ (pcs, wnums, wdatas, _). absurd (ground arith))
    | inr same ↦
        rw (do_trace_accepts same, write)
          (
            λ r. (ground arith, ground arith, ground arith, only r),
            λ (pcs, wnums, wdatas, agree). back agree,
          )
  ]

-- `do_trace` accepts exactly the golden runs. On a device whose trace is on and whose file is a
-- list of entries, a sequence of commits that writes no more registers than entries are left to
-- compare is accepted, call by call, if and only if its writes of registers other than 0 are, in
-- order, the first of those entries, in program counter, register and value. Entries without a
-- flag are skipped, unless the trace is forced.
pub accepts_lem :
    (commits : List DebugInfo) (c : NscsccConfreg) (trace : List Entry) (garbage : Entry)
    → c.trace_file ≡ render trace
    → trace_on c ≡ true
    → length (writes commits) ≤ length (expected c.force_trace trace)
    → (accepts c commits garbage ≡ true) ↔ Agree (writes commits) (expected c.force_trace trace)
unfolding accepts
accepts_lem [] c trace garbage file on enough = (λ r. tt, λ r. refl)
accepts_lem (k ∷ commits) c trace garbage file on enough = elim (Bool-cases (is_write k)) [
  | inr passes ↦
      rw (do_trace_passes c k false garbage passes, passes)
        (accepts_lem commits c trace garbage file on (ground arith))
  | inl write ↦
      let (e, entries, next) = first_entry (expected c.force_trace trace) (ground arith) in
      let (rest, read, more) = read_ref_lem c.force_trace trace garbage e entries next in
      let ih =
        accepts_lem commits (compared c k rest) rest garbage refl (unfold trace_on in on)
          (rw more (ground arith)) in
      rw next (
        accepts_write c k garbage e rest (rw file read) on write commits entries (
          subst
            (λ t. (accepts (compared c k rest) commits garbage ≡ true) ↔ Agree (writes commits) t)
            more ih))
]
