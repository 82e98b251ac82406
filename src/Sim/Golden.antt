-- ===== src/Sim/Golden.antt =====
-- `compare` of csrc/diff-main.cpp: the comparison of a commit with a golden trace.
use my_diff.Base.{
  ℕ, ◌+◌, ◌^◌, ◌≤◌, ◌<◌, ◌≡◌, ◌≢◌, ◌↔◌, refl, ◌∙◌, Bool, true, false, not, ◌==◌, ◌&&◌, List, [],
  ◌∷◌, length, arith, u8, u64, if◌then◌else◌, Bool-cases, inl, inr,
}
use my_diff.Axi.{SimStatus, sim_run, sim_abort, assert_sim}
use my_diff.Difftest.Export.{DebugInfo}
use my_diff.Nscscc.{Entry}
use my_diff.Nscscc.Trace.{render, is_write, writes}

abbrev pub end_pc : ℕ
end_pc = 0xbfc00100

-- The globals: the numbers left in the file, the count of instructions and the state.
pub record Golden : Type 0 where
  pub golden_trace : List ℕ
  pub inst_count : ℕ
  pub sim_status : SimStatus

-- `fscanf(golden_trace, "%u %x %x %x", …)` into the variables `ref`; what is not read stays.
scan : List ℕ → Entry → Entry × List ℕ
scan (check ∷ pc ∷ wnum ∷ wdata ∷ file) ref =
    (record { cmp_flag = check; pc = pc; wnum = wnum; wdata = wdata }, file)
scan (check ∷ pc ∷ wnum ∷ []) ref = (record ref { cmp_flag = check; pc = pc; wnum = wnum }, [])
scan (check ∷ pc ∷ []) ref = (record ref { cmp_flag = check; pc = pc }, [])
scan (check ∷ []) ref = (record ref { cmp_flag = check }, [])
scan [] ref = (ref, [])

-- The test of the assertion; `ref.wnum` is of type `unsigned char`.
abbrev same : DebugInfo → Entry → Bool
same debug ref = debug.pc == ref.pc && debug.wnum == u8 ref.wnum && debug.wdata == ref.wdata

check_write : DebugInfo → Entry → Golden → Golden
unfolding scan
check_write debug garbage g =
    let (ref, file) = scan g.golden_trace garbage in
    record {
      golden_trace = file;
      inst_count = u64 (g.inst_count + 1);
      sim_status =
          if same debug ref then g.sim_status else assert_sim (same debug ref) g.sim_status;
    }

unfoldable pub compare : DebugInfo → Entry → Golden → Golden
unfolding check_write
compare debug garbage g =
    let begun = record g { sim_status = assert_sim (not (debug.pc == end_pc)) g.sim_status } in
    if is_write debug then check_write debug garbage begun else begun

-- A run of commits.
unfoldable pub compare_all : List DebugInfo → Entry → Golden → Golden
compare_all [] garbage g = g
compare_all (debug ∷ commits) garbage g = compare_all commits garbage (compare debug garbage g)

-- The commits are the first entries.
abbrev pub AgreeAll : List DebugInfo → List Entry → Type 0
AgreeAll [] trace = Unit {0}
AgreeAll (debug ∷ commits) [] = ⊥
AgreeAll (debug ∷ commits) (e ∷ trace) =
    (debug.pc ≡ e.pc) × (debug.wnum ≡ u8 e.wnum) × (debug.wdata ≡ e.wdata) × AgreeAll commits trace

-- No commit is at the end.
abbrev pub BeforeEnd : List DebugInfo → Type 0
BeforeEnd [] = Unit {0}
BeforeEnd (debug ∷ commits) = (debug.pc ≢ end_pc) × BeforeEnd commits

-- A simulation that has failed stays so.
assert_sim-abort : (b : Bool) → assert_sim b sim_abort ≡ sim_abort
assert_sim-abort true = refl
assert_sim-abort false = refl

compare-abort :
    (debug : DebugInfo) (garbage : Entry) (g : Golden)
    → g.sim_status ≡ sim_abort
    → (compare debug garbage g).sim_status ≡ sim_abort
unfolding compare
compare-abort debug garbage g e = ground (arith, e, assert_sim-abort (not (debug.pc == end_pc)))

compare_all-abort :
    (commits : List DebugInfo) (garbage : Entry) (g : Golden)
    → g.sim_status ≡ sim_abort
    → (compare_all commits garbage g).sim_status ≡ sim_abort
unfolding compare_all
compare_all-abort [] garbage g e = e
compare_all-abort (debug ∷ commits) garbage g e =
    compare_all-abort commits garbage (compare debug garbage g) (compare-abort debug garbage g e)

compare_passes :
    (debug : DebugInfo) (garbage : Entry) (g : Golden)
    → debug.pc ≢ end_pc
    → is_write debug ≡ false
    → compare debug garbage g ≡ g
unfolding compare
compare_passes debug garbage g inside passes = ground arith

compare_write :
    (debug : DebugInfo) (garbage e : Entry) (trace : List Entry) (g : Golden)
    → debug.pc ≢ end_pc
    → is_write debug ≡ true
    → g.golden_trace ≡ render (e ∷ trace)
    → compare debug garbage g ≡ record {
      golden_trace = render trace;
      inst_count = u64 (g.inst_count + 1);
      sim_status = if same debug e then g.sim_status else sim_abort;
    }
unfolding compare
compare_write debug garbage e trace g inside write file =
    let before : (debug.pc == end_pc) ≡ false = ground arith in
    rw (before, write, file)
      (elim (Bool-cases (same debug e)) [ inl equal ↦ rw equal refl | inr other ↦ rw other refl ])

-- After a write has been compared.
abbrev passed : List Entry → Golden → SimStatus → Golden
passed trace g status = record {
  golden_trace = render trace;
  inst_count = u64 (g.inst_count + 1);
  sim_status = status;
}

status_lem :
    (commits : List DebugInfo) (trace : List Entry) (garbage : Entry) (g : Golden)
    → g.golden_trace ≡ render trace
    → g.sim_status ≡ sim_run
    → BeforeEnd commits
    → length (writes commits) ≤ length trace
    → ((compare_all commits garbage g).sim_status ≡ sim_run) ↔ AgreeAll (writes commits) trace
unfolding compare_all
status_lem [] trace garbage g file running before enough = (λ r. tt, λ r. running)
status_lem (debug ∷ commits) [] garbage g file running (here, before) enough =
    elim (Bool-cases (is_write debug)) [
      | inr passes ↦
          rw (compare_all, compare_passes debug garbage g here passes, passes)
            (status_lem commits [] garbage g file running before (ground arith))
      | inl write ↦ absurd (ground arith)
    ]
status_lem (debug ∷ commits) (e ∷ trace) garbage g file running (here, before) enough =
    elim (Bool-cases (is_write debug)) [
      | inr passes ↦
          rw (compare_all, compare_passes debug garbage g here passes, passes)
            (status_lem commits (e ∷ trace) garbage g file running before (ground arith))
      | inl write ↦
          rw (compare_all, compare_write debug garbage e trace g here write file, write)
            (elim (Bool-cases (same debug e)) [
              | inl equal ↦
                  let (only, back) =
                    status_lem commits trace garbage (passed trace g g.sim_status) refl running
                      before (ground arith) in
                  rw equal (
                    λ r. (ground arith, ground arith, ground arith, only r),
                    λ (pcs, wnums, wdatas, agree). back agree,
                  )
              | inr other ↦
                  rw (other, compare_all-abort commits garbage (passed trace g sim_abort) refl)
                    (λ r. absurd (cc), λ (pcs, wnums, wdatas, agree). absurd (ground arith))
            ])
    ]

compare-inst_count :
    (debug : DebugInfo) (garbage : Entry) (g : Golden)
    → (compare debug garbage g).inst_count
      ≡ (if is_write debug then u64 (g.inst_count + 1) else g.inst_count)
unfolding compare
compare-inst_count debug garbage g = ground arith

count_lem :
    (commits : List DebugInfo) (garbage : Entry) (g : Golden)
    → g.inst_count < 2 ^ 64
    → (compare_all commits garbage g).inst_count ≡ u64 (g.inst_count + length (writes commits))
unfolding compare_all
count_lem [] garbage g small = omega arith
count_lem (debug ∷ commits) garbage g small =
    let step = compare-inst_count debug garbage g in
    let rest = count_lem commits garbage (compare debug garbage g) (ground arith) in
    elim (Bool-cases (is_write debug)) [
      | inl write ↦ rest ∙ ground arith
      | inr passes ↦ rest ∙ ground arith
    ]

-- `compare` accepts exactly the golden runs. On a running simulation and a file that is a list of
-- entries, after commits none of which is at the end address and which write no more registers than
-- the file has entries, the simulation still runs if and only if the writes of registers other than
-- 0 are, in order, the first entries of the file, in program counter, register and value; and
-- `inst_count`, a 64-bit word, has grown by their number. Every entry is compared, whatever its
-- flag.
pub compare_all_lem :
    (commits : List DebugInfo) (trace : List Entry) (garbage : Entry) (g : Golden)
    → g.golden_trace ≡ render trace
    → g.sim_status ≡ sim_run
    → BeforeEnd commits
    → length (writes commits) ≤ length trace
    → g.inst_count < 2 ^ 64
    → (((compare_all commits garbage g).sim_status ≡ sim_run) ↔ AgreeAll (writes commits) trace)
      × ((compare_all commits garbage g).inst_count ≡ u64 (g.inst_count + length (writes commits)))
compare_all_lem commits trace garbage g file running before enough small = (
  status_lem commits trace garbage g file running before enough,
  count_lem commits garbage g small,
)
