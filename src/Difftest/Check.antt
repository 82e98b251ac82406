-- ===== src/Difftest/Check.antt =====
-- What `difftest_check` decides.
use my_diff.Base.{
  ℕ, zero, suc, ◌+◌, ◌≤◌, ◌<◌, ◌≡◌, ◌↔◌, refl, Bool, true, ◌&&◌, ◌==◌, get_or, get_elem?-eq-get_or,
  length, arith, done,
}
use native.Mathlib.Decide.{ℕ_discrete}
use my_diff.Difftest.{DiffState, difftest_check, same_gprs}

-- Register `i`.
abbrev pub gpr_at : DiffState → ℕ → ℕ
gpr_at state i = get_or state.gpr i 0

same_gprs_lem :
    (left : ℕ) (cpu ref : DiffState) (i : ℕ) (ans : Bool)
    → i + left ≤ length cpu.gpr
    → i + left ≤ length ref.gpr
    → (res : Bool) × (same_gprs cpu ref left i ans ≡ done res)
      × ((res ≡ true)
          ↔ ((ans ≡ true) × ((r : ℕ) → i ≤ r → r < i + left → gpr_at cpu r ≡ gpr_at ref r)))
unfolding same_gprs
same_gprs_lem zero cpu ref i ans hc hr =
    (ans, refl, (λ e. (e, λ r lo hi. absurd (omega arith)), λ (e, _). e))
same_gprs_lem (suc left) cpu ref i ans hc hr =
    let here = gpr_at ref i == gpr_at cpu i in
    let (res, e, (only, back)) =
      same_gprs_lem left cpu ref (i + 1) (ans && here) (omega arith) (omega arith) in
    (
      res,
      rw
          (
            get_elem?-eq-get_or ref.gpr i 0 (omega arith),
            get_elem?-eq-get_or cpu.gpr i 0 (omega arith),
          )
          e,
      (
        λ r.
            let (both, rest) = only r in
            let first : gpr_at cpu i ≡ gpr_at ref i = ground arith in
            (
              ground arith,
              λ n lo hi. elim (ℕ_discrete n i) [
                | yes same ↦ rw same first
                | no other ↦ rest n (omega arith) (omega arith)
              ],
            ),
        λ (on, agree).
            let first : gpr_at cpu i ≡ gpr_at ref i = agree i (omega arith) (omega arith) in
            back (ground arith, λ n lo hi. agree n (omega arith) (omega arith)),
      ),
    )

-- `difftest_check` on two states of 32 registers returns, and returns true exactly if the program
-- counters and all the registers are the same; `hi` and `lo` are not compared.
pub difftest_check_lem :
    (cpu ref : DiffState)
    → length cpu.gpr ≡ 32
    → length ref.gpr ≡ 32
    → (res : Bool) × (difftest_check cpu ref ≡ done res)
      × ((res ≡ true) ↔ ((cpu.pc ≡ ref.pc) × ((r : ℕ) → r < 32 → gpr_at cpu r ≡ gpr_at ref r)))
unfolding difftest_check
difftest_check_lem cpu ref hc hr =
    let (res, e, (only, back)) =
      same_gprs_lem 32 cpu ref 0 (ref.pc == cpu.pc) (omega (arith, hc)) (omega (arith, hr)) in
    (
      res,
      e,
      (
        λ r. let (pcs, all) = only r in (ground arith, λ n lt. all n (omega arith) (omega arith)),
        λ (pcs, all). back (ground arith, λ n lo hi. all n (omega arith)),
      ),
    )
