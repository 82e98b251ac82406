-- ===== src/MmioMem/Compare.antt =====
-- The comparison of what is written with the other memory.
use my_diff.Base.{
  ℕ, zero, suc, ◌+◌, ◌≤◌, ◌<◌, ◌≡◌, ◌↔◌, refl, sym, ap, ◌∙◌, Bool, true, false, List, ◌==◌,
  if◌then◌else◌, get_elem?-eq-get_or, length, arith, done,
}
use my_diff.Pmem.Bytes.{byte_at}
use my_diff.MmioMem.{compare}

-- The two memories agree on `n` bytes from `start` on.
abbrev pub Agree : List ℕ → List ℕ → ℕ → ℕ → Type 0
Agree mem diff_mem start n =
    (i : ℕ) → i < n → byte_at mem (start + i) ≡ byte_at diff_mem (start + i)

next_byte : (mem : List ℕ) (start i : ℕ) → byte_at mem (start + 1 + i) ≡ byte_at mem (start + suc i)
next_byte mem start i = ap (byte_at mem) {x = start + 1 + i} {y = start + suc i} (omega arith)

first_byte : (mem : List ℕ) (start : ℕ) → byte_at mem start ≡ byte_at mem (start + 0)
first_byte mem start = ap (byte_at mem) {x = start} {y = start + 0} (omega arith)

Agree-suc :
    (n : ℕ) (mem diff_mem : List ℕ) (start : ℕ)
    → byte_at mem start ≡ byte_at diff_mem start
    → Agree mem diff_mem (start + 1) n
    → Agree mem diff_mem start (suc n)
Agree-suc n mem diff_mem start first rest zero lt =
    sym (first_byte mem start) ∙ first ∙ first_byte diff_mem start
Agree-suc n mem diff_mem start first rest (suc i) lt =
    sym (next_byte mem start i) ∙ rest i (omega arith) ∙ next_byte diff_mem start i

pub compare_lem :
    (n : ℕ) (mem diff_mem : List ℕ) (start : ℕ) (running : Bool)
    → start + n ≤ length mem
    → start + n ≤ length diff_mem
    → (res : Bool) × (compare mem diff_mem start n running ≡ done res)
      × ((res ≡ true) ↔ ((running ≡ true) × Agree mem diff_mem start n))
unfolding compare
compare_lem zero mem diff_mem start running hm hd =
    (running, refl, (λ e. (e, λ i lt. absurd (omega arith)), λ (e, _). e))
compare_lem (suc n) mem diff_mem start running hm hd =
    let same = byte_at mem start == byte_at diff_mem start in
    let (res, e, (only, back)) =
      compare_lem n mem diff_mem (start + 1) (if same then running else false) (omega arith)
        (omega arith) in
    (
      res,
      rw
          (
            get_elem?-eq-get_or mem start 0 (omega arith),
            get_elem?-eq-get_or diff_mem start 0 (omega arith),
          )
          e,
      (
        λ r.
            let (on, rest) = only r in
            (ground arith, Agree-suc n mem diff_mem start (ground arith) rest),
        λ (on, agree).
            let first : byte_at mem start ≡ byte_at diff_mem start =
              first_byte mem start ∙ agree 0 (omega arith) ∙ sym (first_byte diff_mem start) in
            back (
              ground arith,
              λ i lt.
                  next_byte mem start i
                  ∙ agree (suc i) (omega arith)
                  ∙ sym (next_byte diff_mem start i),
            ),
      ),
    )
