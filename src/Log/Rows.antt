-- ===== src/Log/Rows.antt =====
-- Which rows `log_init` clears, and what is left to print.
use native.Mathlib.Nat.{mul-le-mul_right}
use my_diff.Base.{
  before_or_last, ℕ, zero, suc, ◌+◌, ◌*◌, ◌≤◌, ◌<◌, ◌≡◌, refl, ap, ◌∙◌, List, [], ◌∷◌, length,
  get_or, get_elem?-eq-get_or, some, arith, done, fault, ◌⊎◌, inl, inr,
}
use my_diff.Log.{Log, cleared, clear_row, clear_rows, print_row, print_rows}

length-cleared : (bytes : List ℕ) (at n : ℕ) → length (cleared bytes at n) ≡ length bytes
unfolding cleared
length-cleared [] at n = refl
length-cleared (b ∷ bytes) zero zero = refl
length-cleared (b ∷ bytes) zero (suc n) = ap suc (length-cleared bytes zero n)
length-cleared (b ∷ bytes) (suc at) n = ap suc (length-cleared bytes at n)

-- The first byte is 0 then.
cleared_first : (bytes : List ℕ) (at n : ℕ) → 0 < n → get_or (cleared bytes at n) at 0 ≡ 0
unfolding cleared
cleared_first [] at n some_byte = refl
cleared_first (b ∷ bytes) zero zero some_byte = absurd (omega arith)
cleared_first (b ∷ bytes) zero (suc n) some_byte = refl
cleared_first (b ∷ bytes) (suc at) n some_byte = cleared_first bytes at n some_byte

-- A byte that is 0 stays so.
cleared_keeps :
    (bytes : List ℕ) (at n j : ℕ) → get_or bytes j 0 ≡ 0 → get_or (cleared bytes at n) j 0 ≡ 0
unfolding cleared
cleared_keeps [] at n j h = h
cleared_keeps (b ∷ bytes) zero zero j h = h
cleared_keeps (b ∷ bytes) zero (suc n) zero h = refl
cleared_keeps (b ∷ bytes) zero (suc n) (suc j) h = cleared_keeps bytes zero n j h
cleared_keeps (b ∷ bytes) (suc at) n zero h = h
cleared_keeps (b ∷ bytes) (suc at) n (suc j) h = cleared_keeps bytes at n j h

module _ (len nr : ℕ) where
  -- The rows up to `i` begin with 0.
  abbrev pub Blank : List ℕ → ℕ → Type 0
  Blank lring i = (j : ℕ) → j < i → get_or lring (j * nr) 0 ≡ 0

  clear_row_lem :
      (lring : List ℕ) (i : ℕ)
      → i * nr + len ≤ length lring
      → clear_row len nr lring i ≡ done (cleared lring (i * nr) len)
  unfolding clear_row
  clear_row_lem lring i fits = ground arith

  clear_row_overrun :
      (lring : List ℕ) (i : ℕ) → length lring < i * nr + len → clear_row len nr lring i ≡ fault
  unfolding clear_row
  clear_row_overrun lring i over = ground arith

  in_or_over :
      (lring : List ℕ) (i : ℕ)
      → (clear_row len nr lring i ≡ done (cleared lring (i * nr) len))
        ⊎ (clear_row len nr lring i ≡ fault)
  unfolding clear_row
  in_or_over lring i = ground arith

  cleared-Blank :
      (lring : List ℕ) (i : ℕ)
      → 0 < len
      → Blank lring i
      → Blank (cleared lring (i * nr) len) (i + 1)
  cleared-Blank lring i some_byte blank j below = elim (before_or_last j i below) [
    | inl before ↦ cleared_keeps lring (i * nr) len (j * nr) (blank j before)
    | inr last ↦ rw last (cleared_first lring (i * nr) len some_byte)
  ]

  -- The loop clears the rows that are in the array.
  pub clear_rows_lem :
      (k i : ℕ) (lring : List ℕ)
      → 0 < len
      → ((j : ℕ) → j < i + k → j * nr + len ≤ length lring)
      → Blank lring i
      → (lring' : List ℕ) × (clear_rows len nr k i lring ≡ done lring')
        × (length lring' ≡ length lring)
        × Blank lring' (i + k)
  unfolding clear_rows
  clear_rows_lem zero i lring some_byte fits blank =
      (lring, refl, refl, λ j h. blank j (omega arith))
  clear_rows_lem (suc k) i lring some_byte fits blank =
      let same = length-cleared lring (i * nr) len in
      let (lring', ran, size, clean) =
        clear_rows_lem k (i + 1) (cleared lring (i * nr) len) some_byte
          (λ j h. rw same (fits j (omega arith))) (cleared-Blank lring i some_byte blank) in
      (
        lring',
        rw (clear_row_lem lring i (fits i (omega arith))) ran,
        size ∙ same,
        λ j h. clean j (omega arith),
      )

  -- It leaves the array if its last row does.
  pub clear_rows_overrun :
      (k i : ℕ) (lring : List ℕ)
      → length lring < (i + k) * nr + len
      → clear_rows len nr (suc k) i lring ≡ fault
  unfolding clear_rows
  clear_rows_overrun zero i lring over =
      let here : i + 0 ≡ i = omega arith in rw (clear_row_overrun lring i (rw here at over)) refl
  clear_rows_overrun (suc k) i lring over = elim (in_or_over lring i) [
    | inl e ↦
        let later : i + suc k ≡ i + 1 + k = omega arith in
        let same = length-cleared lring (i * nr) len in
        rw e
          (clear_rows_overrun k (i + 1) (cleared lring (i * nr) len) (rw same (rw later at over)))
    | inr e ↦ rw e refl
  ]

  -- Blank rows print nothing.
  pub print_rows_lem :
      (k i : ℕ) (log : Log)
      → log.lring_head ≡ 0
      → ((j : ℕ) → j < i + k → j * nr < length log.lring)
      → Blank log.lring (i + k)
      → print_rows len nr k i log ≡ done []
  unfolding print_rows print_row
  print_rows_lem zero i log head inside blank = refl
  print_rows_lem (suc k) i log head inside blank =
      let at : log.lring_head + i ≡ i = omega (arith, head) in
      let first =
        get_elem?-eq-get_or log.lring (i * nr) 0 (inside i (omega arith))
        ∙ ap some (blank i (omega arith)) in
      let rest =
        print_rows_lem k (i + 1) log head (λ j h. inside j (omega arith))
          (λ j h. blank j (omega arith)) in
      rw (at, first, rest) refl

  pub rows_fit : (j m : ℕ) → nr ≡ suc m → nr ≤ len → j < nr → j * nr + len ≤ len * nr
  rows_fit j m shape small below =
      let before : j * nr ≤ m * nr = mul-le-mul_right nr (omega (arith, shape)) in
      let wide : nr * m ≤ len * m = mul-le-mul_right m small in
      let whole : len * nr ≡ len * m + len = rw shape (grind arith) in omega (arith, whole)

  pub last_row_over : (m : ℕ) → nr ≡ suc (suc m) → len < nr → len * nr < (0 + suc m) * nr + len
  last_row_over m shape small =
      let more : (len + 1) * suc m ≤ nr * suc m = mul-le-mul_right (suc m) (omega arith) in
      let whole : len * nr ≡ len * suc m + len = rw shape (grind arith) in
      let split : (len + 1) * suc m ≡ len * suc m + suc m = grind arith in
      omega (arith, whole, split, more)
