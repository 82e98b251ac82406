-- ===== src/MmioMem/Access.antt =====
-- `mmio_mem::do_read` and `do_write`: where an access goes, what it reads back, and when the
-- comparison stops the simulation.
use native.Mathlib.Nat.{mod-lt}
use my_diff.Base.{
  ℕ, suc, ◌+◌, ◌-◌, ◌%◌, ◌^◌, ◌≤◌, ◌<◌, ◌≡◌, ◌↔◌, refl, sym, ap, ◌∙◌, Bool, true, false, ◌&&◌, List,
  [], ◌∷◌, ltb, leb, if◌then◌else◌, Bool-cases, inl, inr, get_elem?-eq-get_or, length, Option, none,
  some, arith, Outcome, done,
}
use my_diff.Pmem.{read_file}
use my_diff.Pmem.Bytes.{byte_at, Stored}
use my_diff.Pmem.Loading.{read_file-Stored}
use my_diff.MmioMem.{MmioMem, copy_out, place, read_at, write_at, do_read, do_write}
use my_diff.MmioMem.Compare.{Agree, compare_lem}

-- The memory has the size that it says, and one that fits an address.
pub record IsMem (m : MmioMem) : Type 0 where
  pub size : m.mem_size ≡ length m.mem
  pub room : 0 < m.mem_size
  pub small : m.mem_size < 2 ^ 63

-- Where an access goes: to its address if it ends inside the memory, else, if wrapping is allowed, to
-- the remainder if that ends inside, and else nowhere.
abbrev pub spot : MmioMem → ℕ → ℕ → Option ℕ
spot m start size =
    if leb (start + size) m.mem_size
    then some start
    else if m.allow_warp && leb (start % m.mem_size + size) m.mem_size
    then some (start % m.mem_size)
    else none

place-eq-spot :
    (m : MmioMem) (start size : ℕ)
    → IsMem m
    → start + size < 2 ^ 63
    → place m start size ≡ done (spot m start size)
unfolding place
place-eq-spot m start size h small =
    let lt : start % m.mem_size < m.mem_size = mod-lt start h.room in
    ground (arith, h.room, h.small)

spot-le : (m : MmioMem) (start size at : ℕ) → spot m start size ≡ some at → at + size ≤ m.mem_size
spot-le m start size at e = ground arith

copy_out_lem :
    (xs mem : List ℕ) (start : ℕ)
    → start + length xs ≤ length mem
    → ((i : ℕ) → i < length xs → byte_at mem (start + i) ≡ byte_at xs i)
    → copy_out mem start (length xs) ≡ done xs
unfolding copy_out
copy_out_lem [] mem start room same = refl
copy_out_lem (x ∷ xs) mem start room same =
    let first : byte_at mem start ≡ x =
      ap (byte_at mem) {x = start} {y = start + 0} (omega arith) ∙ same 0 (omega arith) in
    let rest : copy_out mem (start + 1) (length xs) ≡ done xs =
      copy_out_lem xs mem (start + 1) (omega arith) (λ i lt.
        ap (byte_at mem) {x = start + 1 + i} {y = start + suc i} (omega arith)
        ∙ same (suc i) (omega arith)) in
    rw (get_elem?-eq-get_or mem start 0 (omega arith), rest) (ap (λ b. done (b ∷ xs)) first)

-- Byte `j` of the memory after the bytes of `buffer` have gone to `start`.
abbrev pub overwritten : List ℕ → ℕ → List ℕ → ℕ → ℕ
overwritten mem start buffer j =
    if leb start j && ltb j (start + length buffer)
    then byte_at buffer (j - start)
    else byte_at mem j

-- The bytes of a buffer.
abbrev pub AreBytes : List ℕ → Type 0
AreBytes xs = (i : ℕ) → byte_at xs i < 256

copy_in :
    (mem buffer : List ℕ) (start : ℕ)
    → AreBytes buffer
    → start + length buffer ≤ length mem
    → Stored mem (read_file mem start buffer) (overwritten mem start buffer)
copy_in mem buffer start bytes room =
    let s = read_file-Stored buffer mem start room in
    record {
      out = s.out;
      returns = s.returns;
      same_length = s.same_length;
      bytes = λ j. ground (arith, s.bytes j, bytes (j - start));
    }

-- An access that has no place is refused, for a well-formed memory and an end below 2 ^ 63: both
-- operations return false, and a write changes nothing.
pub mmio_refused :
    (m : MmioMem) (diff_mem : List ℕ) (start : ℕ) (buffer : List ℕ) (running : Bool)
    → IsMem m
    → start + length buffer < 2 ^ 63
    → spot m start (length buffer) ≡ none
    → (do_read m start (length buffer) ≡ done (false, []))
      × (do_write m diff_mem start buffer running ≡ done (false, m, running))
unfolding do_read do_write
mmio_refused m diff_mem start buffer running h small e =
    rw (place-eq-spot m start (length buffer) h small, e) (refl, refl)

-- A write that has a place: the memory `out` after it, and the flag.
record Stores (m : MmioMem) (diff_mem : List ℕ) (at : ℕ) (buffer : List ℕ) (running : Bool)
    (result : Outcome (Bool × MmioMem × Bool)) : Type 0 where
  out : List ℕ
  running' : Bool
  returns : result ≡ done (true, record m { mem = out }, running')
  same_length : length out ≡ length m.mem
  bytes : (j : ℕ) → byte_at out j ≡ overwritten m.mem at buffer j
  watched :
      m.diff_mem_write ≡ true
      → (running' ≡ true) ↔ ((running ≡ true) × Agree out diff_mem at (length buffer))

do_write-Stores :
    (m : MmioMem) (diff_mem : List ℕ) (start at : ℕ) (buffer : List ℕ) (running : Bool)
    → IsMem m
    → start + length buffer < 2 ^ 63
    → AreBytes buffer
    → m.mem_size ≤ length diff_mem
    → spot m start (length buffer) ≡ some at
    → Stores m diff_mem at buffer running (do_write m diff_mem start buffer running)
unfolding do_write write_at
do_write-Stores m diff_mem start at buffer running h small bytes big e =
    let fits = spot-le m start (length buffer) at e in
    let s = copy_in m.mem buffer at bytes (omega (arith, h.size)) in
    let (res, compared, agree) =
      compare_lem (length buffer) s.out diff_mem at running (omega (arith, h.size, s.same_length))
        (omega arith) in
    elim (Bool-cases m.diff_mem_write) [
      | inl on ↦ record {
        out = s.out;
        running' = res;
        returns =
            rw (place-eq-spot m start (length buffer) h small, e, s.returns, compared, on) refl;
        same_length = s.same_length;
        bytes = s.bytes;
        watched = λ _. agree;
      }
      | inr off ↦ record {
        out = s.out;
        running' = running;
        returns = rw (place-eq-spot m start (length buffer) h small, e, s.returns, off) refl;
        same_length = s.same_length;
        bytes = s.bytes;
        watched = λ on. absurd (ground arith);
      }
    ]

spot_kept :
    (m : MmioMem) (out : List ℕ) (start size : ℕ)
    → spot (record m { mem = out }) start size ≡ spot m start size
spot_kept m out start size = refl

-- What is written is read back. For a well-formed memory, a buffer of bytes whose end is below 2 ^
-- 63, and another memory that is at least as large: a write that has a place, at the address
-- itself or wrapped around, returns true and changes exactly the bytes there to those of the
-- buffer, and then a read of as many bytes at the same address returns the buffer.
pub mmio_write_read :
    (m : MmioMem) (diff_mem : List ℕ) (start at : ℕ) (buffer : List ℕ) (running : Bool)
    → IsMem m
    → start + length buffer < 2 ^ 63
    → AreBytes buffer
    → m.mem_size ≤ length diff_mem
    → spot m start (length buffer) ≡ some at
    → (m' : MmioMem) × (running' : Bool) × (do_write m diff_mem start buffer running
        ≡ done (true, m', running'))
      × ((j : ℕ) → byte_at m'.mem j ≡ overwritten m.mem at buffer j)
      × (do_read m' start (length buffer) ≡ done (true, buffer))
unfolding do_read read_at
mmio_write_read m diff_mem start at buffer running h small bytes big e =
    let s = do_write-Stores m diff_mem start at buffer running h small bytes big e in
    let fits = spot-le m start (length buffer) at e in
    let kept : IsMem (record m { mem = s.out }) = record {
      size = h.size ∙ sym s.same_length;
      room = h.room;
      small = h.small;
    } in
    let back : copy_out s.out at (length buffer) ≡ done buffer =
      copy_out_lem buffer s.out at (omega (arith, h.size, s.same_length))
        (λ i lt. s.bytes (at + i) ∙ own i lt) in
    (
      record m { mem = s.out },
      s.running',
      s.returns,
      s.bytes,
      rw (place-eq-spot (record m { mem = s.out }) start (length buffer) kept small, e, back) refl,
    )
  where
    own : (i : ℕ) → i < length buffer → overwritten m.mem at buffer (at + i) ≡ byte_at buffer i
    own i lt = let back : at + i - at ≡ i = omega arith in rw back (ground arith)

-- With the comparison on, for a well-formed memory, a buffer of bytes whose end is below 2 ^ 63 and
-- that has a place, and another memory that is at least as large, a write leaves the simulation
-- running exactly if it ran before and every byte written is now the one that the other memory has at
-- the same place.
pub mmio_watch :
    (m : MmioMem) (diff_mem : List ℕ) (start at : ℕ) (buffer : List ℕ) (running : Bool)
    → IsMem m
    → start + length buffer < 2 ^ 63
    → AreBytes buffer
    → m.mem_size ≤ length diff_mem
    → spot m start (length buffer) ≡ some at
    → m.diff_mem_write ≡ true
    → (m' : MmioMem) × (running' : Bool) × (do_write m diff_mem start buffer running
        ≡ done (true, m', running'))
      × ((running' ≡ true) ↔ ((running ≡ true) × Agree m'.mem diff_mem at (length buffer)))
mmio_watch m diff_mem start at buffer running h small bytes big e on =
    let s = do_write-Stores m diff_mem start at buffer running h small bytes big e in
    (record m { mem = s.out }, s.running', s.returns, s.watched on)
