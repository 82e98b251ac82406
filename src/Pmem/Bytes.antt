-- ===== src/Pmem/Bytes.antt =====
-- What the loads and stores of `Pmem` do, byte by byte.
use my_diff.Base.{
  ℕ, zero, suc, ◌+◌, ◌-◌, ◌*◌, ◌/◌, ◌%◌, ◌≤◌, ◌<◌, ◌≡◌, refl, ap, ◌&&◌, List, arith, ltb, leb,
  if◌then◌else◌, length, get_or, set, length-set, get_elem?-eq-get_or, get_or-set_self,
  get_or-set_ne, Outcome, done,
}
use my_diff.Pmem.{load, store_byte, store}

abbrev pub byte_at : List ℕ → ℕ → ℕ
byte_at mem a = get_or mem a 0

-- The number that `n` bytes from `addr` on stand for.
abbrev pub value : List ℕ → ℕ → ℕ → ℕ
value mem addr zero = 0
value mem addr (suc n) = byte_at mem addr + 256 * value mem (addr + 1) n

-- Digit `i` of `v` to base 256.
abbrev pub digit : ℕ → ℕ → ℕ
digit v zero = v % 256
digit v (suc i) = digit (v / 256) i

digit-zero : (v i : ℕ) → i ≡ 0 → digit v i ≡ v % 256
digit-zero v zero e = refl
digit-zero v (suc i) e = absurd (omega arith)

digit-suc : (v i k : ℕ) → i ≡ k + 1 → digit v i ≡ digit (v / 256) k
digit-suc v zero k e = absurd (omega arith)
digit-suc v (suc i) k e = ap (digit (v / 256)) {x = i} {y = k} (omega arith)

pub load_lem :
    (mem : List ℕ) (addr n : ℕ) → addr + n ≤ length mem → load mem addr n ≡ done (value mem addr n)
unfolding load
load_lem mem addr zero h = refl
load_lem mem addr (suc n) h =
    ground (arith, get_elem?-eq-get_or mem addr 0, load_lem mem (addr + 1) n)

-- `result` returns a memory of the same length whose bytes are `f`.
pub record Stored (mem : List ℕ) (result : Outcome (List ℕ)) (f : ℕ → ℕ) : Type 0 where
  pub out : List ℕ
  pub returns : result ≡ done out
  pub same_length : length out ≡ length mem
  pub bytes : (j : ℕ) → byte_at out j ≡ f j

pub store_byte-Stored :
    (mem : List ℕ) (addr v : ℕ)
    → addr < length mem
    → Stored mem
        (store_byte mem addr v)
        (λ j. if leb addr j && leb j addr then v % 256 else byte_at mem j)
unfolding store_byte
store_byte-Stored mem addr v h = record {
  out = set mem addr (v % 256);
  returns = ground arith;
  same_length = length-set mem addr (v % 256);
  bytes = λ j.
      ground (arith, get_or-set_self mem addr (v % 256) 0, get_or-set_ne mem addr j (v % 256) 0);
}

pub store-Stored :
    (n : ℕ) (mem : List ℕ) (addr v : ℕ)
    → addr + n ≤ length mem
    → Stored mem
        (store mem addr n v)
        (λ j. if leb addr j && ltb j (addr + n) then digit v (j - addr) else byte_at mem j)
unfolding store
store-Stored zero mem addr v h = record {
  out = mem;
  returns = refl;
  same_length = refl;
  bytes = λ j. ground arith;
}
store-Stored (suc n) mem addr v h =
    let first = store_byte-Stored mem addr v (omega arith) in
    let rest = store-Stored n first.out (addr + 1) (v / 256) (omega (arith, first.same_length)) in
    record {
      out = rest.out;
      returns = rw (first.returns) rest.returns;
      same_length = omega (arith, rest.same_length, first.same_length);
      bytes = λ j. ground (
        arith,
        rest.bytes j,
        first.bytes j,
        digit-zero v (j - addr),
        digit-suc v (j - addr) (j - (addr + 1)),
      );
    }
