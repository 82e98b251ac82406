-- ===== src/Log.antt =====
-- csrc/log.cpp with CONFIG_LRING_ENABLE: the ring of the last lines of the log.
pub mod Rows
pub mod Init
pub mod Direct
mod Tests
use my_diff.Base.{
  ℕ, zero, suc, ◌+◌, ◌*◌, Bool, List, [], ◌∷◌, ◌++◌, length, get_elem?, Option, none, some, leb,
  ◌==◌, if◌then◌else◌, Outcome, done, fault, in_bounds, ◌>>=◌,
}

-- A `FILE *` that is not null.
pub data Stream : Type 0 where
  standard_out : Stream
  file : ℕ → Stream

-- What `Log` prints for `%s`.
pub data Label : Type 0 where
  path : ℕ → Label
  stdout_word null_pointer : Label

-- The variables `log_dt`, which can be null, `lring` and `lring_head`. `lring` is the bytes of the whole
-- array.
pub record Log : Type 0 where
  pub log_dt : Option Stream
  pub lring : List ℕ
  pub lring_head : ℕ

-- `(filename != nullptr) ? fopen(filename, "w") : stdout`; `fopen` succeeds on some files.
pub open_log : (ℕ → Bool) → Option ℕ → Option Stream
open_log fopen none = some standard_out
open_log fopen (some filename) = if fopen filename then some (file filename) else none

as_label : Option ℕ → Label
as_label none = null_pointer
as_label (some filename) = path filename

-- `log_dt ? filename : "stdout"`.
pub announced : Option Stream → Option ℕ → Label
unfolding as_label
announced none filename = stdout_word
announced (some log_dt) filename = as_label filename

-- The bytes after a `memset` of `n` bytes to 0 from `at` on.
pub cleared : List ℕ → ℕ → ℕ → List ℕ
cleared [] at n = []
cleared (b ∷ bytes) zero zero = b ∷ bytes
cleared (b ∷ bytes) zero (suc n) = 0 ∷ cleared bytes zero n
cleared (b ∷ bytes) (suc at) n = b ∷ cleared bytes at n

-- The bytes of a string that ends with 0.
string : List ℕ → Outcome (List ℕ)
string [] = fault
string (b ∷ bytes) =
    let rest = string bytes in if b == 0 then done [] else (rest >>= λ s. done (b ∷ s))

string_at : List ℕ → ℕ → Outcome (List ℕ)
unfolding string
string_at [] at = fault
string_at (b ∷ bytes) zero = string (b ∷ bytes)
string_at (b ∷ bytes) (suc at) = string_at bytes at

-- `len` is CONFIG_LRING_LEN and `nr` CONFIG_LRING_NR, in `char lring[len][nr]`.
module _ (len nr : ℕ) where
  -- `memset(lring[i],0,CONFIG_LRING_LEN)`.
  clear_row : List ℕ → ℕ → Outcome (List ℕ)
  clear_row lring i =
      if leb (i * nr + len) (length lring) then done (cleared lring (i * nr) len) else fault

  -- The loop of `log_init` from `i` on, for `k` turns.
  pub clear_rows : ℕ → ℕ → List ℕ → Outcome (List ℕ)
  clear_rows zero i lring = done lring
  clear_rows (suc k) i lring = clear_row lring i >>= clear_rows k (i + 1)

  pub log_init : (ℕ → Bool) → Option ℕ → Log → Outcome (Log × Label)
  unfolding open_log announced
  log_init fopen filename log = do
    lring ← clear_rows nr 0 log.lring
    let log_dt = open_log fopen filename
    done (record { log_dt = log_dt; lring = lring; lring_head = 0 }, announced log_dt filename)

  -- One turn of the loop of `lring_print`: the line that it writes, if any.
  print_row : Log → ℕ → Outcome (List (List ℕ))
  unfolding string_at
  print_row log i = do
    first ← in_bounds (get_elem? log.lring (i * nr))
    if first == 0
        then done []
        else (do line ← string_at log.lring (i * nr); _ ← in_bounds log.log_dt; done (line ∷ []))

  pub print_rows : ℕ → ℕ → Log → Outcome (List (List ℕ))
  print_rows zero i log = done []
  print_rows (suc k) i log = do
    shown ← print_row log (log.lring_head + i)
    rest ← print_rows k (i + 1) log
    done (shown ++ rest)

  -- `lring_print`: the lines that it writes.
  pub lring_print : Log → Outcome (List (List ℕ))
  unfolding print_rows
  lring_print log = print_rows nr 0 log
