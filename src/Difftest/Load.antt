-- ===== src/Difftest/Load.antt =====
-- `difftest_init` of csrc/difftest.cpp: the functions of the reference, from a shared library.
use my_diff.Base.{ℕ, ◌≡◌, ◌⊎◌, inl, inr, refl, Option, none, some, Outcome, done, aborted, ◌>>=◌}

-- The functions that the simulator takes from the library.
pub data Symbol : Type 0 where
  ref_init ref_tick_int ref_hilo_set ref_exec_once ref_gpr_set ref_get_state ref_get_debug_info :
      Symbol

-- The dynamic linker: a library by its file, and an address in it by its name; both can be missing.
pub record Linker (H A : Type 0) : Type 0 where
  pub dlopen : ℕ → Option H
  pub dlsym : H → Symbol → Option A

-- `Assert(p, …)` on a pointer.
abbrev assert_some : {A : Type 0} → Option A → Outcome A
assert_some none = aborted
assert_some (some a) = done a

find : {A : Type 0} (o : Option A) → ((a : A) × (o ≡ some a)) ⊎ (o ≡ none)
find none = inr refl
find (some a) = inl (a, refl)

-- The global function pointers.
pub record Functions (A : Type 0) : Type 0 where
  pub init : A
  pub tick_int : A
  pub hilo_set : A
  pub exec_once : A
  pub gpr_set : A
  pub get_state : A
  pub get_debug_info : A

module _ {H A : Type 0} (linker : Linker H A) where
  -- `ref_so_file` is the file that the arguments of the program name, if they name one.
  unfoldable pub difftest_init : Option ℕ → Outcome (Functions A)
  difftest_init ref_so_file = do
    file ← assert_some ref_so_file
    handle ← assert_some (linker.dlopen file)
    f_init ← assert_some (linker.dlsym handle ref_init)
    f_tick_int ← assert_some (linker.dlsym handle ref_tick_int)
    f_hilo_set ← assert_some (linker.dlsym handle ref_hilo_set)
    f_exec_once ← assert_some (linker.dlsym handle ref_exec_once)
    f_gpr_set ← assert_some (linker.dlsym handle ref_gpr_set)
    f_get_state ← assert_some (linker.dlsym handle ref_get_state)
    f_get_debug_info ← assert_some (linker.dlsym handle ref_get_debug_info)
    done (record {
      init = f_init;
      tick_int = f_tick_int;
      hilo_set = f_hilo_set;
      exec_once = f_exec_once;
      gpr_set = f_gpr_set;
      get_state = f_get_state;
      get_debug_info = f_get_debug_info;
    })

  abbrev pub at : Functions A → Symbol → A
  at f ref_init = f.init
  at f ref_tick_int = f.tick_int
  at f ref_hilo_set = f.hilo_set
  at f ref_exec_once = f.exec_once
  at f ref_gpr_set = f.gpr_set
  at f ref_get_state = f.get_state
  at f ref_get_debug_info = f.get_debug_info

  all_found :
      (f : Functions A) (handle : H)
      → linker.dlsym handle ref_init ≡ some f.init
      → linker.dlsym handle ref_tick_int ≡ some f.tick_int
      → linker.dlsym handle ref_hilo_set ≡ some f.hilo_set
      → linker.dlsym handle ref_exec_once ≡ some f.exec_once
      → linker.dlsym handle ref_gpr_set ≡ some f.gpr_set
      → linker.dlsym handle ref_get_state ≡ some f.get_state
      → linker.dlsym handle ref_get_debug_info ≡ some f.get_debug_info
      → (symbol : Symbol) → linker.dlsym handle symbol ≡ some (at f symbol)
  all_found f handle a b c d e g i ref_init = a
  all_found f handle a b c d e g i ref_tick_int = b
  all_found f handle a b c d e g i ref_hilo_set = c
  all_found f handle a b c d e g i ref_exec_once = d
  all_found f handle a b c d e g i ref_gpr_set = e
  all_found f handle a b c d e g i ref_get_state = g
  all_found f handle a b c d e g i ref_get_debug_info = i

  -- `difftest_init` with a library that opens either stops at an assertion, and then one of the
  -- seven names is missing in it, or sets every pointer to the function of its own name.
  pub difftest_init_lem :
      (file : ℕ) (handle : H)
      → linker.dlopen file ≡ some handle
      → ((f : Functions A) × (difftest_init (some file) ≡ done f)
          × ((symbol : Symbol) → linker.dlsym handle symbol ≡ some (at f symbol)))
        ⊎ ((difftest_init (some file) ≡ aborted)
            × ((symbol : Symbol) × (linker.dlsym handle symbol ≡ none)))
  unfolding difftest_init
  difftest_init_lem file handle e = elim (find (linker.dlsym handle ref_init)) [
    | inr n ↦ inr (rw (e, n) refl, (ref_init, n))
    | inl (f0, e0) ↦ elim (find (linker.dlsym handle ref_tick_int)) [
      | inr n ↦ inr (rw (e, e0, n) refl, (ref_tick_int, n))
      | inl (f1, e1) ↦ elim (find (linker.dlsym handle ref_hilo_set)) [
        | inr n ↦ inr (rw (e, e0, e1, n) refl, (ref_hilo_set, n))
        | inl (f2, e2) ↦ elim (find (linker.dlsym handle ref_exec_once)) [
          | inr n ↦ inr (rw (e, e0, e1, e2, n) refl, (ref_exec_once, n))
          | inl (f3, e3) ↦ elim (find (linker.dlsym handle ref_gpr_set)) [
            | inr n ↦ inr (rw (e, e0, e1, e2, e3, n) refl, (ref_gpr_set, n))
            | inl (f4, e4) ↦ elim (find (linker.dlsym handle ref_get_state)) [
              | inr n ↦ inr (rw (e, e0, e1, e2, e3, e4, n) refl, (ref_get_state, n))
              | inl (f5, e5) ↦ elim (find (linker.dlsym handle ref_get_debug_info)) [
                | inr n ↦ inr (rw (e, e0, e1, e2, e3, e4, e5, n) refl, (ref_get_debug_info, n))
                | inl (f6, e6) ↦ inl (
                  record {
                    init = f0;
                    tick_int = f1;
                    hilo_set = f2;
                    exec_once = f3;
                    gpr_set = f4;
                    get_state = f5;
                    get_debug_info = f6;
                  },
                  rw (e, e0, e1, e2, e3, e4, e5, e6) refl,
                  all_found
                      (record {
                        init = f0;
                        tick_int = f1;
                        hilo_set = f2;
                        exec_once = f3;
                        gpr_set = f4;
                        get_state = f5;
                        get_debug_info = f6;
                      })
                      handle e0 e1 e2 e3 e4 e5 e6,
                )
              ]
            ]
          ]
        ]
      ]
    ]
  ]
