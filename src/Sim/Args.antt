-- ===== src/Sim/Args.antt =====
-- `parse_args` of csrc/diff-main.cpp: the files that the arguments name.
use my_diff.Base.{
  ℕ, ◌≡◌, refl, Bool, true, false, ◌||◌, ◌&&◌, List, [], ◌∷◌, Option, none, some, ◌==◌,
  if◌then◌else◌, arith, ◌⊎◌, inl, inr,
}

-- What `getopt_long` returns, with `optarg`.
pub record Opt : Type 0 where
  pub code : ℕ
  pub optarg : Option ℕ

-- `log_file` and `diff_so`.
pub record Args : Type 0 where
  pub log_file : Option ℕ
  pub diff_so : Option ℕ

-- `'l'` and `'d'`.
abbrev pub opt_l : ℕ
opt_l = 108

abbrev pub opt_d : ℕ
opt_d = 100

-- One turn of the loop; nothing if the program prints its usage and exits.
pub parse_opt : Opt → Args → Option Args
parse_opt o a =
    if o.code == opt_l
    then some (record a { log_file = o.optarg })
    else if o.code == opt_d
    then some (record a { diff_so = o.optarg })
    else none

-- `parse_args`, of what `getopt_long` returns before -1; nothing if the program exits.
pub parse_args : List Opt → Args → Option Args
parse_args [] a = some a
parse_args (o ∷ opts) a = elim (parse_opt o a) [ none ↦ none | some a' ↦ parse_args opts a' ]

pub all_known : List Opt → Bool
all_known [] = true
all_known (o ∷ opts) = (o.code == opt_l || o.code == opt_d) && all_known opts

-- The last value of an option, if it stands among them.
pub last_of : ℕ → List Opt → Option ℕ → Option ℕ
last_of code [] old = old
last_of code (o ∷ opts) old = last_of code opts (if o.code == code then o.optarg else old)

-- The program goes on if it meets no options but `-l` and `-d`, with the last value of each; else, on
-- any other option or word, it exits.
pub parse_args_lem :
    (opts : List Opt) (a : Args)
    → parse_args opts a ≡ (
        if all_known opts
        then some (record {
          log_file = last_of opt_l opts a.log_file;
          diff_so = last_of opt_d opts a.diff_so;
        })
        else none)
unfolding parse_args parse_opt all_known last_of
parse_args_lem [] a = refl
parse_args_lem (o ∷ opts) a = elim (known o.code) [
  | inl l ↦ rw l (parse_args_lem opts (record a { log_file = o.optarg }))
  | inr (inl d) ↦ rw d (parse_args_lem opts (record a { diff_so = o.optarg }))
  | inr (inr (nl, nd)) ↦
      let exits : parse_opt o a ≡ none = rw (nl, nd) refl in rw (parse_args, exits, nl, nd) refl
]
  where
    known :
        (c : ℕ) → (c ≡ opt_l) ⊎ ((c ≡ opt_d) ⊎ (((c == opt_l) ≡ false) × ((c == opt_d) ≡ false)))
    known c = ground arith
