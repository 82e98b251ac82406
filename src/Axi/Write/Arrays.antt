-- ===== src/Axi/Write/Arrays.antt =====
-- The three arrays of the write channel: an index that is in them.
use native.Mathlib.Decide.{ℕ_discrete}
use my_diff.Base.{
  ℕ, zero, suc, ◌<◌, ◌≡◌, refl, sym, ◌∙◌, List, [], ◌∷◌, length, get_elem?, set, get_elem?-set_self,
  get_elem?-set_ne, some, arith, done,
}
use my_diff.Paddr.{Wen}
use my_diff.Axi.Write.{store_at, update_info}

pub store_at-done : (xs : List ℕ) (i v : ℕ) → i < length xs → store_at xs i v ≡ done (set xs i v)
unfolding store_at
store_at-done xs i v h = ground arith

pub update_info-done :
    (xs : List Wen) (i : ℕ) (f : Wen → Wen) (info : Wen)
    → get_elem? xs i ≡ some info
    → update_info xs i f ≡ done (set xs i (f info))
unfolding update_info
update_info-done xs i f info e = rw e

-- An array that holds `f` below `k` and gets `f k` at `k` holds `f` below `k + 1`.
pub extended {ℓ} :
    {A : Type ℓ} (f : ℕ → A) (xs : List A) (k : ℕ) (v : A)
    → k < length xs
    → ((i : ℕ) → i < k → get_elem? xs i ≡ some (f i))
    → v ≡ f k
    → (i : ℕ) → i < suc k
    → get_elem? (set xs k v) i ≡ some (f i)
extended f xs k v room below e i lt = elim (ℕ_discrete i k) [
  | yes same ↦ rw (same, get_elem?-set_self xs k v room, e)
  | no other ↦ get_elem?-set_ne xs k i v (λ p. other (sym p)) ∙ below i (omega arith)
]

pub in_range {ℓ} :
    {A : Type ℓ} (xs : List A) (i : ℕ) → i < length xs → (x : A) × (get_elem? xs i ≡ some x)
in_range [] i h = absurd (omega arith)
in_range (x ∷ xs) zero h = (x, refl)
in_range (x ∷ xs) (suc i) h = in_range xs i (omega arith)
