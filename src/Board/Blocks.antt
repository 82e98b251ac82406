-- ===== src/Board/Blocks.antt =====
-- Arrays and objects of the store: what is found where after a change.
use my_diff.Base.{
  ℕ, zero, suc, ◌<◌, ◌≡◌, ◌≢◌, refl, ap, List, [], ◌∷◌, ◌++◌, Option, none, some, get_elem?, set,
  length, arith, ◌⊎◌, inl, inr, done, fault, get_elem?-set_self, get_elem?-set_ne,
}
use my_diff.Confreg.{PaddrConfreg}
use my_diff.Board.{Heap, allocated, block, put_block, new_block, confreg, put_confreg, new_confreg}

get_elem?-append_old {ℓ} :
    {A : Type ℓ} (xs : List A) (i : ℕ) (v : A)
    → i < length xs
    → get_elem? (xs ++ (v ∷ [])) i ≡ get_elem? xs i
get_elem?-append_old [] i v h = absurd (omega arith)
get_elem?-append_old (x ∷ xs) zero v h = refl
get_elem?-append_old (x ∷ xs) (suc i) v h = get_elem?-append_old xs i v (omega arith)

get_elem?-append_new {ℓ} :
    {A : Type ℓ} (xs : List A) (v : A) → get_elem? (xs ++ (v ∷ [])) (length xs) ≡ some v
get_elem?-append_new [] v = refl
get_elem?-append_new (x ∷ xs) v = get_elem?-append_new xs v

get_elem?-lt {ℓ} :
    {A : Type ℓ} (xs : List A) (i : ℕ) {v : A} → get_elem? xs i ≡ some v → i < length xs
get_elem?-lt [] i e = absurd (cc)
get_elem?-lt (x ∷ xs) zero e = omega arith
get_elem?-lt (x ∷ xs) (suc i) e = omega (arith, get_elem?-lt xs i e)

-- A pointer to an array points into the store.
pub block-lt : (h : Heap) (p : ℕ) {mem : List ℕ} → block h p ≡ done mem → p < length h.blocks
unfolding block
block-lt h p e = found (get_elem? h.blocks p) refl
  where
    found : (o : Option (Option (List ℕ))) → get_elem? h.blocks p ≡ o → p < length h.blocks
    found none q = absurd (ground arith)
    found (some b) q = get_elem?-lt h.blocks p q

pub confreg-lt :
    (h : Heap) (p : ℕ) {c : PaddrConfreg} → confreg h p ≡ done c → p < length h.confregs
unfolding confreg
confreg-lt h p e = found (get_elem? h.confregs p) refl
  where
    found : (o : Option PaddrConfreg) → get_elem? h.confregs p ≡ o → p < length h.confregs
    found none q = absurd (ground arith)
    found (some b) q = get_elem?-lt h.confregs p q

pub block-put_self :
    (h : Heap) (p : ℕ) (mem : List ℕ) → p < length h.blocks → block (put_block h p mem) p ≡ done mem
unfolding block put_block
block-put_self h p mem lt = rw (get_elem?-set_self h.blocks p (some mem) lt)

pub block-put_ne :
    (h : Heap) (p q : ℕ) (mem : List ℕ) → p ≢ q → block (put_block h p mem) q ≡ block h q
unfolding block put_block
block-put_ne h p q mem ne = rw (get_elem?-set_ne h.blocks p q (some mem) ne)

pub confreg-put_self :
    (h : Heap) (p : ℕ) (c : PaddrConfreg)
    → p < length h.confregs
    → confreg (put_confreg h p c) p ≡ done c
unfolding confreg put_confreg
confreg-put_self h p c lt = rw (get_elem?-set_self h.confregs p c lt)

pub confreg-put_ne :
    (h : Heap) (p q : ℕ) (c : PaddrConfreg) → p ≢ q → confreg (put_confreg h p c) q ≡ confreg h q
unfolding confreg put_confreg
confreg-put_ne h p q c ne = rw (get_elem?-set_ne h.confregs p q c ne)

-- The two kinds of object do not meet.
pub block-put_confreg :
    (h : Heap) (p q : ℕ) (c : PaddrConfreg) → block (put_confreg h p c) q ≡ block h q
unfolding block put_confreg
block-put_confreg h p q c = refl

pub confreg-put_block :
    (h : Heap) (p q : ℕ) (mem : List ℕ) → confreg (put_block h p mem) q ≡ confreg h q
unfolding confreg put_block
confreg-put_block h p q mem = refl

pub block-new_confreg :
    (h : Heap) (q : ℕ) (c : PaddrConfreg) → block (new_confreg h c).1 q ≡ block h q
unfolding block new_confreg
block-new_confreg h q c = refl

-- A new object is found at its number, and every old one where it was.
pub block-new_self :
    (h : Heap) (mem : List ℕ) → block (new_block h mem).1 (length h.blocks) ≡ done mem
unfolding block new_block
block-new_self h mem = rw (get_elem?-append_new h.blocks (some mem))

pub block-new_old :
    (h : Heap) (mem : List ℕ) (q : ℕ)
    → q < length h.blocks
    → block (new_block h mem).1 q ≡ block h q
unfolding block new_block
block-new_old h mem q lt = rw (get_elem?-append_old h.blocks q (some mem) lt)

pub confreg-new_self :
    (h : Heap) (c : PaddrConfreg) → confreg (new_confreg h c).1 (length h.confregs) ≡ done c
unfolding confreg new_confreg
confreg-new_self h c = rw (get_elem?-append_new h.confregs c)

pub confreg-new_old :
    (h : Heap) (c : PaddrConfreg) (q : ℕ)
    → q < length h.confregs
    → confreg (new_confreg h c).1 q ≡ confreg h q
unfolding confreg new_confreg
confreg-new_old h c q lt = rw (get_elem?-append_old h.confregs q c lt)

length-append_one {ℓ} :
    {A : Type ℓ} (xs : List A) (v : A) → length (xs ++ (v ∷ [])) ≡ suc (length xs)
length-append_one [] v = refl
length-append_one (x ∷ xs) v = ap suc (length-append_one xs v)

pub length-blocks_new :
    (h : Heap) (mem : List ℕ) → length ((new_block h mem).1.blocks) ≡ suc (length h.blocks)
unfolding new_block
length-blocks_new h mem = length-append_one h.blocks (some mem)

pub length-confregs_new :
    (h : Heap) (c : PaddrConfreg) → length ((new_confreg h c).1.confregs) ≡ suc (length h.confregs)
unfolding new_confreg
length-confregs_new h c = length-append_one h.confregs c

-- A freed array is gone.
freed_elem : (xs : List (Option (List ℕ))) (i : ℕ) → allocated (get_elem? (set xs i none) i) ≡ fault
freed_elem [] i = refl
freed_elem (x ∷ xs) zero = refl
freed_elem (x ∷ xs) (suc i) = freed_elem xs i

pub block-freed : (h : Heap) (p : ℕ) → block (record h { blocks = set h.blocks p none }) p ≡ fault
unfolding block
block-freed h p = freed_elem h.blocks p

-- A pointer that points to no array faults.
pub block-cases :
    (h : Heap) (p : ℕ) → ((mem : List ℕ) × (block h p ≡ done mem)) ⊎ (block h p ≡ fault)
unfolding block
block-cases h p = found (get_elem? h.blocks p)
  where
    found :
        (o : Option (Option (List ℕ)))
        → ((mem : List ℕ) × (allocated o ≡ done mem)) ⊎ (allocated o ≡ fault)
    found none = inr refl
    found (some none) = inr refl
    found (some (some mem)) = inl (mem, refl)
