-- ===== src/Heap/Coverings.antt =====
-- How many blocks of a list a byte is in, and what the walks over the free list do to that.
use guestvm_guk.Base.{
  ℕ, ◌+◌, ◌≤◌, ◌≡◌, refl, Bool, ◌&&◌, Option, none, some, List, [], ◌∷◌, ltb, leb, ◌==◌,
  if◌then◌else◌, arith, subst, sym, if-true, if-false, Bool-cases, inl, inr,
}
use guestvm_guk.Heap.{Block, maybe_split, find_fit, merge, take_block, skip}

abbrev pub covers : Block → ℕ → Bool
covers b x = leb b.addr x && ltb x (b.addr + b.size)

unfoldable pub coverings : ℕ → List Block → ℕ
coverings x [] = 0
coverings x (b ∷ blocks) = (if covers b x then 1 else 0) + coverings x blocks

-- The walk of `guk_xfree` loses no byte and gains none.
pub coverings-merge :
    (x : ℕ) (hdr : Block) (free : List Block)
    → (if covers (merge hdr free).0 x then 1 else 0) + coverings x (merge hdr free).1
      ≡ (if covers hdr x then 1 else 0) + coverings x free
unfolding coverings merge
coverings-merge x hdr [] = refl
coverings-merge x hdr (i ∷ free) = ground (
  arith,
  coverings-merge x hdr free,
  coverings-merge x (record { addr = i.addr; size = i.size + hdr.size }) free,
  coverings-merge x (record { addr = hdr.addr; size = hdr.size + i.size }) free,
)

pub coverings-maybe_split :
    (x hdr size block : ℕ) (free : List Block)
    → size ≤ block
    → (if covers (maybe_split hdr size block free).0 x then 1 else 0)
        + coverings x (maybe_split hdr size block free).1
      ≡ (if covers (record { addr = hdr; size = block }) x then 1 else 0) + coverings x free
unfolding coverings maybe_split
coverings-maybe_split x hdr size block free h = ground arith

-- the bytes of a block and a list that a walk may have found
abbrev pub FoundCoverings : ℕ → List Block → Option (Block × List Block) → Type 0
FoundCoverings x blocks none = Unit
FoundCoverings x blocks (some (b, rest)) =
    (if covers b x then 1 else 0) + coverings x rest ≡ coverings x blocks

FoundCoverings-skip :
    (x : ℕ) (i : Block) (blocks : List Block) (r : Option (Block × List Block))
    → FoundCoverings x blocks r
    → FoundCoverings x (i ∷ blocks) (skip i r)
unfolding coverings
FoundCoverings-skip x i blocks none h = tt
FoundCoverings-skip x i blocks (some (b, rest)) h = ground (arith, h)

pub coverings-find_fit :
    (x size : ℕ) (free : List Block) → FoundCoverings x free (find_fit size free)
unfolding coverings find_fit
coverings-find_fit x size [] = tt
coverings-find_fit x size (i ∷ free) = elim (Bool-cases (ltb i.size size)) [
  | inl small ↦
      subst (FoundCoverings x (i ∷ free)) (sym (if-true _ _ _ small))
        (FoundCoverings-skip x i free _ (coverings-find_fit x size free))
  | inr fits ↦ subst (FoundCoverings x (i ∷ free)) (sym (if-false _ _ _ fits)) refl
]

pub coverings-take_block :
    (x hdr : ℕ) (blocks : List Block) → FoundCoverings x blocks (take_block hdr blocks)
unfolding coverings take_block
coverings-take_block x hdr [] = tt
coverings-take_block x hdr (b ∷ blocks) = elim (Bool-cases (b.addr == hdr)) [
  | inl here ↦ subst (FoundCoverings x (b ∷ blocks)) (sym (if-true _ _ _ here)) refl
  | inr not_here ↦
      subst (FoundCoverings x (b ∷ blocks)) (sym (if-false _ _ _ not_here))
        (FoundCoverings-skip x b blocks _ (coverings-take_block x hdr blocks))
]
