-- ===== src/Base/Chains.antt =====
-- Free lists that are kept in an array: each free number holds the next one, and place 0 the first.
use Prim.Native.Nat.{ℕ, ◌<◌}
use mathlib.Core.Path.{◌≡◌, ◌∙◌}
use mathlib.Core.Logic.{◌≢◌}
use mathlib.Core.List.{List, [], ◌∷◌}
use native.Mathlib.Omega.{arith}
use guestvm_guk.Base.Lists.{get_or, set, length, get_or-set_self, get_or-set_ne}

-- From index `at` on the array links the numbers of the list, and 0 ends them.
abbrev pub Chain : List ℕ → ℕ → List ℕ → Type 0
Chain xs at [] = get_or xs at 0 ≡ 0
Chain xs at (r ∷ refs) = (get_or xs at 0 ≡ r) × Chain xs r refs

-- The number does not stand in the list.
abbrev pub Fresh : ℕ → List ℕ → Type 0
Fresh r [] = Unit
Fresh r (s ∷ refs) = (r ≢ s) × Fresh r refs

-- A write at a place that is not on the chain leaves the chain.
Chain-set :
    (xs : List ℕ) (i v at : ℕ) (refs : List ℕ)
    → i ≢ at
    → Fresh i refs
    → Chain xs at refs
    → Chain (set xs i v) at refs
Chain-set xs i v at [] ne fresh c = get_or-set_ne xs i at v 0 ne ∙ c
Chain-set xs i v at (r ∷ refs) ne fresh c =
    (get_or-set_ne xs i at v 0 ne ∙ c.0, Chain-set xs i v r refs fresh.0 fresh.1 c.1)

-- The chain from index 0, with its first link moved to index `ref`.
pub Chain-push :
    (xs : List ℕ) (ref : ℕ) (refs : List ℕ)
    → 0 < ref
    → ref < length xs
    → Fresh ref refs
    → Fresh 0 refs
    → Chain xs 0 refs
    → Chain (set (set xs ref (get_or xs 0 0)) 0 ref) ref refs
Chain-push xs ref refs pos inside fresh proper c = moved refs fresh proper c
  where
    ys : List ℕ
    ys = set (set xs ref (get_or xs 0 0)) 0 ref

    first : get_or ys ref 0 ≡ get_or xs 0 0
    first =
        get_or-set_ne (set xs ref (get_or xs 0 0)) 0 ref ref 0 (λ e. absurd (omega arith))
        ∙ get_or-set_self xs ref (get_or xs 0 0) 0 inside

    moved : (l : List ℕ) → Fresh ref l → Fresh 0 l → Chain xs 0 l → Chain ys ref l
    moved [] f p c = first ∙ c
    moved (r ∷ rest) f p c = (
      first ∙ c.0,
      Chain-set (set xs ref (get_or xs 0 0)) 0 ref r rest (λ e. absurd (omega arith)) p.1
          (Chain-set xs ref (get_or xs 0 0) r rest f.0 f.1 c.1),
    )

-- The chain from index `ref`, with its first link moved to index 0.
pub Chain-pop :
    (xs : List ℕ) (ref : ℕ) (refs : List ℕ)
    → 0 < length xs
    → Fresh 0 refs
    → Chain xs ref refs
    → Chain (set xs 0 (get_or xs ref 0)) 0 refs
Chain-pop xs ref [] pos proper c = get_or-set_self xs 0 (get_or xs ref 0) 0 pos ∙ c
Chain-pop xs ref (r ∷ rest) pos proper c = (
  get_or-set_self xs 0 (get_or xs ref 0) 0 pos ∙ c.0,
  Chain-set xs 0 (get_or xs ref 0) r rest (λ e. absurd (omega arith)) proper.1 c.1,
)
