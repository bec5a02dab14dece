-- ===== src/Sched/Queue.antt =====
-- How often a thread stands in a queue.
use guestvm_guk.Base.{
  length, ℕ, ◌+◌, ◌-◌, ◌≤◌, ◌≡◌, arith, List, [], ◌∷◌, ◌++◌, ◌==◌, if◌then◌else◌,
}
use guestvm_guk.Sched.{unlink}

unfoldable pub count : ℕ → List ℕ → ℕ
count t [] = 0
count t (u ∷ q) = (if t == u then 1 else 0) + count t q

pub count-unlink :
    (t u : ℕ) (q : List ℕ) → count t (unlink u q) ≡ (if t == u then count t q - 1 else count t q)
unfolding count unlink
count-unlink t u [] = ground arith
count-unlink t u (x ∷ q) = ground (arith, count-unlink t u q)

pub count-append :
    (t u : ℕ) (q : List ℕ) → count t (q ++ (u ∷ [])) ≡ count t q + (if t == u then 1 else 0)
unfolding count
count-append t u [] = ground arith
count-append t u (x ∷ q) = ground (arith, count-append t u q)

pub length-unlink : (t : ℕ) (q : List ℕ) → length (unlink t q) ≤ length q
unfolding unlink
length-unlink t [] = ground arith
length-unlink t (x ∷ q) = ground (arith, length-unlink t q)
