-- ===== src/Memory/Pool/Count.antt =====
-- How many pages of a stretch are free, and how marking a range changes that.
use guestvm_guk.Base.{
  ℕ, zero, suc, ◌+◌, ◌-◌, ◌≤◌, ◌<◌, ◌≡◌, refl, min, max, Bool, true, false, not, ◌&&◌, ◌||◌,
  if◌then◌else◌, arith, dec_lt, Bool-cases, inl, inr, sym,
}
use guestvm_guk.Memory.Bitmap.Ranges.{in_range}

-- the pages of the `k` from `lo` on for which `used` does not hold
unfoldable pub count_free : (ℕ → Bool) → ℕ → ℕ → ℕ
count_free used lo zero = 0
count_free used lo (suc k) = count_free used lo k + (if used (lo + k) then 0 else 1)

-- the pages that a range from `first` and the stretch share
abbrev pub shared : ℕ → ℕ → ℕ → ℕ → ℕ
shared first n lo k = min (lo + k) (first + n) - max lo first

-- A stretch counts alike under two predicates that agree on it.
pub count_free_congr :
    (u v : ℕ → Bool) (lo k : ℕ)
    → ((q : ℕ) → lo ≤ q → q < lo + k → u q ≡ v q)
    → count_free u lo k ≡ count_free v lo k
unfolding count_free
count_free_congr u v lo zero h = refl
count_free_congr u v lo (suc k) h = ground (
  arith,
  count_free_congr u v lo k (λ q a b. h q a (omega arith)),
  h (lo + k) (omega arith) (omega arith),
)

-- A page more in the stretch: it is shared, or it is not.
shared-in :
    (first n lo k : ℕ)
    → first ≤ lo + k
    → lo + k < first + n
    → shared first n lo (suc k) ≡ shared first n lo k + 1
shared-in first n lo k a b = omega arith

shared-out :
    (first n lo k : ℕ)
    → in_range first n (lo + k) ≡ false
    → shared first n lo (suc k) ≡ shared first n lo k
shared-out first n lo k a = elim (dec_lt (lo + k) first) [
  | yes before ↦ omega arith
  | no not_before ↦ let after : first + n ≤ lo + k = ground arith in omega arith
]

in_range-bounds : (first n q : ℕ) → in_range first n q ≡ true → (first ≤ q) × (q < first + n)
in_range-bounds first n q e = ground arith

taken_step :
    (u v : ℕ → Bool) (first n lo k : ℕ)
    → v (lo + k) ≡ (u (lo + k) || in_range first n (lo + k))
    → (first ≤ lo + k → lo + k < first + n → u (lo + k) ≡ false)
    → count_free v lo k + shared first n lo k ≡ count_free u lo k
    → count_free v lo (suc k) + shared first n lo (suc k) ≡ count_free u lo (suc k)
unfolding count_free
taken_step u v first n lo k e f ih = elim (Bool-cases (in_range first n (lo + k))) [
  | inl inside ↦
      let (a, b) = in_range-bounds first n (lo + k) inside in
      rw (shared-in first n lo k a b, e, f a b, inside) (omega arith)
  | inr outside ↦ rw (shared-out first n lo k outside, e, outside) (same (u (lo + k)))
]
  where
    same :
        (b : Bool)
        → count_free v lo k + (if b || false then 0 else 1) + shared first n lo k
          ≡ count_free u lo k + (if b then 0 else 1)
    same true = omega arith
    same false = omega arith

-- A stretch has no more free pages than pages.
pub count_free-le : (u : ℕ → Bool) (lo k : ℕ) → count_free u lo k ≤ k
unfolding count_free
count_free-le u lo zero = omega arith
count_free-le u lo (suc k) = ground (arith, count_free-le u lo k)

-- Taking free pages lowers the count by their number.
pub count_free-taken :
    (u v : ℕ → Bool) (first n lo k : ℕ)
    → ((q : ℕ) → lo ≤ q → q < lo + k → v q ≡ (u q || in_range first n q))
    → ((q : ℕ) → lo ≤ q → q < lo + k → first ≤ q → q < first + n → u q ≡ false)
    → count_free v lo k + shared first n lo k ≡ count_free u lo k
unfolding count_free
count_free-taken u v first n lo zero h free = omega arith
count_free-taken u v first n lo (suc k) h free =
    taken_step u v first n lo k (h (lo + k) (omega arith) (omega arith))
      (free (lo + k) (omega arith) (omega arith))
      (count_free-taken u v first n lo k (λ q a b. h q a (omega arith))
        (λ q a b. free q a (omega arith)))

-- Freeing pages that are all taken raises it by their number.
pub count_free-freed :
    (u v : ℕ → Bool) (first n lo k : ℕ)
    → ((q : ℕ) → lo ≤ q → q < lo + k → v q ≡ (u q && not (in_range first n q)))
    → ((q : ℕ) → first ≤ q → q < first + n → u q ≡ true)
    → count_free v lo k ≡ count_free u lo k + shared first n lo k
count_free-freed u v first n lo k h taken = sym (
    count_free-taken v u first n lo k (λ q a b. restored q (h q a b) (taken q))
      (λ q a b c d. freed q (h q a b) c d))
  where
    restored :
        (q : ℕ)
        → v q ≡ (u q && not (in_range first n q))
        → (first ≤ q → q < first + n → u q ≡ true)
        → u q ≡ (v q || in_range first n q)
    restored q e t = ground arith

    freed :
        (q : ℕ) → v q ≡ (u q && not (in_range first n q)) → first ≤ q → q < first + n → v q ≡ false
    freed q e a b = ground arith
