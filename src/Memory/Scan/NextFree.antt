-- ===== src/Memory/Scan/NextFree.antt =====
-- What `next_free` of mm.c returns.
use guestvm_guk.Base.{
  ℕ, zero, suc, ◌+◌, ◌-◌, ◌^◌, ◌≤◌, ◌<◌, true, false, List, ◌≡◌, arith, ℕ_discrete, dec_lt, subst,
  sym, ltb, if-true, if-false, Bool-cases, inl, inr,
}
use guestvm_guk.Memory.Bitmap.{allocated_in_map}
use guestvm_guk.Memory.Scan.{int_page, next_free_loop, next_free}

int_page-small : (page : ℕ) → page < 2 ^ 31 → int_page page ≡ page
unfolding int_page
int_page-small page h = ground (arith, h)

-- what the loop returns, between its start and the end of the pool
record Stops (map : List ℕ) (end page result : ℕ) : Type 0 where
  above : page ≤ result
  below : result ≤ end
  allocated : (p : ℕ) → page ≤ p → p < result → allocated_in_map map p ≡ true
  free : result < end → allocated_in_map map result ≡ false

next_free_loop-Stops :
    (left : ℕ) (map : List ℕ) (end page : ℕ)
    → end < 2 ^ 31
    → page ≤ end
    → end ≤ page + left
    → Stops map end page (next_free_loop left map end page)
unfolding next_free_loop
next_free_loop-Stops zero map end page small h enough = record {
  above = omega arith;
  below = h;
  allocated = λ p a b. absurd (omega (arith, a, b));
  free = λ k. absurd (omega (arith, k, enough));
}
next_free_loop-Stops (suc left) map end page small h enough = elim (dec_lt page end) [
  | no over ↦
      subst (Stops map end page) (sym (if-false (ltb page end) _ _ (ground (arith, over))))
        (record {
          above = omega arith;
          below = h;
          allocated = λ p a b. absurd (omega (arith, a, b));
          free = λ k. absurd (omega (arith, k, over));
        })
  | yes inside ↦
      subst (Stops map end page) (sym (if-true (ltb page end) _ _ (ground (arith, inside))))
        (elim (Bool-cases (allocated_in_map map page)) [
          | inl taken ↦
              let rest : Stops map end (page + 1)
                  (next_free_loop left map end (int_page (page + 1))) =
                subst (λ q. Stops map end (page + 1) (next_free_loop left map end q))
                  (sym (int_page-small (page + 1) (omega (arith, inside, small))))
                  (next_free_loop-Stops left map end (page + 1) small (omega (arith, inside))
                    (omega (arith, enough))) in
              subst (Stops map end page) (sym (if-true (allocated_in_map map page) _ _ taken))
                (record {
                  above = omega (arith, rest.above);
                  below = rest.below;
                  allocated = λ p a b. elim (ℕ_discrete page p) [
                    | yes e ↦ subst (λ q. allocated_in_map map q ≡ true) e taken
                    | no ne ↦ rest.allocated p (omega (arith, a, ne)) b
                  ];
                  free = rest.free;
                })
          | inr clear ↦
              subst (Stops map end page) (sym (if-false (allocated_in_map map page) _ _ clear))
                (record {
                  above = omega arith;
                  below = h;
                  allocated = λ p a b. absurd (omega (arith, a, b));
                  free = λ k. clear;
                })
        ])
]

-- `next_free` returns the first free page from a page on, or the end of the pool if there is none, for
-- a pool that ends below page 2 ^ 31.
pub next_free-first :
    (map : List ℕ) (end page : ℕ)
    → end < 2 ^ 31
    → page ≤ end
    → (page ≤ next_free map end page)
      × (next_free map end page ≤ end)
      × ((p : ℕ) → page ≤ p → p < next_free map end page → allocated_in_map map p ≡ true)
      × (next_free map end page < end → allocated_in_map map (next_free map end page) ≡ false)
unfolding next_free
next_free-first map end page small h =
    let same = int_page-small page (omega (arith, small, h)) in
    let s : Stops map end page (next_free map end page) =
      subst (λ q. Stops map end page (next_free_loop (end - q) map end q)) (sym same)
        (next_free_loop-Stops (end - page) map end page small h (omega arith)) in
    (s.above, s.below, s.allocated, s.free)
