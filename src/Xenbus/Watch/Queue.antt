-- ===== src/Xenbus/Watch/Queue.antt =====
-- The paths of a watch as a queue.
use guestvm_guk.Base.{
  ℕ, zero, suc, ◌+◌, ◌-◌, ◌%◌, ◌≤◌, ◌<◌, ◌≡◌, ◌≢◌, refl, sym, ap, ap₂, ◌∙◌, subst, true, false,
  arith, none, some, List, [], ◌∷◌, ◌++◌, ltb, ◌==◌, if◌then◌else◌, ==_iff, if-true, if-false,
}
use guestvm_guk.Xenbus.Watch.{Watch, max_paths, push_path, read_path, Read, changed, blocks}

-- the `n` paths from index `i` on
abbrev pub paths_from : (ℕ → List ℕ) → ℕ → ℕ → List (List ℕ)
paths_from paths i zero = []
paths_from paths i (suc n) = paths (i % max_paths) ∷ paths_from paths (i + 1) n

abbrev pub waiting : Watch → List (List ℕ)
waiting watch =
    paths_from watch.paths watch.path_cons_idx (watch.path_prod_idx - watch.path_cons_idx)

paths_from-write :
    (paths : ℕ → List ℕ) (i n slot : ℕ) (path : List ℕ)
    → ((k : ℕ) → k < n → (i + k) % max_paths ≢ slot)
    → paths_from (λ j. if j == slot then path else paths j) i n ≡ paths_from paths i n
paths_from-write paths i zero slot path apart = refl
paths_from-write paths i (suc n) slot path apart =
    ap₂ (λ x l. x ∷ l) (if-false (i % max_paths == slot) _ _ (first (apart 0 (omega arith))))
      (paths_from-write paths (i + 1) n slot path
        (λ k h e. apart (k + 1) (omega arith) (omega arith)))
  where
    first : (i + 0) % max_paths ≢ slot → (i % max_paths == slot) ≡ false
    first ne = ground arith

paths_from-last :
    (paths : ℕ → List ℕ) (i n : ℕ)
    → paths_from paths i (suc n) ≡ paths_from paths i n ++ (paths ((i + n) % max_paths) ∷ [])
paths_from-last paths i zero = ap (λ k. paths k ∷ []) (omega arith)
paths_from-last paths i (suc n) =
    ap (λ l. paths (i % max_paths) ∷ l)
      (paths_from-last paths (i + 1) n
        ∙ ap (λ k. paths_from paths (i + 1) n ++ (paths k ∷ [])) (omega arith))

pub pushed : Watch → List ℕ → Watch
pushed watch path = record watch {
  paths = λ j. if j == watch.path_prod_idx % max_paths then path else watch.paths j;
  path_prod_idx = watch.path_prod_idx + 1;
}

push_path-pushed :
    (watch : Watch) (path : List ℕ)
    → watch.path_prod_idx - watch.path_cons_idx ≤ max_paths
    → push_path watch path ≡ some (pushed watch path)
unfolding push_path pushed
push_path-pushed watch path h =
    if-false (ltb max_paths (watch.path_prod_idx - watch.path_cons_idx)) _ _ (ground arith)

-- The queue of changed paths of a watch: while it holds fewer than 10 and its consumer is not
-- ahead, a watch event puts its path behind those that wait, and none of these is lost.
pub push_path-waiting :
    (watch : Watch) (path : List ℕ)
    → watch.path_cons_idx ≤ watch.path_prod_idx
    → watch.path_prod_idx - watch.path_cons_idx < max_paths
    → (push_path watch path ≡ some (pushed watch path))
      × (waiting (pushed watch path) ≡ waiting watch ++ (path ∷ []))
unfolding pushed
push_path-waiting watch path order room = (
  push_path-pushed watch path (omega arith),
  ap (paths_from paths' watch.path_cons_idx) one_more
      ∙ paths_from-last paths' watch.path_cons_idx n
      ∙ ap₂ (λ l p. l ++ (p ∷ []))
          (paths_from-write watch.paths watch.path_cons_idx n _ path
            (λ k h e. absurd (omega arith)))
          (if-true ((watch.path_cons_idx + n) % max_paths == watch.path_prod_idx % max_paths) _ _
            last),
)
  where
    paths' : ℕ → List ℕ
    paths' = λ j. if j == watch.path_prod_idx % max_paths then path else watch.paths j

    n : ℕ
    n = watch.path_prod_idx - watch.path_cons_idx

    one_more : watch.path_prod_idx + 1 - watch.path_cons_idx ≡ suc n
    one_more = omega arith

    last : ((watch.path_cons_idx + n) % max_paths == watch.path_prod_idx % max_paths) ≡ true
    last =
        (==_iff ((watch.path_cons_idx + n) % max_paths) (watch.path_prod_idx % max_paths)).1
          (omega arith)

-- what `read_path` does with a queue
abbrev pub Reads : Watch → ℕ → List (List ℕ) → Read → Type 0
Reads watch current [] r = r ≡ blocks (record watch { thread = some current })
Reads watch current (path ∷ rest) (blocks new) = ⊥
Reads watch current (path ∷ rest) (changed p new) = (p ≡ path) × (waiting new ≡ rest)

-- `xenbus_read_watch` takes the first path that waits, or notes the thread that asks.
pub read_path-Reads :
    (watch : Watch) (current : ℕ) → Reads watch current (waiting watch) (read_path current watch)
unfolding read_path
read_path-Reads watch current = by_count (watch.path_prod_idx - watch.path_cons_idx) refl
  where
    by_count :
        (n : ℕ)
        → n ≡ watch.path_prod_idx - watch.path_cons_idx
        → Reads watch current
            (paths_from watch.paths watch.path_cons_idx n)
            (read_path current watch)
    by_count zero e = if-false (ltb watch.path_cons_idx watch.path_prod_idx) _ _ (ground arith)
    by_count (suc n) e =
        subst (Reads watch current (paths_from watch.paths watch.path_cons_idx (suc n)))
          (sym (if-true (ltb watch.path_cons_idx watch.path_prod_idx) _ _ (ground arith)))
          (refl, ap (paths_from watch.paths (watch.path_cons_idx + 1)) (omega arith))

-- A watch on which 10 paths wait takes one more, and the next path that is read is that last one,
-- not the oldest.
pub push_path-loses :
    (watch : Watch) (path : List ℕ) (current : ℕ)
    → watch.path_prod_idx ≡ watch.path_cons_idx + max_paths
    → (push_path watch path ≡ some (pushed watch path))
      × (read_path current (pushed watch path)
          ≡ changed path (record (pushed watch path) {
            path_cons_idx = watch.path_cons_idx + 1;
            thread = none;
          }))
unfolding pushed read_path
push_path-loses watch path current full = (
  push_path-pushed watch path (omega arith),
  if-true (ltb watch.path_cons_idx (watch.path_prod_idx + 1)) _ _ (ground arith)
      ∙ ap
          (λ p.
            changed p (record (pushed watch path) {
              path_cons_idx = watch.path_cons_idx + 1;
              thread = none;
            }))
          (if-true (watch.path_cons_idx % max_paths == watch.path_prod_idx % max_paths) _ _ same),
)
  where
    same : (watch.path_cons_idx % max_paths == watch.path_prod_idx % max_paths) ≡ true
    same =
        (==_iff (watch.path_cons_idx % max_paths) (watch.path_prod_idx % max_paths)).1 (omega arith)
