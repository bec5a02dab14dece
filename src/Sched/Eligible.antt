-- ===== src/Sched/Eligible.antt =====
-- The walk of `pick_thread` over the ready queue.
use guestvm_guk.Base.{
  ℕ, zero, suc, ◌≤◌, ◌<◌, ◌≡◌, ◌≢◌, refl, ap, true, false, arith, Option, some, List, [], ◌∷◌, ◌++◌,
  if◌then◌else◌, ◌⊎◌, Bool-cases, inl, inr, length,
}
use guestvm_guk.Sched.{
  log, deschedule_upcall, Sched, is_upcalled, eligible, find_eligible, set_running, run_thread,
  told, run_next, Search, found, nobody, corrupt,
}
use guestvm_guk.Sched.Queue.{count}

-- No thread of the list may run on `cpu`.
abbrev pub NoneEligible : Sched → ℕ → List ℕ → Type 0
NoneEligible s cpu [] = Unit
NoneEligible s cpu (t ∷ q) = (eligible s cpu t ≡ false) × NoneEligible s cpu q

-- The thread may run on `cpu`, and none in front of it in the list may.
abbrev pub FirstEligible : Sched → ℕ → List ℕ → ℕ → Type 0
FirstEligible s cpu [] t = ⊥
FirstEligible s cpu (u ∷ q) t =
    (eligible s cpu t ≡ true) × ((t ≡ u) ⊎ ((eligible s cpu u ≡ false) × FirstEligible s cpu q t))

-- what the walk finds
abbrev pub Finds : Sched → ℕ → List ℕ → Search → Type 0
Finds s cpu q corrupt = ⊥
Finds s cpu q nobody = NoneEligible s cpu q
Finds s cpu q (found t) = FirstEligible s cpu q t

Finds-cons :
    (s : Sched) (cpu u : ℕ) (q : List ℕ) (r : Search)
    → eligible s cpu u ≡ false
    → Finds s cpu q r
    → Finds s cpu (u ∷ q) r
Finds-cons s cpu u q corrupt cannot f = f
Finds-cons s cpu u q nobody cannot f = (cannot, f)
Finds-cons s cpu u [] (found t) cannot f = absurd f
Finds-cons s cpu u (w ∷ q) (found t) cannot f = (f.0, inr (cannot, f))

pub find_eligible-Finds :
    (s : Sched) (cpu limit : ℕ) (q : List ℕ)
    → length q ≤ limit
    → Finds s cpu q (find_eligible s cpu limit q)
unfolding find_eligible
find_eligible-Finds s cpu limit [] h = tt
find_eligible-Finds s cpu zero (t ∷ q) h = absurd (omega arith)
find_eligible-Finds s cpu (suc limit) (t ∷ q) h = elim (Bool-cases (eligible s cpu t)) [
  | inl can ↦ rw can (can, inl refl)
  | inr cannot ↦
      rw cannot (Finds-cons s cpu t q _ cannot (find_eligible-Finds s cpu limit q (omega arith)))
]

-- If a thread in front may run, the walk finds one in front.
pub find_eligible-front :
    (s : Sched) (cpu limit prev u : ℕ) (q r : List ℕ)
    → count prev q ≡ 0
    → 0 < count u q
    → eligible s cpu u ≡ true
    → length q ≤ limit
    → (t : ℕ) × (find_eligible s cpu limit (q ++ r) ≡ found t)
      × (t ≢ prev)
      × (eligible s cpu t ≡ true)
unfolding find_eligible count
find_eligible-front s cpu limit prev u [] r none_of some_of can h = absurd (omega arith)
find_eligible-front s cpu zero prev u (w ∷ q) r none_of some_of can h = absurd (omega arith)
find_eligible-front s cpu (suc limit) prev u (w ∷ q) r none_of some_of can h =
    elim (Bool-cases (eligible s cpu w)) [
      | inl here ↦ (w, rw here refl, (λ e. absurd (ground arith)), here)
      | inr not_here ↦
          let (t, e, ne, y) =
            find_eligible-front s cpu limit prev u q r (ground arith) (ground arith) can
              (omega arith) in
          (t, rw not_here e, ne, y)
    ]

-- A thread that may run is not running elsewhere.
pub run_thread-eligible :
    (s : Sched) (cpu t : ℕ)
    → eligible s cpu t ≡ true
    → run_thread s cpu t ≡ some (t, set_running s t)
unfolding eligible
run_thread-eligible s cpu t can = ground arith

-- the state after a switch to a thread from the queue
abbrev pub switched : Sched → ℕ → ℕ → ℕ → Sched
switched s cpu prev t =
    if is_upcalled (set_running s t) prev
    then log (deschedule_upcall cpu) (set_running s t)
    else set_running s t

-- The thread that the queue offers, run by `pick_thread`.
pub run_next-found :
    (s : Sched) (cpu prev idle t : ℕ) (chosen : Option ℕ)
    → eligible s cpu t ≡ true
    → run_next s cpu prev idle chosen (found t) ≡ some (t, switched s cpu prev t)
unfolding run_next
run_next-found s cpu prev idle t chosen can = ap (told s cpu prev) (run_thread-eligible s cpu t can)

pub FirstEligible-eligible :
    (s : Sched) (cpu : ℕ) (q : List ℕ) (t : ℕ) → FirstEligible s cpu q t → eligible s cpu t ≡ true
FirstEligible-eligible s cpu [] t f = absurd f
FirstEligible-eligible s cpu (u ∷ q) t f = f.0
