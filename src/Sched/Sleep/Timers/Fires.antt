-- ===== src/Sched/Sleep/Timers/Fires.antt =====
-- When a timer fires, and what a sleep leaves of the queues.
use guestvm_guk.Base.{
  ℕ, ◌+◌, ◌*◌, ◌%◌, ◌^◌, ◌<◌, ◌≡◌, sym, ap, ap₂, ◌∙◌, subst, Bool, true, false, arith, Option, none,
  some, List, [], ◌∷◌, map, ltb, leb, ◌==◌, if-true, if-false, Bool-cases, inl, inr,
}
use guestvm_guk.Sched.{Sched, block}
use guestvm_guk.Sched.Synced.{IsSynced, block-IsSynced}
use guestvm_guk.Sched.Sleep.{Sleeper, add_by_time, sleep_queue_add, wake_expired}
use guestvm_guk.Sched.Sleep.Laws.{
  SortedFrom, sleep_queue_add-Placed, is_due, mark, with_queue, wake_expired_lem,
}
use guestvm_guk.Sched.Sleep.Timers.{
  sleep_queue_del, is_expired, new_entry, add_timer, remove_timer, set_sleeping, nanosleep,
}

-- The entry is not in the queue.
abbrev pub NotIn : ℕ → List Sleeper → Type 0
NotIn id [] = Unit
NotIn id (sq ∷ q) = ((id == sq.entry) ≡ false) × NotIn id q

mark-entry : (now : ℕ) (sq : Sleeper) → (mark now sq).entry ≡ sq.entry
unfolding is_due
mark-entry now sq = ground arith

-- what is so of a queue in which `sq` has been put and marked
Fired : ℕ → Sleeper → List Sleeper → List Sleeper → Type 0
Fired now sq q r =
    (is_expired sq.entry (map (mark now) r) ≡ (mark now sq).expired)
    × (sleep_queue_del sq.entry (map (mark now) r) ≡ map (mark now) q)

Fired-first :
    (now : ℕ) (sq : Sleeper) (q : List Sleeper) → NotIn sq.entry q → Fired now sq q (sq ∷ q)
unfolding Fired is_expired sleep_queue_del
Fired-first now sq q v = (
  if-true (sq.entry == (mark now sq).entry) _ _ same,
  if-true (sq.entry == (mark now sq).entry) _ _ same,
)
  where
    same : (sq.entry == (mark now sq).entry) ≡ true
    same = ground (arith, mark-entry now sq)

Fired-next :
    (now : ℕ) (sq e : Sleeper) (q r : List Sleeper)
    → (sq.entry == e.entry) ≡ false
    → Fired now sq q r
    → Fired now sq (e ∷ q) (e ∷ r)
unfolding Fired is_expired sleep_queue_del
Fired-next now sq e q r ne (f, g) = (
  if-false (sq.entry == (mark now e).entry) _ _ other ∙ f,
  if-false (sq.entry == (mark now e).entry) _ _ other ∙ ap (λ l. mark now e ∷ l) g,
)
  where
    other : (sq.entry == (mark now e).entry) ≡ false
    other = ap (λ k. sq.entry == k) (mark-entry now e) ∙ ne

add_by_time-Fired :
    (now : ℕ) (sq : Sleeper) (q : List Sleeper)
    → NotIn sq.entry q
    → Fired now sq q (add_by_time sq q)
unfolding add_by_time
add_by_time-Fired now sq [] v = Fired-first now sq [] v
add_by_time-Fired now sq (e ∷ q) v = elim (Bool-cases (ltb sq.wakeup_time e.wakeup_time)) [
  | inl later ↦
      subst (Fired now sq (e ∷ q)) (sym (if-true _ _ _ later)) (Fired-first now sq (e ∷ q) v)
  | inr not_later ↦
      subst (Fired now sq (e ∷ q)) (sym (if-false _ _ _ not_later))
        (Fired-next now sq e q _ v.0 (add_by_time-Fired now sq q v.1))
]

-- the queue that a walk leaves
queue_left :
    (q q' : List Sleeper) (r : Option Sched) (s' : Sched) → with_queue q r ≡ some (s', q') → q ≡ q'
queue_left q q' none s' e = cc e
queue_left q q' (some s) s' e = cc e

timer : ℕ → ℕ → ℕ → ℕ → Sleeper
timer now current id timeout = record (new_entry id current (now + timeout * 1000000)) {
  active = true;
}

-- A timer set, for a time below 2 ^ 63, on an ordered queue that does not hold it: after one walk
-- over the sleep queue that returns, `guk_remove_timer` says that it has expired exactly when its
-- time has come, and leaves the queue that the walk would have left without it.
pub remove_timer-fires :
    (here set now current id timeout : ℕ) (s s' : Sched) (q q' : List Sleeper)
    → SortedFrom 0 q
    → NotIn id q
    → set + timeout * 1000000 < 2 ^ 63
    → wake_expired here now s (add_timer set current id timeout q) ≡ some (s', q')
    → remove_timer id q' ≡ (leb (set + timeout * 1000000) now, map (mark now) q)
unfolding add_timer remove_timer sleep_queue_add Fired timer is_due
remove_timer-fires here set now current id timeout s s' q q' v apart low e =
    let bits : (set + timeout * 1000000) % 2 ^ 64 ≡ set + timeout * 1000000 = omega (arith, low) in
    let e' : wake_expired here now s (add_by_time (timer set current id timeout) q)
        ≡ some (s', q') =
      subst
        (λ t. wake_expired here now s (sleep_queue_add (new_entry id current t) q) ≡ some (s', q'))
        bits e in
    let sq = timer set current id timeout in
    let after : map (mark now) (add_by_time sq q) ≡ q' = queue_left _ q' _ s' (
      sym (
        wake_expired_lem 0 here now s (add_by_time sq q)
          (sleep_queue_add-Placed (new_entry id current (set + timeout * 1000000)) q v).1)
      ∙ e') in
    let (f, g) = add_by_time-Fired now sq q apart in
    let result : Bool × List Sleeper = (leb (set + timeout * 1000000) now, map (mark now) q) in
    subst (λ r. (is_expired id r, sleep_queue_del id r) ≡ result) after
      (ap₂ (λ b r. (b, r)) (f ∙ ground arith) g)

-- A thread that goes to sleep leaves the ready queue in agreement with the flags.
pub nanosleep-IsSynced :
    (here now : ℕ) (s : Sched) (q : List Sleeper) (t id nanosecs : ℕ)
    → IsSynced s
    → IsSynced (nanosleep here now s q t id nanosecs).0
unfolding nanosleep
nanosleep-IsSynced here now s q t id nanosecs v =
    sleeping-IsSynced (block here s t) t (block-IsSynced here s t v)
  where
    sleeping-IsSynced : (s : Sched) (t : ℕ) → IsSynced s → IsSynced (set_sleeping s t true)
    sleeping-IsSynced s t v u = ground (arith, v u)
