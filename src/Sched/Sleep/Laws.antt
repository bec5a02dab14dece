-- ===== src/Sched/Sleep/Laws.antt =====
-- The order of the sleep queue, and the walk over it.
use guestvm_guk.Base.{
  ℕ, ◌≤◌, ◌<◌, ◌≡◌, refl, sym, ◌∙◌, ap, subst, Bool, true, false, not, ◌&&◌, Option, none, some,
  List, [], ◌∷◌, ◌++◌, map, ltb, leb, if◌then◌else◌, arith, Bool-cases, inl, inr, if-true, if-false,
}
use guestvm_guk.Sched.{Sched, wake}
use guestvm_guk.Sched.Sleep.{Sleeper, add_by_time, sleep_queue_add, cons_entry, wake_expired}

-- Every entry wakes up at `lo` or later, and no entry before the one in front of it.
abbrev pub SortedFrom : ℕ → List Sleeper → Type 0
SortedFrom lo [] = Unit
SortedFrom lo (e ∷ q) = (lo ≤ e.wakeup_time) × SortedFrom e.wakeup_time q

abbrev pub AllUpTo : ℕ → List Sleeper → Type 0
AllUpTo hi [] = Unit
AllUpTo hi (e ∷ q) = (e.wakeup_time ≤ hi) × AllUpTo hi q

abbrev pub AllAfter : ℕ → List Sleeper → Type 0
AllAfter lo [] = Unit
AllAfter lo (e ∷ q) = (lo < e.wakeup_time) × AllAfter lo q

SortedFrom-AllAfter : (lo t : ℕ) (q : List Sleeper) → t < lo → SortedFrom lo q → AllAfter t q
SortedFrom-AllAfter lo t [] h v = tt
SortedFrom-AllAfter lo t (e ∷ q) h v =
    (omega arith, SortedFrom-AllAfter e.wakeup_time t q (omega arith) v.1)

-- where an entry goes in a queue
pub record Placed (sq : Sleeper) (q result : List Sleeper) : Type 0 where
  pub front : List Sleeper
  pub back : List Sleeper
  pub split : q ≡ front ++ back
  pub joined : result ≡ front ++ (sq ∷ back)
  pub up_to : AllUpTo sq.wakeup_time front
  pub after : AllAfter sq.wakeup_time back

add_by_time-Placed :
    (lo : ℕ) (sq : Sleeper) (q : List Sleeper) → SortedFrom lo q → Placed sq q (add_by_time sq q)
unfolding add_by_time
add_by_time-Placed lo sq [] v = record {
  front = [];
  back = [];
  split = refl;
  joined = refl;
  up_to = tt;
  after = tt;
}
add_by_time-Placed lo sq (e ∷ q) v = elim (Bool-cases (ltb sq.wakeup_time e.wakeup_time)) [
  | inl later ↦ record {
    front = [];
    back = e ∷ q;
    split = refl;
    joined = if-true _ _ _ later;
    up_to = tt;
    after = (ground arith, SortedFrom-AllAfter e.wakeup_time sq.wakeup_time q (ground arith) v.1);
  }
  | inr not_later ↦
      let p = add_by_time-Placed e.wakeup_time sq q v.1 in
      record {
        front = e ∷ p.front;
        back = p.back;
        split = ap (λ l. e ∷ l) p.split;
        joined = if-false _ _ _ not_later ∙ ap (λ l. e ∷ l) p.joined;
        up_to = (ground arith, p.up_to);
        after = p.after;
      }
]

add_by_time-SortedFrom :
    (lo : ℕ) (sq : Sleeper) (q : List Sleeper)
    → lo ≤ sq.wakeup_time
    → SortedFrom lo q
    → SortedFrom lo (add_by_time sq q)
unfolding add_by_time
add_by_time-SortedFrom lo sq [] h v = (h, tt)
add_by_time-SortedFrom lo sq (e ∷ q) h v = elim (Bool-cases (ltb sq.wakeup_time e.wakeup_time)) [
  | inl later ↦ subst (SortedFrom lo) (sym (if-true _ _ _ later)) (h, (ground arith, v.1))
  | inr not_later ↦
      subst (SortedFrom lo) (sym (if-false _ _ _ not_later))
        (v.0, add_by_time-SortedFrom e.wakeup_time sq q (ground arith) v.1)
]

-- `guk_sleep_queue_add` puts the entry, marked active, behind every entry of an ordered queue that
-- wakes up no later and in front of every one that wakes up later, so the queue stays ordered and
-- entries for the same time keep the order in which they came.
pub sleep_queue_add-Placed :
    (sq : Sleeper) (q : List Sleeper)
    → SortedFrom 0 q
    → Placed (record sq { active = true }) q (sleep_queue_add sq q)
      × SortedFrom 0 (sleep_queue_add sq q)
unfolding sleep_queue_add
sleep_queue_add-Placed sq q v =
    (add_by_time-Placed 0 _ q v, add_by_time-SortedFrom 0 _ q (omega arith) v)

-- the entries that `wake_expired` is to wake, and the queue that it is to leave
unfoldable pub is_due : ℕ → Sleeper → Bool
is_due now sq = not sq.expired && leb sq.wakeup_time now

abbrev pub due : ℕ → List Sleeper → List ℕ
due now [] = []
due now (sq ∷ q) = if is_due now sq then sq.thread ∷ due now q else due now q

abbrev pub mark : ℕ → Sleeper → Sleeper
mark now sq = if is_due now sq then record sq { expired = true } else sq

abbrev pub wake_all : ℕ → Sched → List ℕ → Option Sched
wake_all here s [] = some s
wake_all here s (t ∷ ts) = elim (wake here s t) [ none ↦ none | some s' ↦ wake_all here s' ts ]

abbrev pub with_queue : List Sleeper → Option Sched → Option (Sched × List Sleeper)
with_queue q none = none
with_queue q (some s) = some (s, q)

none_due :
    (now : ℕ) (lo : ℕ) (q : List Sleeper)
    → now < lo
    → SortedFrom lo q
    → (due now q ≡ []) × (map (mark now) q ≡ q)
unfolding is_due
none_due now lo [] h v = (refl, refl)
none_due now lo (sq ∷ q) h v =
    (ground (arith, none_due now sq.wakeup_time q), ground (arith, none_due now sq.wakeup_time q))

cons-with_queue :
    (sq : Sleeper) (q : List Sleeper) (r : Option Sched)
    → cons_entry sq (with_queue q r) ≡ with_queue (sq ∷ q) r
cons-with_queue sq q none = refl
cons-with_queue sq q (some s) = refl

-- the result that `wake_expired_lem` states
abbrev pub woken_due : ℕ → ℕ → Sched → List Sleeper → Option (Sched × List Sleeper)
woken_due here now s q = with_queue (map (mark now) q) (wake_all here s (due now q))

woken_due-skip :
    (here now : ℕ) (s : Sched) (sq : Sleeper) (q : List Sleeper)
    → is_due now sq ≡ false
    → woken_due here now s (sq ∷ q) ≡ cons_entry sq (woken_due here now s q)
woken_due-skip here now s sq q e = rw e (sym (cons-with_queue sq _ _))

-- what follows a wake that returns
abbrev pub and_then :
    Option Sched → (Sched → Option (Sched × List Sleeper)) → Option (Sched × List Sleeper)
and_then none f = none
and_then (some s) f = f s

and_then-equal :
    (r : Option Sched) (f g : Sched → Option (Sched × List Sleeper))
    → ((s : Sched) → f s ≡ g s)
    → elim r [ none ↦ none | some s ↦ f s ] ≡ and_then r g
and_then-equal none f g e = refl
and_then-equal (some s) f g e = e s

with_queue-and_then :
    (sq : Sleeper) (q : List Sleeper) (r : Option Sched) (f : Sched → Option Sched)
    → with_queue (sq ∷ q) (elim r [ none ↦ none | some s ↦ f s ])
      ≡ and_then r (λ s. cons_entry sq (with_queue q (f s)))
with_queue-and_then sq q none f = refl
with_queue-and_then sq q (some s) f = sym (cons-with_queue sq q (f s))

woken_due-wake :
    (here now : ℕ) (s : Sched) (sq : Sleeper) (q : List Sleeper)
    → is_due now sq ≡ true
    → woken_due here now s (sq ∷ q)
      ≡ and_then
          (wake here s sq.thread)
          (λ s1. cons_entry (record sq { expired = true }) (woken_due here now s1 q))
woken_due-wake here now s sq q e = rw e (
    with_queue-and_then (record sq { expired = true }) (map (mark now) q) (wake here s sq.thread)
      (λ s1. wake_all here s1 (due now q)))

woken_due-none :
    (here now : ℕ) (s : Sched) (sq : Sleeper) (q : List Sleeper)
    → now < sq.wakeup_time
    → SortedFrom sq.wakeup_time (sq ∷ q)
    → woken_due here now s (sq ∷ q) ≡ some (s, sq ∷ q)
woken_due-none here now s sq q later v =
    let (nothing, same) = none_due now sq.wakeup_time (sq ∷ q) later v in rw (nothing, same)

-- `wake_expired` on an ordered queue wakes the threads of the entries that are due, in their order,
-- marks those entries as expired, and leaves every other entry: that the walk ends at the first
-- entry that is not due loses none.
pub wake_expired_lem :
    (lo here now : ℕ) (s : Sched) (q : List Sleeper)
    → SortedFrom lo q
    → wake_expired here now s q ≡ with_queue (map (mark now) q) (wake_all here s (due now q))
unfolding wake_expired is_due
wake_expired_lem lo here now s [] v = refl
wake_expired_lem lo here now s (sq ∷ q) v = elim (Bool-cases sq.expired) [
  | inl expd ↦
      if-true _ _ _ expd
      ∙ ap (cons_entry sq) (wake_expired_lem sq.wakeup_time here now s q v.1)
      ∙ sym (woken_due-skip here now s sq q (ground arith))
  | inr live ↦ if-false _ _ _ live ∙ (elim (Bool-cases (leb sq.wakeup_time now)) [
    | inl reached ↦
        if-true _ _ _ reached
        ∙ (and_then-equal (wake here s sq.thread) _ _ (λ s1.
              ap (cons_entry (record sq { expired = true }))
                (wake_expired_lem sq.wakeup_time here now s1 q v.1))
            ∙ sym (woken_due-wake here now s sq q (ground arith)))
    | inr later ↦
        if-false _ _ _ later
        ∙ sym (woken_due-none here now s sq q (ground arith) (omega arith, v.1))
  ])
]
