-- ===== src/Events/Upcall/Lost.antt =====
-- The same walk with words of 64 bits.
use guestvm_guk.Base.{
  ℕ, zero, suc, ◌+◌, ◌*◌, ◌<◌, ◌≡◌, refl, subst, true, arith, none, Option-cases, inl, inr,
}
use guestvm_guk.Events.{Events, do_event}
use guestvm_guk.Events.Handled.{do_event-others}
use guestvm_guk.Events.Answers.{Quiet}
use guestvm_guk.Events.Upcall.{ffs, active, drain}
use guestvm_guk.Events.Upcall.Words.{Finds, ffs-Finds}

-- Where the words of the shared bitmap have 64 bits, handlers leave the event channels alone, and
-- an event that is not masked is pending in the low half of a word other than the first 1 and below
-- 32, the loop of `do_hypervisor_callback` over that word does not end, however long it runs.
pub drain-endless :
    (handle : ℕ → ℕ → ℕ → Events → Events) (here l1i i : ℕ)
    → Quiet handle
    → 0 < l1i
    → l1i < 32
    → i < 32
    → (fuel : ℕ) (e : Events) → active e (l1i * 64 + i) ≡ true
    → drain 64 handle here fuel e l1i ≡ none
unfolding drain Finds
drain-endless handle here l1i i quiet later small low zero e on = refl
drain-endless handle here l1i i quiet later small low (suc fuel) e on =
    elim (Option-cases (ffs (λ j. active e (l1i * 64 + j)) 0 32)) [
      | inl idle ↦
          let clear = subst (Finds (λ j. active e (l1i * 64 + j)) 0 32) idle (ffs-Finds _ 0 32) in
          absurd (ground (arith, on, clear i (omega arith) (omega arith)))
      | inr (k, at) ↦
          let f = subst (Finds (λ j. active e (l1i * 64 + j)) 0 32) at (ffs-Finds _ 0 32) in
          let (pending, mask) =
            do_event-others handle here e (l1i * 32 + k) (l1i * 64 + i) quiet (omega (arith, f.1))
              (λ same. absurd (omega (arith, f.1))) in
          rw (at, drain)
            (drain-endless handle here l1i i quiet later small low fuel
              (do_event handle here e (l1i * 32 + k)) (ground (arith, pending, mask, on)))
    ]
