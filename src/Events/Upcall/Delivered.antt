-- ===== src/Events/Upcall/Delivered.antt =====
-- Which events a callback handles, with words of 32 bits.
use guestvm_guk.Base.{
  ℕ, zero, suc, ◌+◌, ◌*◌, ◌/◌, ◌≤◌, ◌<◌, ◌≡◌, refl, sym, ap, ◌∙◌, Bool, true, false, ◌&&◌, ◌||◌,
  arith, some, ◌==◌, ltb, if-true, if-false, Bool-cases, inl, inr,
}
use guestvm_guk.Events.{inside, nr_evs, Events}
use guestvm_guk.Events.Answers.{Quiet, Handled, Handled-none, Handled-trans, Handled-same}
use guestvm_guk.Events.Upcall.{active, scan, do_hypervisor_callback}
use guestvm_guk.Events.Upcall.Words.{word_due, drain-Handled}

-- the active ports of the words from `i` that `l1` names
abbrev pub scan_due : Events → (ℕ → Bool) → ℕ → ℕ → ℕ → Bool
scan_due e l1 i n q = inside (i * 32) (n * 32) q && (l1 (q / 32) && active e q)

word_of : (i q : ℕ) → inside (i * 32) 32 q ≡ true → q / 32 ≡ i
word_of i q h = ground (arith, h)

scan-due :
    (here : ℕ) (e e1 : Events) (l1 : ℕ → Bool) (i n q : ℕ)
    → l1 i ≡ true
    → Handled here (word_due e i) e e1
    → (word_due e i q || scan_due e1 l1 (suc i) n q) ≡ scan_due e l1 i (suc n) q
scan-due here e e1 l1 i n q on h = elim (Bool-cases (inside (i * 32) 32 q)) [
  | inl here_it_is ↦
      ground (arith, here_it_is, on, ap l1 (word_of i q here_it_is), h.pending q, h.mask q)
  | inr there ↦ ground (arith, there, h.pending q, h.mask q)
]

skip-due :
    (e : Events) (l1 : ℕ → Bool) (i n q : ℕ)
    → l1 i ≡ false
    → scan_due e l1 (suc i) n q ≡ scan_due e l1 i (suc n) q
skip-due e l1 i n q off = elim (Bool-cases (inside (i * 32) 32 q)) [
  | inl here_it_is ↦ ground (arith, here_it_is, off, ap l1 (word_of i q here_it_is))
  | inr there ↦ ground (arith, there)
]

scan-apart :
    (e e1 : Events) (l1 : ℕ → Bool) (i n q : ℕ)
    → (word_due e i q && scan_due e1 l1 (suc i) n q) ≡ false
scan-apart e e1 l1 i n q = ground arith

scan-Handled :
    (handle : ℕ → ℕ → ℕ → Events → Events) (here fuel : ℕ) (l1 : ℕ → Bool)
    → Quiet handle
    → 32 < fuel
    → (i n : ℕ) (e : Events) → i + n ≤ 32
    → (e' : Events) × (scan 32 handle here fuel l1 i n e ≡ some e')
      × Handled here (scan_due e l1 i n) e e'
unfolding scan
scan-Handled handle here fuel l1 quiet enough i zero e small =
    (e, refl, Handled-none here _ e (λ q. ground arith))
scan-Handled handle here fuel l1 quiet enough i (suc n) e small = elim (Bool-cases (l1 i)) [
  | inl on ↦
      let (e1, f, h) =
        drain-Handled handle here i quiet (omega arith) fuel 0 e (λ j lt. absurd (omega arith))
          (omega arith) (omega arith) in
      let (e', g, k) = scan-Handled handle here fuel l1 quiet enough (suc i) n e1 (omega arith) in
      (
        e',
        if-true (l1 i) _ _ on ∙ rw (f, scan) g,
        Handled-same here _ (scan_due e l1 i (suc n)) e e' (λ q. scan-due here e e1 l1 i n q on h)
            (Handled-trans here _ (scan_due e1 l1 (suc i) n) e e1 e' (λ q. scan-apart e e1 l1 i n q)
              h k),
      )
  | inr off ↦
      let (e', g, k) = scan-Handled handle here fuel l1 quiet enough (suc i) n e (omega arith) in
      (
        e',
        if-false (l1 i) _ _ off ∙ g,
        Handled-same here _ (scan_due e l1 i (suc n)) e e' (λ q. skip-due e l1 i n q off) k,
      )
]

-- the ports that a callback is to handle
abbrev pub due : Events → ℕ → Bool
due e q = ltb q nr_evs && (e.pending_sel (q / 32) && active e q)

-- the state in which the scan starts
abbrev scanning : Events → Events
scanning e = record e {
  upcall_pending = false;
  upcall_count = suc e.upcall_count;
  pending_sel = λ q. false;
}

-- the state in which the callback ends
abbrev rested : Events → Events
rested e = record e { upcall_count = 0 }

scanned-Handled :
    (here : ℕ) (d d' : ℕ → Bool) (e e2 : Events)
    → ((q : ℕ) → d q ≡ d' q)
    → e.upcall_count ≡ 0
    → Handled here d (scanning e) e2
    → Handled here d' e (rested e2)
scanned-Handled here d d' e e2 same outer h = Handled-same here d d' e (rested e2) same (record {
  pending = h.pending;
  mask = h.mask;
  acts = h.acts;
  calls = h.calls;
  nested = sym outer;
})

-- Where the words of the shared bitmap have 32 bits and handlers leave the event channels alone, an
-- outer `do_hypervisor_callback` returns, 33 rounds for a word being enough: every port below 1024
-- that is pending, not masked and in a word that is marked has its event taken once, its count
-- raised and its handler called once, if there is one for this CPU; every other port, and every
-- mask, is as before.
pub do_hypervisor_callback-Handled :
    (handle : ℕ → ℕ → ℕ → Events → Events) (here fuel rounds : ℕ) (e : Events)
    → Quiet handle
    → 32 < fuel
    → e.upcall_count ≡ 0
    → (e' : Events) × (do_hypervisor_callback 32 handle here fuel (suc rounds) e ≡ some e')
      × Handled here (due e) e e'
unfolding do_hypervisor_callback
do_hypervisor_callback-Handled handle here fuel rounds e quiet enough outer =
    let (e2, f, h) =
      scan-Handled handle here fuel e.pending_sel quiet enough 0 32 (scanning e) (omega arith) in
    (
      rested e2,
      if-true (e.upcall_count == 0) _ _ (ground (arith, outer))
          ∙ rw (f, do_hypervisor_callback)
              (if-true (e2.upcall_count == 1) _ _ (ground (arith, h.nested, outer))),
      scanned-Handled here _ (due e) e e2 (λ q. ground arith) outer h,
    )
