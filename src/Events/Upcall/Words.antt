-- ===== src/Events/Upcall/Words.antt =====
-- The events of one word, with words of 32 bits.
use guestvm_guk.Base.{
  ℕ, zero, suc, ◌+◌, ◌-◌, ◌*◌, ◌≤◌, ◌<◌, ◌≡◌, refl, sym, subst, Bool, true, false, ◌&&◌, ◌||◌,
  arith, Option, none, some, ◌==◌, if-true, if-false, Bool-cases, Option-cases, dec_lt, inl, inr,
}
use guestvm_guk.Events.{inside, Events, do_event}
use guestvm_guk.Events.Handled.{do_event-Handled}
use guestvm_guk.Events.Answers.{Quiet, Handled, Handled-none, Handled-trans, Handled-same}
use guestvm_guk.Events.Upcall.{ffs, active, drain}

-- what `ffs` finds
unfoldable pub Finds : (ℕ → Bool) → ℕ → ℕ → Option ℕ → Type 0
Finds f i n none = (j : ℕ) → i ≤ j → j < i + n → f j ≡ false
Finds f i n (some k) =
    (i ≤ k) × (k < i + n) × (f k ≡ true) × ((j : ℕ) → i ≤ j → j < k → f j ≡ false)

Finds-next :
    (f : ℕ → Bool) (i n : ℕ) (r : Option ℕ)
    → f i ≡ false
    → Finds f (suc i) n r
    → Finds f i (suc n) r
unfolding Finds
Finds-next f i n none clear h = λ j le lt. elim (Bool-cases (i == j)) [
  | inl same ↦ subst (λ k. f k ≡ false) (ground (arith, same)) clear
  | inr other ↦ h j (ground (arith, other)) (omega arith)
]
Finds-next f i n (some k) clear (a, b, c, d) = (
  omega arith,
  omega arith,
  c,
  λ j le lt. elim (Bool-cases (i == j)) [
    | inl same ↦ subst (λ k. f k ≡ false) (ground (arith, same)) clear
    | inr other ↦ d j (ground (arith, other)) lt
  ],
)

pub ffs-Finds : (f : ℕ → Bool) (i n : ℕ) → Finds f i n (ffs f i n)
unfolding ffs Finds
ffs-Finds f i zero = λ j le lt. absurd (omega arith)
ffs-Finds f i (suc n) = elim (Bool-cases (f i)) [
  | inl here ↦
      subst (Finds f i (suc n)) (sym (if-true _ _ _ here))
        (omega arith, omega arith, here, λ j le lt. absurd (omega arith))
  | inr clear ↦
      subst (Finds f i (suc n)) (sym (if-false _ _ _ clear))
        (Finds-next f i n _ clear (ffs-Finds f (suc i) n))
]

-- the active ports of a word
abbrev pub word_due : Events → ℕ → ℕ → Bool
word_due e l1i q = inside (l1i * 32) 32 q && active e q

-- No port of the word below bit `m` is active.
abbrev pub NoneBelow : Events → ℕ → ℕ → Type 0
NoneBelow e l1i m = (j : ℕ) → j < m → active e (l1i * 32 + j) ≡ false

word_due-none :
    (e : Events) (l1i q : ℕ)
    → ((j : ℕ) → 0 ≤ j → j < 0 + 32 → active e (l1i * 32 + j) ≡ false)
    → word_due e l1i q ≡ false
word_due-none e l1i q clear = elim (Bool-cases (inside (l1i * 32) 32 q)) [
  | inl here ↦
      let at : l1i * 32 + (q - l1i * 32) ≡ q = ground (arith, here) in
      ground (
        arith,
        subst (λ k. active e k ≡ false) at
            (clear (q - l1i * 32) (omega arith) (ground (arith, here))),
      )
  | inr there ↦ ground (arith, there)
]

-- The state after one event of the word, and what is left of it.
after-one :
    (here : ℕ) (e e1 : Events) (l1i k : ℕ)
    → Handled here (λ q. l1i * 32 + k == q) e e1
    → ((j : ℕ) → 0 ≤ j → j < k → active e (l1i * 32 + j) ≡ false)
    → NoneBelow e1 l1i (suc k)
after-one here e e1 l1i k h clear j lt = elim (Bool-cases (j == k)) [
  | inl same ↦ ground (arith, same, h.pending (l1i * 32 + j))
  | inr other ↦ ground (
    arith,
    other,
    clear j (omega arith) (ground (arith, other)),
    h.pending (l1i * 32 + j),
    h.mask (l1i * 32 + j),
  )
]

one_more :
    (here : ℕ) (e e1 : Events) (l1i k q : ℕ)
    → k < 32
    → active e (l1i * 32 + k) ≡ true
    → Handled here (λ q. l1i * 32 + k == q) e e1
    → ((l1i * 32 + k == q) || word_due e1 l1i q) ≡ word_due e l1i q
one_more here e e1 l1i k q lt on h = elim (Bool-cases (l1i * 32 + k == q)) [
  | inl same ↦
      let at : l1i * 32 + k ≡ q = ground (arith, same) in
      ground (arith, same, subst (λ r. active e r ≡ true) at on)
  | inr other ↦ ground (arith, other, h.pending q, h.mask q)
]

apart :
    (here : ℕ) (e e1 : Events) (l1i k q : ℕ)
    → Handled here (λ q. l1i * 32 + k == q) e e1
    → ((l1i * 32 + k == q) && word_due e1 l1i q) ≡ false
apart here e e1 l1i k q h = ground (arith, h.pending q)

-- An active bit is not below `m`.
above :
    (k m : ℕ) (e : Events) (l1i : ℕ) → NoneBelow e l1i m → active e (l1i * 32 + k) ≡ true → m ≤ k
above k m e l1i below on = elim (dec_lt k m) [
  | yes lt ↦ absurd (ground (arith, on, below k lt))
  | no ge ↦ omega (arith, ge)
]

-- the bits of `active_evtchns`, by their number in the word
abbrev pub bits : Events → ℕ → ℕ → Bool
bits e l1i i = active e (l1i * 32 + i)

pub drain-Handled :
    (handle : ℕ → ℕ → ℕ → Events → Events) (here l1i : ℕ)
    → Quiet handle
    → l1i < 32
    → (fuel m : ℕ) (e : Events) → NoneBelow e l1i m
    → m ≤ 32
    → 32 < fuel + m
    → (e' : Events) × (drain 32 handle here fuel e l1i ≡ some e')
      × Handled here (word_due e l1i) e e'
unfolding drain Finds
drain-Handled handle here l1i quiet small zero m e below le enough = absurd (omega arith)
drain-Handled handle here l1i quiet small (suc fuel) m e below le enough =
    elim (Option-cases (ffs (bits e l1i) 0 32)) [
      | inl idle ↦
          let clear = subst (Finds (bits e l1i) 0 32) idle (ffs-Finds (bits e l1i) 0 32) in
          (
            e,
            rw (idle, drain) refl,
            Handled-none here (word_due e l1i) e (λ q. word_due-none e l1i q clear),
          )
      | inr (k, at) ↦
          let (lo, hi, on, clear) =
            subst (Finds (bits e l1i) 0 32) at (ffs-Finds (bits e l1i) 0 32) in
          let e1 = do_event handle here e (l1i * 32 + k) in
          let h =
            do_event-Handled handle here e (l1i * 32 + k) quiet (omega arith)
              (ground (arith, on)) in
          let (e', f, rest) =
            drain-Handled handle here l1i quiet small fuel (suc k) e1
              (after-one here e e1 l1i k h clear) (omega arith)
              (omega (arith, above k m e l1i below on)) in
          (
            e',
            rw (at, drain) f,
            Handled-same here _ (word_due e l1i) e e'
                (λ q. one_more here e e1 l1i k q (omega arith) on h)
                (Handled-trans here _ (word_due e1 l1i) e e1 e' (λ q. apart here e e1 l1i k q h) h
                  rest),
          )
    ]
