-- ===== src/Events/Bind/Ports.antt =====
-- What is bound after the ports have been bound and unbound.
use guestvm_guk.Base.{
  ℕ, zero, suc, ◌≡◌, sym, ap, ◌∙◌, subst, Bool, true, false, not, ◌&&◌, ◌||◌, arith, Option, some,
  ◌==◌, if◌then◌else◌, if-true, if-false, Bool-cases, inl, inr,
}
use guestvm_guk.Events.{Action, Events, inside}
use guestvm_guk.Events.Bind.{default_handler, unbind_evtchn, close_port, unbind_all_ports}

-- The ports that were bound among `n` from `i` have been masked and unbound, and no others.
pub record Unbound (i n : ℕ) (e e' : Events) : Type 0 where
  pub ports : (q : ℕ) → e'.bound_ports q ≡ (e.bound_ports q && not (inside i n q))
  pub mask : (q : ℕ) → e'.evtchn_mask q ≡ (e.evtchn_mask q || (e.bound_ports q && inside i n q))
  pub handlers :
      (q : ℕ)
      → (e'.actions q).handler
        ≡ (if e.bound_ports q && inside i n q then some default_handler else (e.actions q).handler)

close_port-Unbound : (e : Events) (i : ℕ) → e.bound_ports i ≡ true → Unbound i 1 e (close_port e i)
unfolding unbind_evtchn
close_port-Unbound e i on = record {
  ports = λ q. ground arith;
  mask = λ q. elim (Bool-cases (i == q)) [
    | inl same ↦ ground (arith, same, on, ap e.bound_ports (is_same q same))
    | inr other ↦ ground (arith, other)
  ];
  handlers =
      λ q. elim (Bool-cases (i == q)) [ inl same ↦ if_same q same | inr other ↦ if_other q other ];
}
  where
    is_same : (q : ℕ) → (i == q) ≡ true → i ≡ q
    is_same q h = ground (arith, h)

    if_same :
        (q : ℕ)
        → (i == q) ≡ true
        → ((close_port e i).actions q).handler ≡ (
            if e.bound_ports q && inside i 1 q then some default_handler else (e.actions q).handler)
    if_same q same =
        ap Action.handler (if-true (i == q) _ _ same)
        ∙ sym (
            if-true (e.bound_ports q && inside i 1 q) _ _
              (ground (arith, same, on, ap e.bound_ports (is_same q same))))

    if_other :
        (q : ℕ)
        → (i == q) ≡ false
        → ((close_port e i).actions q).handler ≡ (
            if e.bound_ports q && inside i 1 q then some default_handler else (e.actions q).handler)
    if_other q other =
        ap Action.handler (if-false (i == q) _ _ other)
        ∙ sym (if-false (e.bound_ports q && inside i 1 q) _ _ (ground (arith, other)))

unbind-handler :
    (b c d : Bool) (h h1 h2 : Option ℕ)
    → h1 ≡ (if b && c then some default_handler else h)
    → h2 ≡ (if (b && not c) && d then some default_handler else h1)
    → h2 ≡ (if b && (c || d) then some default_handler else h)
unbind-handler true true d h h1 h2 e f = f ∙ e
unbind-handler true false true h h1 h2 e f = f
unbind-handler true false false h h1 h2 e f = f ∙ e
unbind-handler false c d h h1 h2 e f = f ∙ e

Unbound-next :
    (i n : ℕ) (e e1 e2 : Events)
    → Unbound i 1 e e1
    → Unbound (suc i) n e1 e2
    → Unbound i (suc n) e e2
Unbound-next i n e e1 e2 h k = record {
  ports = λ q. ground (arith, h.ports q, k.ports q);
  mask = λ q. ground (arith, h.ports q, h.mask q, k.mask q);
  handlers = λ q.
      unbind-handler (e.bound_ports q) (inside i 1 q) (inside (suc i) n q) _ _ _ (h.handlers q) (
        k.handlers q
        ∙ ap (λ b. if b && inside (suc i) n q then some default_handler else (e1.actions q).handler)
            (h.ports q))
      ∙ ap (λ b. if e.bound_ports q && b then some default_handler else (e.actions q).handler)
          (split q);
}
  where
    split : (q : ℕ) → (inside i 1 q || inside (suc i) n q) ≡ inside i (suc n) q
    split q = ground arith

skip-Unbound : (e : Events) (i : ℕ) → e.bound_ports i ≡ false → Unbound i 1 e e
skip-Unbound e i off = record {
  ports = λ q. ground (arith, never q);
  mask = λ q. ground (arith, never q);
  handlers = λ q. sym (if-false (e.bound_ports q && inside i 1 q) _ _ (never q));
}
  where
    is_same : (q : ℕ) → (i == q) ≡ true → i ≡ q
    is_same q h = ground (arith, h)

    never : (q : ℕ) → (e.bound_ports q && inside i 1 q) ≡ false
    never q = elim (Bool-cases (i == q)) [
      | inl same ↦ ground (arith, off, ap e.bound_ports (is_same q same))
      | inr other ↦ ground (arith, other)
    ]

-- `unbind_all_ports` over a range of ports masks exactly the bound ports of the range, gives each
-- of them the default handler and clears its mark as bound; other ports keep their mark, mask and
-- handler.
pub unbind_all_ports-Unbound : (i n : ℕ) (e : Events) → Unbound i n e (unbind_all_ports i n e)
unfolding unbind_all_ports
unbind_all_ports-Unbound i zero e = record {
  ports = λ q. ground arith;
  mask = λ q. ground arith;
  handlers = λ q. sym (if-false (e.bound_ports q && inside i 0 q) _ _ (ground arith));
}
unbind_all_ports-Unbound i (suc n) e = elim (Bool-cases (e.bound_ports i)) [
  | inl on ↦
      subst (λ s. Unbound i (suc n) e (unbind_all_ports (suc i) n s)) (sym (if-true _ _ _ on))
        (Unbound-next i n e (close_port e i) _ (close_port-Unbound e i on)
          (unbind_all_ports-Unbound (suc i) n (close_port e i)))
  | inr off ↦
      subst (λ s. Unbound i (suc n) e (unbind_all_ports (suc i) n s)) (sym (if-false _ _ _ off))
        (Unbound-next i n e e _ (skip-Unbound e i off) (unbind_all_ports-Unbound (suc i) n e))
]
