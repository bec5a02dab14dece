-- ===== src/Events/Answers.antt =====
-- What the handlers of events.c are called with, by the log of the calls.
use guestvm_guk.Base.{
  ℕ, ◌+◌, ◌≡◌, refl, sym, ap, ◌∙◌, Bool, true, false, not, ◌&&◌, ◌||◌, arith, none, some, List, [],
  ◌∷◌, ◌==◌, if◌then◌else◌, if-false,
}
use guestvm_guk.Events.{Action, Call, Events, counted, heard}

-- Handlers that leave the event channels alone.
pub record Quiet (handle : ℕ → ℕ → ℕ → Events → Events) : Type 0 where
  pub pending : (h p a : ℕ) (e : Events) → (handle h p a e).evtchn_pending ≡ e.evtchn_pending
  pub mask : (h p a : ℕ) (e : Events) → (handle h p a e).evtchn_mask ≡ e.evtchn_mask
  pub sel : (h p a : ℕ) (e : Events) → (handle h p a e).pending_sel ≡ e.pending_sel
  pub nested : (h p a : ℕ) (e : Events) → (handle h p a e).upcall_count ≡ e.upcall_count
  pub acts : (h p a : ℕ) (e : Events) → (handle h p a e).actions ≡ e.actions
  pub log : (h p a : ℕ) (e : Events) → (handle h p a e).calls ≡ e.calls

-- how often a handler has been called for the port
unfoldable pub times : ℕ → List Call → ℕ
times p [] = 0
times p (c ∷ cs) = (if p == c.port then 1 else 0) + times p cs

-- An event for this action calls a handler.
unfoldable pub answered : ℕ → Action → Bool
answered here a = heard here a && (elim a.handler [ none ↦ false | some h ↦ true ])

-- The ports of `d` have been handled, once each, and no others.
pub record Handled (here : ℕ) (d : ℕ → Bool) (e e' : Events) : Type 0 where
  pub pending : (q : ℕ) → e'.evtchn_pending q ≡ (e.evtchn_pending q && not (d q))
  pub mask : (q : ℕ) → e'.evtchn_mask q ≡ e.evtchn_mask q
  pub acts : (q : ℕ) → e'.actions q ≡ (if d q then counted (e.actions q) else e.actions q)
  pub calls :
      (q : ℕ)
      → times q e'.calls ≡ (if d q && answered here (e.actions q) then 1 else 0) + times q e.calls
  pub nested : e'.upcall_count ≡ e.upcall_count

answered-counted : (here : ℕ) (a : Action) → answered here (counted a) ≡ answered here a
unfolding answered heard
answered-counted here a = refl

pub Handled-none :
    (here : ℕ) (d : ℕ → Bool) (e : Events) → ((q : ℕ) → d q ≡ false) → Handled here d e e
Handled-none here d e no_port = record {
  pending = λ q. ground (arith, no_port q);
  mask = λ q. refl;
  acts = λ q. sym (if-false _ _ _ (no_port q));
  calls = λ q. ground (arith, no_port q);
  nested = refl;
}

pub deaf-answered : (here : ℕ) (a : Action) → heard here a ≡ false → answered here a ≡ false
unfolding answered
deaf-answered here a deaf = rw deaf refl

-- the ports of one after the ports of another
acts_trans :
    (b c : Bool) (a a1 a2 : Action)
    → (b && c) ≡ false
    → a1 ≡ (if b then counted a else a)
    → a2 ≡ (if c then counted a1 else a1)
    → a2 ≡ (if b || c then counted a else a)
acts_trans true true a a1 a2 apart e f = absurd (ground (arith, apart))
acts_trans true false a a1 a2 apart e f = f ∙ e
acts_trans false true a a1 a2 apart e f = f ∙ ap counted e
acts_trans false false a a1 a2 apart e f = f ∙ e

answered-if :
    (here : ℕ) (b : Bool) (a a1 : Action)
    → a1 ≡ (if b then counted a else a)
    → answered here a1 ≡ answered here a
answered-if here true a a1 e = ap (answered here) e ∙ answered-counted here a
answered-if here false a a1 e = ap (answered here) e

pub Handled-trans :
    (here : ℕ) (d d' : ℕ → Bool) (e e1 e2 : Events)
    → ((q : ℕ) → (d q && d' q) ≡ false)
    → Handled here d e e1
    → Handled here d' e1 e2
    → Handled here (λ q. d q || d' q) e e2
Handled-trans here d d' e e1 e2 apart h k = record {
  pending = λ q. ground (arith, h.pending q, k.pending q);
  mask = λ q. k.mask q ∙ h.mask q;
  acts = λ q. acts_trans (d q) (d' q) _ _ _ (apart q) (h.acts q) (k.acts q);
  calls = λ q. ground (
    arith,
    apart q,
    h.calls q,
    k.calls q,
    answered-if here (d q) (e.actions q) (e1.actions q) (h.acts q),
  );
  nested = k.nested ∙ h.nested;
}

pub Handled-same :
    (here : ℕ) (d d' : ℕ → Bool) (e e' : Events)
    → ((q : ℕ) → d q ≡ d' q)
    → Handled here d e e'
    → Handled here d' e e'
Handled-same here d d' e e' same h = record {
  pending = λ q. ground (arith, same q, h.pending q);
  mask = h.mask;
  acts = λ q. h.acts q ∙ ap (λ b. if b then counted (e.actions q) else e.actions q) (same q);
  calls = λ q. ground (arith, same q, h.calls q);
  nested = h.nested;
}
