-- ===== src/Events/Handled.antt =====
-- The handling of one event, which calls its handler once.
use guestvm_guk.Base.{
  ℕ, ◌+◌, ◌/◌, ◌<◌, ◌≡◌, ◌≢◌, refl, sym, ap, ◌∙◌, subst, true, false, not, ◌&&◌, arith, Option,
  none, some, ◌∷◌, ◌==◌, leb, if◌then◌else◌, if-true, if-false, Bool-cases, inl, inr,
}
use guestvm_guk.Events.{
  nr_evs, Events, put_action, mask_evtchn, clear_evtchn, unmask_evtchn, counted, heard,
  call_handler, do_event,
}
use guestvm_guk.Events.Answers.{Quiet, times, answered, Handled, deaf-answered}

-- the state after the handler, before the port is unmasked
record Called (here port : ℕ) (e e' : Events) : Type 0 where
  pending : (q : ℕ) → e'.evtchn_pending q ≡ (e.evtchn_pending q && not (port == q))
  mask : (q : ℕ) → e'.evtchn_mask q ≡ (if port == q then true else e.evtchn_mask q)
  acts : (q : ℕ) → e'.actions q ≡ (if port == q then counted (e.actions q) else e.actions q)
  calls :
      (q : ℕ)
      → times q e'.calls
        ≡ (if (port == q) && answered here (e.actions q) then 1 else 0) + times q e.calls
  nested : e'.upcall_count ≡ e.upcall_count

-- the state in which `do_event` calls the handler
abbrev taken : Events → ℕ → Events
taken e port = put_action (clear_evtchn (mask_evtchn e port) port) port (counted (e.actions port))

taken-acts :
    (e : Events) (port q : ℕ)
    → (taken e port).actions q ≡ (if port == q then counted (e.actions q) else e.actions q)
taken-acts e port q = elim (Bool-cases (port == q)) [
  | inl same ↦
      if-true (port == q) _ _ same
      ∙ ap (λ k. counted (e.actions k)) (ground (arith, same))
      ∙ sym (if-true (port == q) _ _ same)
  | inr other ↦ if-false (port == q) _ _ other ∙ sym (if-false (port == q) _ _ other)
]

unheard-Called :
    (here : ℕ) (e : Events) (port : ℕ)
    → answered here (e.actions port) ≡ false
    → Called here port e (taken e port)
unheard-Called here e port deaf = record {
  pending = λ q. ground arith;
  mask = λ q. ground arith;
  acts = λ q. taken-acts e port q;
  calls = λ q. elim (Bool-cases (port == q)) [
    | inl same ↦ ground (arith, same, deaf, ap (λ k. answered here (e.actions k)) (is_same q same))
    | inr other ↦ ground (arith, other)
  ];
  nested = refl;
}
  where
    is_same : (q : ℕ) → (port == q) ≡ true → port ≡ q
    is_same q h = ground (arith, h)

-- the log with the call of a handler
abbrev logged : Events → ℕ → ℕ → Events
logged e port h = record (taken e port) {
  calls = record { handler = h; port = port; argument = (e.actions port).argument } ∷ e.calls;
}

answers-Called :
    (handle : ℕ → ℕ → ℕ → Events → Events) (here : ℕ) (e : Events) (port h : ℕ)
    → Quiet handle
    → answered here (e.actions port) ≡ true
    → Called here port e (handle h port (e.actions port).argument (logged e port h))
unfolding times
answers-Called handle here e port h quiet hears = record {
  pending = λ q. ap (λ f. f q) (quiet.pending h port arg at) ∙ ground arith;
  mask = λ q. ap (λ f. f q) (quiet.mask h port arg at) ∙ ground arith;
  acts = λ q. ap (λ f. f q) (quiet.acts h port arg at) ∙ taken-acts e port q;
  calls = λ q. ap (times q) (quiet.log h port arg at) ∙ elim (Bool-cases (port == q)) [
    | inl same ↦ ground (arith, same, hears, ap (λ k. answered here (e.actions k)) (is_same q same))
    | inr other ↦ ground (arith, other)
  ];
  nested = quiet.nested h port arg at;
}
  where
    arg : ℕ
    arg = (e.actions port).argument

    at : Events
    at = logged e port h

    is_same : (q : ℕ) → (port == q) ≡ true → port ≡ q
    is_same q h = ground (arith, h)

call_handler-Called :
    (handle : ℕ → ℕ → ℕ → Events → Events) (here : ℕ) (e : Events) (port : ℕ) (handler : Option ℕ)
    → Quiet handle
    → (e.actions port).handler ≡ handler
    → heard here (e.actions port) ≡ true
    → Called here port e (call_handler handle handler port (e.actions port).argument (taken e port))
unfolding call_handler answered
call_handler-Called handle here e port none quiet is_none hears =
    unheard-Called here e port (rw (hears, is_none) refl)
call_handler-Called handle here e port (some h) quiet is_some hears =
    answers-Called handle here e port h quiet (rw (hears, is_some) refl)

Called-Handled :
    (here : ℕ) (e e' : Events) (port : ℕ)
    → e.evtchn_mask port ≡ false
    → Called here port e e'
    → Handled here (λ q. port == q) e (unmask_evtchn e' port)
unfolding unmask_evtchn
Called-Handled here e e' port open_port c =
    subst (Handled here (λ q. port == q) e) (sym (if-false _ _ _ quiet_port)) (record {
      pending = c.pending;
      mask = λ q. elim (Bool-cases (port == q)) [
        | inl same ↦
            if-true (port == q) _ _ same ∙ sym open_port ∙ ap e.evtchn_mask (is_same q same)
        | inr other ↦ if-false (port == q) _ _ other ∙ c.mask q ∙ if-false (port == q) _ _ other
      ];
      acts = c.acts;
      calls = c.calls;
      nested = c.nested;
    })
  where
    is_same : (q : ℕ) → (port == q) ≡ true → port ≡ q
    is_same q h = ground (arith, h)

    quiet_port : (e'.evtchn_pending port && not (e'.pending_sel (port / 32))) ≡ false
    quiet_port = ground (arith, c.pending port)

-- the state in which `do_event` unmasks the port again
abbrev handled : (ℕ → ℕ → ℕ → Events → Events) → ℕ → Events → ℕ → Events
handled handle here e port =
    if heard here (e.actions port)
    then call_handler handle (e.actions port).handler port (e.actions port).argument (taken e port)
    else taken e port

handled-Called :
    (handle : ℕ → ℕ → ℕ → Events → Events) (here : ℕ) (e : Events) (port : ℕ)
    → Quiet handle
    → Called here port e (handled handle here e port)
handled-Called handle here e port quiet = elim (Bool-cases (heard here (e.actions port))) [
  | inl hears ↦
      subst (Called here port e) (sym (if-true _ _ _ hears))
        (call_handler-Called handle here e port (e.actions port).handler quiet refl hears)
  | inr deaf ↦
      subst (Called here port e) (sym (if-false _ _ _ deaf))
        (unheard-Called here e port (deaf-answered here (e.actions port) deaf))
]

do_event-handled :
    (handle : ℕ → ℕ → ℕ → Events → Events) (here : ℕ) (e : Events) (port : ℕ)
    → port < nr_evs
    → do_event handle here e port ≡ unmask_evtchn (handled handle here e port) port
unfolding do_event
do_event-handled handle here e port small =
    ap (λ s. unmask_evtchn s port) (if-false (leb nr_evs port) _ _ (ground arith))

-- The handling of one event.
pub do_event-Handled :
    (handle : ℕ → ℕ → ℕ → Events → Events) (here : ℕ) (e : Events) (port : ℕ)
    → Quiet handle
    → port < nr_evs
    → e.evtchn_mask port ≡ false
    → Handled here (λ q. port == q) e (do_event handle here e port)
do_event-Handled handle here e port quiet small open_port =
    subst (Handled here (λ q. port == q) e) (sym (do_event-handled handle here e port small))
      (Called-Handled here e _ port open_port (handled-Called handle here e port quiet))

unmask-others :
    (e : Events) (port q : ℕ)
    → port ≢ q
    → ((unmask_evtchn e port).evtchn_pending q ≡ e.evtchn_pending q)
      × ((unmask_evtchn e port).evtchn_mask q ≡ e.evtchn_mask q)
unfolding unmask_evtchn
unmask-others e port q ne = (ground arith, ground arith)

-- An event leaves the state of every other port.
pub do_event-others :
    (handle : ℕ → ℕ → ℕ → Events → Events) (here : ℕ) (e : Events) (port q : ℕ)
    → Quiet handle
    → port < nr_evs
    → port ≢ q
    → ((do_event handle here e port).evtchn_pending q ≡ e.evtchn_pending q)
      × ((do_event handle here e port).evtchn_mask q ≡ e.evtchn_mask q)
do_event-others handle here e port q quiet small ne =
    let c = handled-Called handle here e port quiet in
    let u = unmask-others (handled handle here e port) port q ne in
    subst (λ s. (s.evtchn_pending q ≡ e.evtchn_pending q) × (s.evtchn_mask q ≡ e.evtchn_mask q))
      (sym (do_event-handled handle here e port small))
      (u.0 ∙ ground (arith, c.pending q), u.1 ∙ ground (arith, c.mask q))
