-- ===== src/Events.antt =====
-- The event channels of events.c and hypervisor.c: the bitmaps that are shared with Xen, the table of
-- actions, and the handling of one event. A handler is a number; what it does to the state is the
-- parameter `handle`, and each call of one is logged. Interrupts come only where `handle` says so.
pub mod Bind
pub mod Answers
pub mod Handled
pub mod Upcall
pub mod Tests
use guestvm_guk.Base.{
  ℕ, zero, suc, ◌+◌, ◌%◌, ◌/◌, ◌^◌, Bool, true, false, not, ◌&&◌, ◌||◌, Option, none, some, List,
  [], ◌∷◌, ◌==◌, leb, ltb, if◌then◌else◌,
}

-- `NR_EVS`
abbrev pub nr_evs : ℕ
nr_evs = 1024

-- The port is one of `n` from `i`.
abbrev pub inside : ℕ → ℕ → ℕ → Bool
inside i n q = leb i q && ltb q (i + n)

-- `ev_action_t`; the CPU `none` is `ANY_CPU`, the handler `none` is `NULL`.
pub record Action : Type 0 where
  pub cpu : Option ℕ
  pub handler : Option ℕ
  pub argument : ℕ
  pub count : ℕ

-- one call of a handler
pub record Call : Type 0 where
  pub handler : ℕ
  pub port : ℕ
  pub argument : ℕ

-- The bitmaps of the shared page, of which `pending_sel`, `upcall_pending` and `upcall_mask` are those of
-- this CPU, and the state of the kernel. `forced` counts the calls of `force_evtchn_callback`.
pub record Events : Type 0 where
  pub evtchn_pending : ℕ → Bool
  pub evtchn_mask : ℕ → Bool
  pub pending_sel : ℕ → Bool
  pub upcall_pending : Bool
  pub upcall_mask : Bool
  pub upcall_count : ℕ
  pub actions : ℕ → Action
  pub bound_ports : ℕ → Bool
  pub closed : List ℕ
  pub calls : List Call
  pub forced : ℕ

-- one bit of a bitmap
abbrev pub put_bit : ℕ → Bool → (ℕ → Bool) → ℕ → Bool
put_bit port b f q = if port == q then b else f q

abbrev pub put_action : Events → ℕ → Action → Events
put_action e port a = record e { actions = λ q. if port == q then a else e.actions q }

abbrev pub mask_evtchn : Events → ℕ → Events
mask_evtchn e port = record e { evtchn_mask = put_bit port true e.evtchn_mask }

abbrev pub clear_evtchn : Events → ℕ → Events
clear_evtchn e port = record e { evtchn_pending = put_bit port false e.evtchn_pending }

-- `unmask_evtchn` raises the event again if it has come while it was masked.
pub unmask_evtchn : Events → ℕ → Events
unmask_evtchn e port =
    let e1 = record e { evtchn_mask = put_bit port false e.evtchn_mask } in
    if e1.evtchn_pending port && not (e1.pending_sel (port / 32))
    then record e1 {
      pending_sel = put_bit (port / 32) true e1.pending_sel;
      upcall_pending = true;
      forced = if e1.upcall_mask then e1.forced else suc e1.forced;
    }
    else e1

-- the count of an action that has seen one event more, in 32 bits
abbrev pub counted : Action → Action
counted a = record a { count = (a.count + 1) % 2 ^ 32 }

-- The action is for this CPU.
pub heard : ℕ → Action → Bool
heard here a = elim a.cpu [ none ↦ true | some cpu ↦ cpu == here ]

-- the call of a handler, if there is one
pub call_handler : (ℕ → ℕ → ℕ → Events → Events) → Option ℕ → ℕ → ℕ → Events → Events
call_handler handle none port arg e = e
call_handler handle (some h) port arg e =
    handle h port arg
      (record e { calls = record { handler = h; port = port; argument = arg } ∷ e.calls })

-- `do_event`, on the CPU `here`
pub do_event : (ℕ → ℕ → ℕ → Events → Events) → ℕ → Events → ℕ → Events
do_event handle here e port =
    let e1 = clear_evtchn (mask_evtchn e port) port in
    let a = e1.actions port in
    let e2 = put_action e1 port (counted a) in
    unmask_evtchn
      (if leb nr_evs port
        then e1
        else if heard here a
        then call_handler handle a.handler port a.argument e2
        else e2)
      port
