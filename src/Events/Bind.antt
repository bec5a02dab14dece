-- ===== src/Events/Bind.antt =====
-- The binding of handlers to ports. An answer of the hypervisor is an error and the port that it names; a
-- `none` is a `BUG`, or a port outside of the table of actions.
pub mod Ports
mod Tests
use guestvm_guk.Base.{
  ℕ, zero, suc, Bool, true, false, Option, none, some, List, [], ◌∷◌, ◌==◌, ltb, if◌then◌else◌,
}
use guestvm_guk.Events.{
  nr_evs, Action, Events, put_bit, put_action, mask_evtchn, clear_evtchn, unmask_evtchn,
}

-- the number of `default_handler`
abbrev pub default_handler : ℕ
default_handler = 0

-- `bind_evtchn`
pub bind_evtchn : Events → ℕ → Option ℕ → ℕ → ℕ → Option Events
bind_evtchn e port cpu handler arg =
    if ltb port nr_evs
    then some (
        unmask_evtchn
          (put_action e port
            (record { cpu = cpu; handler = some handler; argument = arg; count = 0 }))
          port)
    else none

-- `unbind_evtchn` on a port of the table
pub unbind_evtchn : Events → ℕ → Events
unbind_evtchn e port =
    put_action e port (record (e.actions port) { handler = some default_handler; argument = 0 })

abbrev pub bound : Events → ℕ → Events
bound e port = record e { bound_ports = put_bit port true e.bound_ports }

-- `bind_virq` and `evtchn_alloc_ipi`
pub bind_virq : Events → ℕ × ℕ → Option ℕ → ℕ → ℕ → Option Events
bind_virq e (err, port) cpu handler arg =
    if err == 0 then bind_evtchn (bound e port) port cpu handler arg else none

pub evtchn_alloc_ipi : Events → ℕ × ℕ → Option ℕ → ℕ → ℕ → Option Events
evtchn_alloc_ipi e (err, port) cpu handler arg =
    if err == 0 then bind_evtchn (bound e port) port cpu handler arg else none

abbrev pub with_port : ℕ → Option Events → Option (Option ℕ × Events)
with_port port none = none
with_port port (some e) = some (some port, e)

-- `evtchn_alloc_unbound` and `evtchn_bind_interdomain`, with the port that they write, if they do
pub evtchn_alloc_unbound : Events → ℕ × ℕ → Option ℕ → ℕ → ℕ → Option (Option ℕ × Events)
evtchn_alloc_unbound e (err, port) cpu handler arg =
    if err == 0 then with_port port (bind_evtchn e port cpu handler arg) else some (none, e)

pub evtchn_bind_interdomain : Events → ℕ × ℕ → Option ℕ → ℕ → ℕ → Option (Option ℕ × Events)
evtchn_bind_interdomain e (err, port) cpu handler arg =
    if err == 0
    then with_port port (bind_evtchn (clear_evtchn (bound e port) port) port cpu handler arg)
    else some (none, e)

-- the loop of `init_events`, from port `i` over `n` ports
pub init_events : ℕ → ℕ → Events → Events
init_events i zero e = e
init_events i (suc n) e =
    init_events (suc i) n
      (mask_evtchn (put_action e i (record (e.actions i) { handler = some default_handler })) i)

-- `unbind_all_ports`, from port `i` over `n` ports
abbrev pub close_port : Events → ℕ → Events
close_port e i =
    let e1 = mask_evtchn (record e { bound_ports = put_bit i false e.bound_ports }) i in
    unbind_evtchn (record e1 { closed = i ∷ e1.closed }) i

pub unbind_all_ports : ℕ → ℕ → Events → Events
unbind_all_ports i zero e = e
unbind_all_ports i (suc n) e =
    unbind_all_ports (suc i) n (if e.bound_ports i then close_port e i else e)
