-- ===== src/Events/Upcall.antt =====
-- `do_hypervisor_callback` of hypervisor.c: the walk over the words of the shared bitmap in which events
-- are pending. `w` is the number of bits of a word of that bitmap in Xen's headers.
pub mod Words
pub mod Delivered
pub mod Lost
mod Tests
use guestvm_guk.Base.{
  ℕ, zero, suc, ◌+◌, ◌*◌, Bool, true, false, not, ◌&&◌, Option, none, some, ◌==◌, if◌then◌else◌,
}
use guestvm_guk.Events.{Events, do_event}

-- `__ffs` of a bitmap, from bit `i` over `n` bits; `none` where no bit is set
pub ffs : (ℕ → Bool) → ℕ → ℕ → Option ℕ
ffs f i zero = none
ffs f i (suc n) = if f i then some i else ffs f (suc i) n

-- the bits of `active_evtchns`
abbrev pub active : Events → ℕ → Bool
active e port = e.evtchn_pending port && not (e.evtchn_mask port)

-- The loop over the events of one word, of which `l2` holds the low 32 bits. `none` is no end in `fuel`
-- rounds.
pub drain : ℕ → (ℕ → ℕ → ℕ → Events → Events) → ℕ → ℕ → Events → ℕ → Option Events
drain w handle here zero e l1i = none
drain w handle here (suc fuel) e l1i = elim (ffs (λ i. active e (l1i * w + i)) 0 32) [
  | none ↦ some e
  | some l2i ↦ drain w handle here fuel (do_event handle here e (l1i * 32 + l2i)) l1i
]

-- the loop over the words that `l1` names, upwards from word `i`
pub scan : ℕ → (ℕ → ℕ → ℕ → Events → Events) → ℕ → ℕ → (ℕ → Bool) → ℕ → ℕ → Events → Option Events
scan w handle here fuel l1 i zero e = some e
scan w handle here fuel l1 i (suc n) e =
    let rest = scan w handle here fuel l1 (suc i) n in
    if l1 i
    then (elim (drain w handle here fuel e i) [ none ↦ none | some e1 ↦ rest e1 ])
    else rest e

-- Nested calls only count themselves; the outer call goes round again if there have been any.
pub do_hypervisor_callback : ℕ → (ℕ → ℕ → ℕ → Events → Events) → ℕ → ℕ → ℕ → Events → Option Events
do_hypervisor_callback w handle here fuel zero e = none
do_hypervisor_callback w handle here fuel (suc rounds) e =
    let e1 = record e { upcall_pending = false; upcall_count = suc e.upcall_count } in
    let scanned =
      scan w handle here fuel e1.pending_sel 0 32 (record e1 { pending_sel = λ q. false }) in
    if e.upcall_count == 0
    then (elim scanned [
      | none ↦ none
      | some e2 ↦
          let e3 = record e2 { upcall_count = 0 } in
          let again = do_hypervisor_callback w handle here fuel rounds e3 in
          if e2.upcall_count == 1 then some e3 else again
    ])
    else some e1
