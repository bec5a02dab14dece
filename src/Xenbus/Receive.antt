-- ===== src/Xenbus/Receive.antt =====
-- The thread that takes the messages of the store daemon off its ring.
pub mod Messages
mod Tests
use guestvm_guk.Base.{
  take, drop, ℕ, ◌+◌, ◌-◌, ◌%◌, ◌^◌, Bool, true, false, not, Option, none, some, List, [], ◌∷◌,
  length, ltb, ◌==◌, if◌then◌else◌,
}
use guestvm_guk.Strings.{strlen}
use guestvm_guk.Xenbus.Ring.{Wire, memcpy_from_ring}
use guestvm_guk.Xenbus.Watch.{Watch, watch_event}

-- the fields of `struct xsd_sockmsg` that the thread reads
pub record Header : Type 0 where
  pub kind : ℕ
  pub req_id : ℕ
  pub len : ℕ

-- `rsp_prod`, `rsp_cons` and `rsp` of the shared page, the requests on their way with their replies, the
-- watches, and the threads and requests that have been woken.
pub record Bus : Type 0 where
  pub rsp_prod : ℕ
  pub rsp_cons : ℕ
  pub rsp : ℕ → ℕ
  pub live : ℕ → Bool
  pub reply : ℕ → List ℕ
  pub watches : List Watch
  pub woken_threads : List ℕ
  pub woken_requests : List ℕ

pub data Outcome : Type 0 where
  idle : Outcome
  bug : Outcome
  took : Bus → Outcome

abbrev pub wake_thread : Option ℕ → List ℕ → List ℕ
wake_thread none woken = woken
wake_thread (some t) woken = t ∷ woken

-- the bytes that the daemon has sent and the thread has not taken
abbrev pub available : Bus → ℕ
available s = (s.rsp_prod + 2 ^ 32 - s.rsp_cons) % 2 ^ 32

abbrev pub consume : Bus → ℕ → Bus
consume s n = record s { rsp_cons = (s.rsp_cons + n) % 2 ^ 32 }

-- A watch event: the path, and behind it the token. A path without an end is a read behind the message.
pub receive_event : Bus → ℕ → List ℕ → Outcome
receive_event s total body = elim (strlen body) [
  | none ↦ bug
  | some l ↦ elim (watch_event (take (l + 1) body) (drop (l + 1) body) s.watches) [
    | none ↦ bug
    | some (watches, woken) ↦ took (
        consume (record s { watches = watches; woken_threads = wake_thread woken s.woken_threads })
          total)
  ]
]

-- A reply goes to the request that waits for it.
pub receive_reply : Bus → ℕ → ℕ → List ℕ → Outcome
receive_reply s total id message =
    if not (s.live id)
    then bug
    else took (
        consume
          (record s {
            reply = λ j. if j == id then message else s.reply j;
            woken_requests = id ∷ s.woken_requests;
          })
          total)

-- The layout of the header and `XS_WATCH_EVENT` of Xen's headers.
module _ (w : Wire) (header_size : ℕ) (decode : List ℕ → Header) (xs_watch_event : ℕ) where
  -- What the thread reads of a message of `total` bytes that is there in full.
  pub receive_message : Bus → Header → ℕ → Outcome
  receive_message s msg total =
      let message = memcpy_from_ring w s.rsp (w.mask s.rsp_cons) total in
      if msg.kind == xs_watch_event
      then receive_event s total (drop header_size message)
      else receive_reply s total msg.req_id message

  -- One round of the inner loop of `xenbus_thread_func`; it ends the loop while no whole message is there.
  pub receive : Bus → Outcome
  receive s =
      let msg = decode (memcpy_from_ring w s.rsp (w.mask s.rsp_cons) header_size) in
      if ltb (available s) header_size
      then idle
      else if ltb (available s) (header_size + msg.len)
      then idle
      else receive_message s msg (msg.len + header_size)
