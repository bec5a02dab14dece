-- ===== src/Console.antt =====
-- The console, console/console.c and console/xencons_ring.c: the two rings that are shared with the
-- console daemon, and printing with the conversion of line ends.
pub mod Output
pub mod Input
pub mod Crlf
pub mod Lines
mod Tests
use guestvm_guk.Base.{
  ℕ, zero, suc, ◌+◌, ◌-◌, ◌%◌, ◌^◌, Bool, true, false, not, ◌&&◌, Option, none, some, List, [], ◌∷◌,
  ◌++◌, ltb, ◌==◌, if◌then◌else◌, length, get_or, set, take, drop,
}
use guestvm_guk.Xenbus.Ring.{Wire, next_index, put_byte}

-- the page that is shared: the indices go round in 32 bits; `notified` counts the notifications, and
-- `taken_out` are the bytes that the console daemon has taken out of the ring of output, in their order
pub record Interface : Type 0 where
  pub in_cons : ℕ
  pub in_prod : ℕ
  pub in_ring : ℕ → ℕ
  pub out_cons : ℕ
  pub out_prod : ℕ
  pub out_ring : ℕ → ℕ
  pub notified : ℕ
  pub taken_out : List ℕ

-- `prod - cons`
abbrev pub used : ℕ → ℕ → ℕ
used prod cons = (prod + 2 ^ 32 - cons) % 2 ^ 32

-- what printing comes to: a full stop by `BUG`, or no end within the fuel
pub data Printing (S : Type 0) : Type 0 where
  printed : S → Printing S
  crashed : Printing S
  endless : Printing S

-- The size and the index mask of a ring are those of Xen's headers: `win` of the ring of input, `wout` of
-- that of output.
abbrev pub xencons_notify_daemon : Interface → Interface
xencons_notify_daemon s = record s { notified = s.notified + 1 }

-- `BUG_ON` is `none`.
unfoldable pub xencons_ring_avail : Wire → Interface → Option ℕ
xencons_ring_avail win s =
    if ltb win.size (used s.in_prod s.in_cons) then none else some (used s.in_prod s.in_cons)

-- The loop of `xencons_ring_send_no_notify`, with the number of bytes sent, the index and the ring.
unfoldable pub send_loop : Wire → List ℕ → ℕ → ℕ → (ℕ → ℕ) → ℕ × ℕ × (ℕ → ℕ)
send_loop wout [] cons prod ring = (0, prod, ring)
send_loop wout (b ∷ data') cons prod ring =
    let (sent, prod', ring') =
      send_loop wout data' cons (next_index prod) (put_byte ring (wout.mask prod) b) in
    if ltb (used prod cons) wout.size then (suc sent, prod', ring') else (0, prod, ring)

unfoldable pub xencons_ring_send_no_notify : Wire → List ℕ → Interface → Option (ℕ × Interface)
xencons_ring_send_no_notify wout bytes s =
    let (sent, prod, ring) = send_loop wout bytes s.out_cons s.out_prod s.out_ring in
    if ltb wout.size (used s.out_prod s.out_cons)
    then none
    else some (sent, record s { out_prod = prod; out_ring = ring })

abbrev pub notify_of : Option (ℕ × Interface) → Option (ℕ × Interface)
notify_of none = none
notify_of (some (sent, s)) = some (sent, xencons_notify_daemon s)

unfoldable pub xencons_ring_send : Wire → List ℕ → Interface → Option (ℕ × Interface)
xencons_ring_send wout bytes s = notify_of (xencons_ring_send_no_notify wout bytes s)

-- The loop of `xencons_ring_recv` from the index `cons + filled`, for `left` more bytes.
unfoldable pub recv_loop : Wire → ℕ → ℕ → ℕ → (ℕ → ℕ) → List ℕ
recv_loop win zero i prod ring = []
recv_loop win (suc left) i prod ring =
    if i == prod then [] else ring (win.mask i) ∷ recv_loop win left (next_index i) prod ring

unfoldable pub xencons_ring_recv : Wire → ℕ → Interface → Option (List ℕ × Interface)
xencons_ring_recv win len s =
    let bytes = recv_loop win len s.in_cons s.in_prod s.in_ring in
    if ltb win.size (used s.in_prod s.in_cons)
    then none
    else some
        (bytes, xencons_notify_daemon (record s { in_cons = (s.in_cons + length bytes) % 2 ^ 32 }))

-- The console's variables with the rings. `xencons_ring_send_fn` is the function with the notification as
-- soon as the console is initialised.
pub record Console : Type 0 where
  pub console_initialised : Bool
  pub console_dying : Bool
  pub rings : Interface

unfoldable pub xencons_ring_send_fn : Wire → Bool → List ℕ → Interface → Option (ℕ × Interface)
xencons_ring_send_fn wout initialised bytes s =
    if initialised then xencons_ring_send wout bytes s else xencons_ring_send_no_notify wout bytes s

-- the variables that `init_console` sets
abbrev pub init_console : Console → Console
init_console c = record c { console_initialised = true }

abbrev pub then_send :
    Option (ℕ × Interface) → (ℕ → Interface → Printing Interface) → Printing Interface
then_send none next = crashed
then_send (some (n, s)) next = next n s

-- `checked_print`, which sends until nothing is left: before each time `daemon` is what the console daemon
-- does meanwhile.
unfoldable pub checked_print :
    ℕ → Wire → Bool → (Interface → Interface) → List ℕ → Interface → Printing Interface
checked_print fuel wout initialised daemon [] s = printed s
checked_print zero wout initialised daemon (b ∷ bytes) s = endless
checked_print (suc fuel) wout initialised daemon (b ∷ bytes) s =
    then_send (xencons_ring_send_fn wout initialised (b ∷ bytes) (daemon s))
      (λ n s1. checked_print fuel wout initialised daemon (drop n (b ∷ bytes)) s1)

abbrev pub then_print : Printing Interface → (Interface → Printing Interface) → Printing Interface
then_print (printed s) next = next s
then_print crashed next = crashed
then_print endless next = endless

-- The buffer with the line end at `i` made into two characters, over the next one, and restored.
unfoldable pub with_line_end : List ℕ → ℕ → List ℕ
with_line_end bytes i = set (set bytes i 13) (i + 1) 10

unfoldable pub restored : List ℕ → ℕ → ℕ → List ℕ
restored bytes i saved_char = set (set (with_line_end bytes i) (i + 1) saved_char) i 10

module _ (wout : Wire) (initialised : Bool) (daemon : Interface → Interface) where
  -- `checked_print` of some bytes, with a round for each
  unfoldable pub print_bytes : List ℕ → Interface → Printing Interface
  print_bytes bytes s = checked_print (length bytes) wout initialised daemon bytes s

  -- The end of `console_print`: `data[length-1]` and what it has to do with it.
  unfoldable pub print_rest : List ℕ → Interface → Printing Interface
  print_rest bytes s =
      let ended = print_bytes (take (length bytes - 1) bytes) s in
      if get_or bytes (length bytes - 1) 0 == 10
      then then_print ended (print_bytes (13 ∷ 10 ∷ []))
      else print_bytes bytes s

  -- The loop of `console_print` with `curr_char` at `i`, and what follows it.
  unfoldable pub print_lines : ℕ → List ℕ → ℕ → Interface → Printing Interface
  print_lines zero bytes i s = endless
  print_lines (suc fuel) bytes i s =
      let line =
        then_print (print_bytes (take (i + 2) (with_line_end bytes i)) s) (λ s1.
          print_lines fuel (drop (i + 1) (restored bytes i (get_or bytes (i + 1) 0))) 0 s1) in
      let next = print_lines fuel bytes (i + 1) s in
      if ltb (i + 1) (length bytes)
      then (if get_or bytes i 0 == 10 then line else next)
      else print_rest bytes s

-- the length of `init_overflow`
abbrev pub overflow_length : ℕ
overflow_length = 57

-- `xencons_ring_avail() - length < strlen(init_overflow)`: the difference is an `int`, which is compared as
-- an unsigned number of 64 bits.
unfoldable pub overflows : ℕ → ℕ → Bool
overflows avail length =
    let difference = (avail + 2 ^ 32 - length) % 2 ^ 32 in
    ltb difference (2 ^ 31) && ltb difference overflow_length

-- whether `console_print` stops the system before it prints
unfoldable pub stops : Wire → ℕ → Console → Bool
stops win length c =
    if c.console_initialised
    then false
    else elim (xencons_ring_avail win c.rings) [ none ↦ true | some avail ↦ overflows avail length ]

-- `console_print`; of no bytes at all it reads in front of the buffer, which is `none`.
unfoldable pub console_print :
    Wire → Wire → (Interface → Interface) → List ℕ → Console → Option (Printing Interface)
console_print win wout daemon [] c =
    if c.console_dying then some (printed c.rings) else if stops win 0 c then some crashed else none
console_print win wout daemon (b ∷ bytes) c =
    let lines =
      print_lines wout c.console_initialised daemon (length (b ∷ bytes)) (b ∷ bytes) 0 c.rings in
    if c.console_dying
    then some (printed c.rings)
    else if stops win (length (b ∷ bytes)) c
    then some crashed
    else some lines
