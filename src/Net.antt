-- ===== src/Net.antt =====
-- The network front end, netfront.c: sending, the end of sends, and receiving. The two rings are seen
-- by the responses in them; `grant` is the reference that `gnttab_grant_access` gives for a buffer.
pub mod Receive
pub mod Rounds
pub mod Send
mod Tests
use guestvm_guk.Base.{
  ℕ, zero, suc, ◌+◌, ◌-◌, ◌%◌, ◌^◌, bit_and, Bool, true, false, not, ◌&&◌, ◌||◌, Option, none, some,
  List, [], ◌∷◌, ◌++◌, ltb, ◌==◌, if◌then◌else◌,
}
use guestvm_guk.FreeIds.{add_id_to_freelist, get_id_from_freelist}

-- a request to send
pub record Transmit : Type 0 where
  pub id : ℕ
  pub gref : ℕ
  pub size : ℕ

-- a packet that is handed to `guk_netif_rx`
pub record Packet : Type 0 where
  pub id : ℕ
  pub offset : ℕ
  pub length : ℕ

-- a response in the receive ring, with its status in 16 bits
pub record Received : Type 0 where
  pub id : ℕ
  pub has_extra_info : Bool
  pub status : ℕ
  pub offset : ℕ

-- The state: the references of the buffers are by identifier. What has been sent, posted and handed
-- on, and the grants ended, are kept in their order.
pub record Net : Type 0 where
  pub is_ready : Bool
  pub tx_freelist : List ℕ
  pub rx_freelist : List ℕ
  pub tx_gref : ℕ → ℕ
  pub rx_gref : ℕ → ℕ
  pub tx_sent : List Transmit
  pub rx_posted : List (ℕ × ℕ)
  pub rx_rsp_cons : ℕ
  pub rx_req_prod_pvt : ℕ
  pub tx_rsp_cons : ℕ
  pub packets : List Packet
  pub ended : List ℕ

abbrev pub put : (ℕ → ℕ) → ℕ → ℕ → ℕ → ℕ
put f i v j = if j == i then v else f j

-- `guk_netfront_xmit` of `len` bytes, of which the request has the low 16 bits
pub xmit : (ℕ → ℕ) → ℕ → Net → Net
xmit grant len s =
    let (id, freelist) = get_id_from_freelist s.tx_freelist in
    let s1 = record s { tx_freelist = freelist } in
    let message : Transmit = record { id = id; gref = grant id; size = len % 2 ^ 16 } in
    if not s.is_ready then s1 else record s1 {
      tx_gref = put s1.tx_gref id (grant id);
      tx_sent = s1.tx_sent ++ (message ∷ []);
    }

-- `GRANT_INVALID_REF`
abbrev pub grant_invalid_ref : ℕ
grant_invalid_ref = 0

-- The loop of `network_tx_buf_gc` over the responses that it finds: `none` is one with the status
-- `NETIF_RSP_NULL`.
abbrev pub end_send : ℕ → Net → Net
end_send id s = record s {
  tx_gref = put s.tx_gref id grant_invalid_ref;
  tx_freelist = add_id_to_freelist id s.tx_freelist;
  ended = s.ended ++ (s.tx_gref id ∷ []);
}

pub collect : List (Option ℕ) → Net → Net
collect [] s = s
collect (none ∷ responses) s = collect responses s
collect (some id ∷ responses) s = collect responses (end_send id s)

abbrev pub network_tx_buf_gc : List (Option ℕ) → ℕ → Net → Net
network_tx_buf_gc responses prod s =
    if not s.is_ready then s else record (collect responses s) { tx_rsp_cons = prod }

-- one response with a packet, or with an error
abbrev pub take_packet : Received → Net → Net
take_packet rx s =
    let s1 = record s {
      ended = s.ended ++ (s.rx_gref rx.id ∷ []);
      rx_freelist = add_id_to_freelist rx.id s.rx_freelist;
    } in
    if ltb 0 rx.status && ltb rx.status (2 ^ 15)
    then record s1 {
      packets = s1.packets ++ (record { id = rx.id; offset = rx.offset; length = rx.status } ∷ []);
    }
    else s1

-- the next index of a ring
abbrev pub next_index : ℕ → ℕ
next_index i = (i + 1) % 2 ^ 32

-- `NETIF_RSP_NULL` of Xen's headers in 16 bits, and the responses in the ring by index
module _ (netif_rsp_null : ℕ) (ring : ℕ → Received) where
  -- The loop of `network_rx` from `cons` to `rp`, with the number of packets that it has taken, an
  -- `int` of the code, which is to stay below 2^31. `none` is no end in `fuel` rounds.
  pub rx_loop : ℕ → ℕ → ℕ → ℕ → Net → Option (ℕ × Net)
  rx_loop zero cons rp nr_consumed s = none
  rx_loop (suc fuel) cons rp nr_consumed s =
      let rx = ring cons in
      let again = rx_loop fuel cons rp nr_consumed s in
      let next = rx_loop fuel (next_index cons) rp (nr_consumed + 1) (take_packet rx s) in
      if cons == rp
      then some (nr_consumed, s)
      else if rx.has_extra_info || rx.status == netif_rsp_null
      then again
      else next

  -- The rounds of `network_rx`; `more` are the indices that the final checks find when they call for
  -- another round. The number of packets is that of the last round.
  pub rx_rounds : ℕ → ℕ → List ℕ → Net → Option (ℕ × Net)
  rx_rounds fuel rp [] s = elim (rx_loop fuel s.rx_rsp_cons rp 0 s) [
    | none ↦ none
    | some (n, s1) ↦ some (n, record s1 { rx_rsp_cons = rp })
  ]
  rx_rounds fuel rp (rp' ∷ more) s = elim (rx_loop fuel s.rx_rsp_cons rp 0 s) [
    | none ↦ none
    | some (n, s1) ↦ rx_rounds fuel rp' more (record s1 { rx_rsp_cons = rp })
  ]

-- The loop that posts `n` buffers again, from index `i` after `req_prod`; `size` is that of the ring.
pub repost : (ℕ → ℕ) → ℕ → ℕ → ℕ → Net → Net
repost grant size zero i s = s
repost grant size (suc n) i s =
    let id = bit_and ((s.rx_req_prod_pvt + i) % 2 ^ 32) (size - 1) in
    repost grant size n (i + 1) (record s {
      rx_gref = put s.rx_gref id (grant id);
      rx_posted = s.rx_posted ++ ((id, grant id) ∷ []);
    })

-- `network_rx`
abbrev pub posted : (ℕ → ℕ) → ℕ → Option (ℕ × Net) → Option Net
posted grant size none = none
posted grant size (some (n, s)) =
    some (record (repost grant size n 0 s) { rx_req_prod_pvt = (s.rx_req_prod_pvt + n) % 2 ^ 32 })

pub network_rx : (ℕ → ℕ) → ℕ → ℕ → (ℕ → Received) → ℕ → ℕ → List ℕ → Net → Option Net
network_rx grant size netif_rsp_null ring fuel rp more s =
    if not s.is_ready
    then some s
    else posted grant size (rx_rounds netif_rsp_null ring fuel rp more s)
