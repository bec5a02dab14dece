-- ===== src/Net/Tests.antt =====
-- Three buffers, of which one is sent and answered, and responses in the receive ring.
use guestvm_guk.Base.{
  ℕ, zero, suc, ◌+◌, ◌≡◌, ◌==◌, refl, arith, true, false, none, some, List, [], ◌∷◌, get_or, length,
}
use guestvm_guk.FreeIds.{add_ids}
use guestvm_guk.FreeIds.Stack.{IsFreeList, add_ids-IsFreeList}
use guestvm_guk.Net.{Net, Received, xmit, collect, rx_loop, network_rx}
use guestvm_guk.Net.Send.{collect-xmit, xmit-loses, xmit-xmit, collect-zero, message}
use guestvm_guk.Net.Receive.{rx_loop-endless}
use guestvm_guk.Net.Rounds.{network_rx-posts}

abbrev zeros : List ℕ
zeros = 0 ∷ 0 ∷ 0 ∷ []

no_more : (i : ℕ) → get_or zeros i 0 ≡ 0
no_more zero = refl
no_more (suc zero) = refl
no_more (suc (suc zero)) = refl
no_more (suc (suc (suc i))) = refl

abbrev start : Net
start = record {
  is_ready = true;
  tx_freelist = add_ids 3 0 zeros;
  rx_freelist = [];
  tx_gref = λ i. 0;
  rx_gref = λ i. 0;
  tx_sent = [];
  rx_posted = [];
  rx_rsp_cons = 0;
  rx_req_prod_pvt = 0;
  tx_rsp_cons = 0;
  packets = [];
  ended = [];
}

abbrev down : Net
down = record start { is_ready = false }

abbrev used_up : Net
used_up = record start { tx_freelist = zeros }

used_up-IsFreeList : IsFreeList 3 used_up.tx_freelist []
used_up-IsFreeList = record { size = refl; links = refl; proper = tt }

start-IsFreeList : IsFreeList 3 start.tx_freelist (2 ∷ 1 ∷ [])
start-IsFreeList = add_ids-IsFreeList 3 zeros (omega arith) refl no_more

abbrev grant : ℕ → ℕ
grant i = i + 30

collect-xmit_example :
    IsFreeList 3 (collect (some 2 ∷ []) (xmit grant 60 start)).tx_freelist (2 ∷ 1 ∷ [])
    × ((collect (some 2 ∷ []) (xmit grant 60 start)).ended ≡ 32 ∷ [])
    × ((xmit grant 60 start).tx_sent ≡ message 2 grant 60 ∷ [])
collect-xmit_example = collect-xmit 3 2 (1 ∷ []) grant 60 start (omega arith) refl start-IsFreeList

xmit-loses_test :
    IsFreeList 3 (xmit grant 60 down).tx_freelist (1 ∷ []) × ((xmit grant 60 down).tx_sent ≡ [])
xmit-loses_test = xmit-loses 3 2 (1 ∷ []) grant 60 down (omega arith) refl start-IsFreeList

xmit-xmit_test :
    (xmit grant 40 (xmit grant 60 used_up)).tx_sent ≡ message 0 grant 60 ∷ message 0 grant 40 ∷ []
xmit-xmit_test = xmit-xmit 3 grant 60 40 used_up (omega arith) refl used_up-IsFreeList

collect-zero_test : IsFreeList 3 (collect (some 0 ∷ []) start).tx_freelist []
collect-zero_test = collect-zero 3 (2 ∷ 1 ∷ []) start (omega arith) start-IsFreeList

-- a ring in which the response at index 1 has extra information
abbrev ring : ℕ → Received
ring i = record { id = i; has_extra_info = i == 1; status = 60; offset = 0 }

abbrev plain_ring : ℕ → Received
plain_ring i = record { id = i; has_extra_info = false; status = 60; offset = 0 }

rx_loop-endless_example : rx_loop 1 ring 100 0 2 0 start ≡ none
rx_loop-endless_example =
    rx_loop-endless 1 ring 100 0 1 2 0 start (omega arith) (omega arith) (omega arith)
      (λ k h. ground (arith, h)) refl

-- two responses, and one more that the final check finds
network_rx-posts_example :
    (s' : Net) × (network_rx grant 4 1 plain_ring 9 2 (3 ∷ []) start ≡ some s')
    × (length s'.ended ≡ 0 + (2 + 1))
    × (length s'.rx_posted ≡ 0 + 1)
network_rx-posts_example =
    network_rx-posts 1 plain_ring grant 4 9 2 (1 ∷ []) start refl (omega arith)
      (omega arith, omega arith, (λ k h. refl), (omega arith, omega arith, λ k h. refl))
