-- ===== src/Block/Requests/Tests.antt =====
-- Four identifiers; one request is sent and answered.
use guestvm_guk.Base.{ℕ, suc, ◌≡◌, refl, arith, true, List, [], ◌∷◌, get_or, zero}
use guestvm_guk.FreeIds.{add_ids, add_id_to_freelist, get_id_from_freelist}
use guestvm_guk.Block.{Segment}
use guestvm_guk.Block.Requests.{
  Blk, IoRequest, blk_empty, do_io, respond, submit, finish_request, get_freelist_id,
}
use guestvm_guk.Block.Requests.Runs.{
  IsConsistent, done, step, submits, answers, Steps-IsConsistent, init-IsConsistent,
}

abbrev zeros : List ℕ
zeros = 0 ∷ 0 ∷ 0 ∷ 0 ∷ []

abbrev start : Blk
start = record {
  freelist = add_ids 4 0 zeros;
  shadows = λ id. record { gref = λ i. 0; num_refs = 0; free = true; request = 0 };
  state = λ r. blk_empty;
  is_ready = λ d. true;
  sectors = λ d. 100;
  sent = [];
  ended = [];
  called = [];
}

no_more : (i : ℕ) → get_or zeros i 0 ≡ 0
no_more zero = refl
no_more (suc zero) = refl
no_more (suc (suc zero)) = refl
no_more (suc (suc (suc zero))) = refl
no_more (suc (suc (suc (suc i)))) = refl

start-IsConsistent : IsConsistent 4 start
start-IsConsistent = init-IsConsistent 4 start zeros (omega arith) refl no_more refl (λ id h. refl)

abbrev io_req : IoRequest
io_req = record {
  request = 50;
  device = 0;
  address = 1024;
  operation = 1;
  pages = record { num_pages = 1; start_sector = 0; end_sector = 7 };
}

abbrev slot : ℕ → Segment
slot i = record { gref = 0; first_sect = 0; last_sect = 0 }

abbrev grant : ℕ → ℕ
grant i = 20

abbrev running : Blk
running = submit grant slot io_req 3 (get_freelist_id start).1

abbrev ended : Blk
ended = finish_request 3 true running

Steps-IsConsistent_example : IsConsistent 4 ended
unfolding do_io respond add_ids add_id_to_freelist get_id_from_freelist
Steps-IsConsistent_example =
    Steps-IsConsistent 4 ended start (omega arith)
      (step start running (submits grant slot io_req refl refl)
        (step running ended (answers 3 true (omega arith) refl) done))
      start-IsConsistent
