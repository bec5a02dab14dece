-- ===== src/Block/Tests.antt =====
-- A request of two pages that ends at sector 3 of the second.
use guestvm_guk.Base.{ℕ, ◌+◌, ◌*◌, ◌<◌, arith}
use guestvm_guk.Block.{Request, Segment, fill_segments, request_of, last_page}
use guestvm_guk.Block.Segments.{
  SeveralPages, fill_segments-SeveralPages, sectors_named, fill_segments-overruns,
}

abbrev request : Request
request = record { num_pages = 2; start_sector = 0; end_sector = 3 }

abbrev slot : ℕ → Segment
slot i = record { gref = 0; first_sect = 0; last_sect = 0 }

abbrev grant : ℕ → ℕ
grant i = i + 20

fill_segments-SeveralPages_test : SeveralPages grant request slot (fill_segments grant request slot)
fill_segments-SeveralPages_test = fill_segments-SeveralPages grant request slot (omega arith)

fill_segments-overruns_test :
    6144 < sectors_named 2 (fill_segments grant (request_of 6144) slot) * 512
unfolding request_of last_page
fill_segments-overruns_test = fill_segments-overruns grant 6144 slot (omega arith) (omega arith)
