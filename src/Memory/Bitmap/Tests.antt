-- ===== src/Memory/Bitmap/Tests.antt =====
-- A bitmap of three words, and the theorems on ranges at it.
use guestvm_guk.Base.{ℕ, ◌≡◌, refl, true, arith, List, [], ◌∷◌}
use guestvm_guk.Memory.Bitmap.{allocated_in_map, map_alloc, map_free, fill_words}
use guestvm_guk.Memory.Bitmap.Ranges.{allocated_in_map-map_alloc, allocated_in_map-map_free}

abbrev three_words : List ℕ
three_words = 0 ∷ 0 ∷ 0 ∷ []

-- 70 pages from page 60 on: four bits of the first word, the second, and two bits of the third
map_alloc_runs : map_alloc three_words 60 70 ≡ 0xf000000000000000 ∷ 0xffffffffffffffff ∷ 3 ∷ []
unfolding map_alloc fill_words
map_alloc_runs = refl

map_free_runs : map_free (map_alloc three_words 60 70) 62 67 ≡ 0x3000000000000000 ∷ 0 ∷ 2 ∷ []
unfolding map_alloc map_free fill_words
map_free_runs = refl

allocated_in_map-map_alloc_example : allocated_in_map (map_alloc three_words 60 70) 129 ≡ true
unfolding allocated_in_map
allocated_in_map-map_alloc_example =
    allocated_in_map-map_alloc three_words 60 70 129 (omega arith) (omega arith)

allocated_in_map-map_free_example : allocated_in_map (map_free (0xff ∷ 0xff ∷ []) 4 64) 68 ≡ true
unfolding allocated_in_map
allocated_in_map-map_free_example =
    allocated_in_map-map_free (0xff ∷ 0xff ∷ []) 4 64 68 (omega arith) (omega arith)
