-- ===== src/Block/Segments.antt =====
-- Which sectors the segments of a request name.
use guestvm_guk.Base.{
  ℕ, zero, suc, ◌+◌, ◌-◌, ◌*◌, ◌%◌, max, subst, ◌≤◌, ◌<◌, ◌≡◌, refl, sym, ap, ◌∙◌, false, ◌&&◌,
  arith, leb, ltb, ◌==◌, if◌then◌else◌, if-true, if-false, Bool-cases, inl, inr,
}
use guestvm_guk.Block.{
  sectors_per_page, page_size, last_page, request_of, Request, Segment, put_segment,
  middle_segments, fill_segments,
}

-- a segment of a whole page
abbrev pub whole : (ℕ → ℕ) → ℕ → Segment
whole grant i = record { gref = grant i; first_sect = 0; last_sect = sectors_per_page - 1 }

middle_segments-whole :
    (grant : ℕ → ℕ) (n i : ℕ) (seg : ℕ → Segment) (j : ℕ)
    → middle_segments grant n i seg j ≡ (if leb i j && ltb j (i + n) then whole grant j else seg j)
unfolding middle_segments
middle_segments-whole grant zero i seg j =
    sym (if-false (leb i j && ltb j (i + 0)) _ _ (ground arith))
middle_segments-whole grant (suc n) i seg j =
    middle_segments-whole grant n (i + 1) _ j ∙ elim (Bool-cases (j == i)) [
      | inl same ↦
          if-false (leb (i + 1) j && ltb j (i + 1 + n)) _ _ (ground (arith, same))
          ∙ if-true (j == i) _ _ same
          ∙ ap (whole grant) (ground (arith, same))
          ∙ sym (if-true (leb i j && ltb j (i + suc n)) _ _ (ground (arith, same)))
      | inr other ↦
          ap (λ s. if leb (i + 1) j && ltb j (i + 1 + n) then whole grant j else s)
            (if-false (j == i) _ _ other)
          ∙ ap (λ b. if b then whole grant j else seg j) (shifted other)
    ]
  where
    shifted :
        (j == i) ≡ false → (leb (i + 1) j && ltb j (i + 1 + n)) ≡ (leb i j && ltb j (i + suc n))
    shifted other = ground (arith, other)

-- the segments of a request of several pages
pub record SeveralPages (grant : ℕ → ℕ) (r : Request) (seg filled : ℕ → Segment) : Type 0 where
  pub first :
      filled 0
      ≡ record { gref = grant 0; first_sect = r.start_sector; last_sect = sectors_per_page - 1 }
  pub others : (j : ℕ) → 0 < j → j < r.num_pages → filled j ≡ whole grant j
  pub behind : filled r.num_pages ≡ record (seg r.num_pages) { last_sect = r.end_sector }

-- The segments of a request of several pages name whole pages, but for the start of the first.
pub fill_segments-SeveralPages :
    (grant : ℕ → ℕ) (r : Request) (seg : ℕ → Segment)
    → 1 < r.num_pages
    → SeveralPages grant r seg (fill_segments grant r seg)
unfolding fill_segments
fill_segments-SeveralPages grant r seg several = record {
  first =
      at 0
      ∙ if-false (0 == r.num_pages) _ _ (ground arith)
      ∙ middle_segments-whole grant (r.num_pages - 1) 1 start 0;
  others = λ j low high.
      at j
      ∙ if-false (j == r.num_pages) _ _ (ground arith)
      ∙ middle_segments-whole grant (r.num_pages - 1) 1 start j
      ∙ if-true (leb 1 j && ltb j (1 + (r.num_pages - 1))) _ _ (ground arith);
  behind =
      at r.num_pages
      ∙ if-true (r.num_pages == r.num_pages) _ _ (ground arith)
      ∙ ap {A = Segment} (λ s. record s { last_sect = r.end_sector })
          (middle_segments-whole grant (r.num_pages - 1) 1 start r.num_pages
            ∙ if-false (leb 1 r.num_pages && ltb r.num_pages (1 + (r.num_pages - 1))) _ _
                (ground arith)
            ∙ if-false (r.num_pages == 0) _ _ (ground arith));
}
  where
    start : ℕ → Segment
    start =
        put_segment seg 0
          (record { gref = grant 0; first_sect = r.start_sector; last_sect = sectors_per_page - 1 })

    filled : ℕ → Segment
    filled = middle_segments grant (r.num_pages - 1) 1 start

    last : max 1 r.num_pages ≡ r.num_pages
    last = omega arith

    at :
        (j : ℕ)
        → fill_segments grant r seg j
          ≡ put_segment filled r.num_pages
              (record (filled r.num_pages) { last_sect = r.end_sector })
              j
    at j =
        ap {A = ℕ → Segment} (λ f. f j) (if-false (r.num_pages == 1) _ _ (ground arith))
        ∙ ap (λ i. put_segment filled i (record (filled i) { last_sect = r.end_sector }) j) last

-- the sectors that the first `n` segments name
pub sectors_named : ℕ → (ℕ → Segment) → ℕ
sectors_named zero seg = 0
sectors_named (suc n) seg = sectors_named n seg + ((seg n).last_sect + 1 - (seg n).first_sect)

sectors_named-whole :
    (seg : ℕ → Segment) (n : ℕ)
    → ((j : ℕ) → j < n → ((seg j).first_sect ≡ 0) × ((seg j).last_sect ≡ sectors_per_page - 1))
    → sectors_named n seg ≡ n * sectors_per_page
unfolding sectors_named
sectors_named-whole seg zero h = refl
sectors_named-whole seg (suc n) h =
    omega (arith, h n (omega arith), sectors_named-whole seg n (λ j lt. h j (omega arith)))

-- The pages of a buffer, of which the last may be in part behind it.
LastPage : ℕ → ℕ → ℕ × ℕ → Type 0
LastPage i size (j, rest) =
    (rest ≤ page_size)
    × (j * page_size + rest ≡ i * page_size + size)
    × (0 < size → 0 < rest)
    × (page_size < size → i < j)

last_page-LastPage : (fuel i size : ℕ) → size ≤ fuel → LastPage i size (last_page fuel i size)
unfolding last_page LastPage
last_page-LastPage zero i size h = (omega arith, refl, (λ pos. pos), λ more. absurd (omega arith))
last_page-LastPage (suc fuel) i size h = elim (Bool-cases (ltb page_size size)) [
  | inl more ↦ subst (LastPage i size) (sym (if-true _ _ _ more)) (
      on (last_page fuel (i + 1) (size - page_size)) (ground (arith, more))
        (last_page-LastPage fuel (i + 1) (size - page_size) (ground (arith, more))))
  | inr done ↦
      subst (LastPage i size) (sym (if-false _ _ _ done))
        (ground (arith, done), refl, (λ pos. pos), λ more. absurd (ground (arith, done)))
]
  where
    page_after :
        (j rest : ℕ)
        → page_size < size
        → j * page_size + rest ≡ (i + 1) * page_size + (size - page_size)
        → rest ≤ page_size
        → i < j
    page_after j rest more b a = omega arith

    on : (p : ℕ × ℕ) → page_size < size → LastPage (i + 1) (size - page_size) p → LastPage i size p
    on (j, rest) more (a, b, c, d) =
        (a, omega arith, (λ pos. c (omega arith)), λ m. page_after j rest more b a)

whole_pages :
    (grant : ℕ → ℕ) (r : Request) (seg filled : ℕ → Segment) (j : ℕ)
    → SeveralPages grant r seg filled
    → r.start_sector ≡ 0
    → j < r.num_pages
    → ((filled j).first_sect ≡ 0) × ((filled j).last_sect ≡ sectors_per_page - 1)
whole_pages grant r seg filled zero v start high =
    (ap Segment.first_sect v.first ∙ start, ap Segment.last_sect v.first)
whole_pages grant r seg filled (suc j) v start high = (
  ap Segment.first_sect (v.others (suc j) (omega arith) high),
  ap Segment.last_sect (v.others (suc j) (omega arith) high),
)

-- For a buffer of more than a page whose size is not a whole number of pages, the segments that
-- `guk_blk_do_io` makes of the request of `guk_blk_write` name more sectors than the buffer has
-- bytes for.
pub fill_segments-overruns :
    (grant : ℕ → ℕ) (size : ℕ) (seg : ℕ → Segment)
    → page_size < size
    → 0 < size % page_size
    → size
      < sectors_named (request_of size).num_pages (fill_segments grant (request_of size) seg) * 512
unfolding request_of LastPage
fill_segments-overruns grant size seg several part =
    let (a, b, c, d) = last_page-LastPage size 0 size (omega arith) in
    let v = fill_segments-SeveralPages grant (request_of size) seg (omega (arith, d several)) in
    subst (λ n. size < n * 512)
      (sym (
        sectors_named-whole _ (request_of size).num_pages
          (λ j lt. whole_pages grant (request_of size) seg _ j v refl lt)))
      (enough (last_page size 0 size).0 (last_page size 0 size).1 a b)
  where
    enough :
        (j rest : ℕ)
        → rest ≤ page_size
        → j * page_size + rest ≡ 0 * page_size + size
        → size < (j + 1) * sectors_per_page * 512
    enough j rest a b = omega (arith, part)
