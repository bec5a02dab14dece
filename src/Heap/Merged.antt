-- ===== src/Heap/Merged.antt =====
-- Which free blocks touch, for the walk of `guk_xfree`.
use guestvm_guk.Base.{
  ℕ, ◌+◌, ◌-◌, ◌/◌, ◌%◌, ◌≡◌, sym, subst, ◌∙◌, Bool, true, false, not, ◌&&◌, ◌||◌, Option, none,
  some, List, [], ◌∷◌, leb, ◌==◌, arith, if-true, if-false, Bool-cases, inl, inr,
}
use guestvm_guk.Heap.{
  Block, Heap, header_size, page_size, same_page, keep, merge, put_merged, free_block, xfree,
}

-- One block ends where the other starts, in a page.
abbrev pub touch : Block → Block → Bool
touch i j = same_page i j && (i.addr + i.size == j.addr || (j.addr + j.size == i.addr))

abbrev pub ApartFrom : Block → List Block → Type 0
ApartFrom i [] = Unit
ApartFrom i (j ∷ free) = (touch i j ≡ false) × ApartFrom i free

abbrev pub IsMerged : List Block → Type 0
IsMerged [] = Unit
IsMerged (i ∷ free) = ApartFrom i free × IsMerged free

-- two blocks as one
abbrev pub joined : Block → Block → Block
joined i j = record { addr = i.addr; size = i.size + j.size }

-- The cases of one round of the walk.
merge-round :
    (P : Block × List Block → Type 0) (hdr i : Block) (free : List Block)
    → (touch i hdr ≡ false → P (keep i (merge hdr free)))
    → (same_page i hdr ≡ true → i.addr + i.size ≡ hdr.addr → P (merge (joined i hdr) free))
    → (same_page i hdr ≡ true → hdr.addr + hdr.size ≡ i.addr → P (merge (joined hdr i) free))
    → P (merge hdr (i ∷ free))
unfolding merge
merge-round P hdr i free kept follows precedes = elim (Bool-cases (not (same_page i hdr))) [
  | inl other ↦ subst P (sym (if-true _ _ _ other)) (kept (ground arith))
  | inr same ↦ elim (Bool-cases (i.addr + i.size == hdr.addr)) [
    | inl f ↦
        subst P (sym (if-false _ _ _ same ∙ if-true _ _ _ f))
          (follows (ground arith) (ground arith))
    | inr g ↦ elim (Bool-cases (hdr.addr + hdr.size == i.addr)) [
      | inl p ↦
          subst P (sym (if-false _ _ _ same ∙ if-false _ _ _ g ∙ if-true _ _ _ p))
            (precedes (ground arith) (ground arith))
      | inr q ↦
          subst P (sym (if-false _ _ _ same ∙ if-false _ _ _ g ∙ if-false _ _ _ q))
            (kept (ground arith))
    ]
  ]
]

-- A block touches the join of two neighbours only if it touches one of them.
touch-joined :
    (i a b : Block)
    → same_page a b ≡ true
    → a.addr + a.size ≡ b.addr
    → touch i a ≡ false
    → touch i b ≡ false
    → touch i (joined a b) ≡ false
touch-joined i a b same next not_a not_b = ground arith

touch_sym : (i j : Block) → touch i j ≡ touch j i
touch_sym i j = ground arith

abbrev BothApart : Block → Block × List Block → Type 0
BothApart i (hdr, free) = (touch i hdr ≡ false) × ApartFrom i free

-- A block that touches neither the block nor one of the list does not touch what the walk makes of them.
touch-merge :
    (i : Block) (free : List Block) (hdr : Block)
    → touch i hdr ≡ false
    → ApartFrom i free
    → BothApart i (merge hdr free)
unfolding merge
touch-merge i [] hdr apart all = (apart, tt)
touch-merge i (j ∷ free) hdr apart all =
    merge-round (BothApart i) hdr j free
      (λ _. let (first, rest) = touch-merge i free hdr apart all.1 in (first, (all.0, rest)))
      (λ same next.
        touch-merge i free (joined j hdr) (touch-joined i j hdr same next all.0 apart) all.1)
      (λ same next.
        touch-merge i free (joined hdr j) (touch-joined i hdr j (ground arith) next apart all.0)
          all.1)

abbrev AllMerged : Block × List Block → Type 0
AllMerged (hdr, free) = IsMerged (hdr ∷ free)

-- One walk joins a block with all its free neighbours.
IsMerged-merge : (free : List Block) (hdr : Block) → IsMerged free → AllMerged (merge hdr free)
unfolding merge
IsMerged-merge [] hdr v = (tt, tt)
IsMerged-merge (i ∷ free) hdr v =
    merge-round AllMerged hdr i free
      (λ apart.
        let (first, rest) = touch-merge i free hdr apart v.0 in
        let (a, m) = IsMerged-merge free hdr v.1 in
        ((touch_sym (merge hdr free).0 i ∙ first, a), (rest, m)))
      (λ _ _. IsMerged-merge free (joined i hdr) v.1)
      (λ _ _. IsMerged-merge free (joined hdr i) v.1)

-- a result of `guk_xfree` whose free list is merged, if it returns
abbrev Merged : Option Heap → Type 0
Merged none = Unit
Merged (some h) = IsMerged h.freelist

put_merged-Merged :
    (h : Heap) (hdr : Block) (free : List Block)
    → IsMerged (hdr ∷ free)
    → Merged (put_merged h (hdr, free))
unfolding put_merged
put_merged-Merged h hdr free v = elim (Bool-cases (hdr.size == page_size)) [
  | inl whole ↦ elim (Bool-cases (hdr.addr % page_size == 0)) [
    | inl aligned ↦ subst Merged (sym (if-true _ _ _ whole ∙ if-true _ _ _ aligned)) v.1
    | inr crooked ↦ subst Merged (sym (if-true _ _ _ whole ∙ if-false _ _ _ crooked)) tt
  ]
  | inr part ↦ subst Merged (sym (if-false _ _ _ part)) v
]

free_block-Merged :
    (h : Heap) (r : Option (Block × List Block)) → IsMerged h.freelist → Merged (free_block h r)
unfolding free_block
free_block-Merged h none v = tt
free_block-Merged h (some (hdr, rest)) v = elim (Bool-cases (leb page_size hdr.size)) [
  | inl large ↦ subst Merged (sym (if-true _ _ _ large)) v
  | inr small ↦ subst Merged (sym (if-false _ _ _ small)) (
      put_merged-Merged (record h { handed_out = rest }) (merge hdr h.freelist).0
        (merge hdr h.freelist).1 (IsMerged-merge h.freelist hdr v))
]

-- If no two free blocks of a page touch, none do after `guk_xfree`: one walk joins the block with
-- its neighbours on both sides.
pub xfree-IsMerged :
    (p : ℕ) (h h' : Heap) → IsMerged h.freelist → xfree p h ≡ some h' → IsMerged h'.freelist
unfolding xfree
xfree-IsMerged p h h' v e = elim (Bool-cases (p == 0)) [
  | inl null ↦ subst Merged (sym (if-true _ _ _ null) ∙ e) v
  | inr block ↦ elim (Bool-cases (not ((p / page_size) == ((p - header_size) / page_size)))) [
    | inl torn ↦ cc (sym (if-false _ _ _ block ∙ if-true _ _ _ torn) ∙ e)
    | inr whole ↦
        subst Merged (sym (if-false _ _ _ block ∙ if-false _ _ _ whole) ∙ e)
          (free_block-Merged h _ v)
  ]
]
