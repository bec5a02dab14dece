-- ===== src/Heap/Realloc.antt =====
-- `guk_xrealloc`.
use guestvm_guk.Base.{
  ℕ, ◌-◌, ◌^◌, ◌≤◌, ◌<◌, ◌≡◌, sym, subst, ◌∙◌, ap, Option, none, some, List, leb, arith, if-true,
  if-false, Bool-cases, Option-cases, inl, inr,
}
use guestvm_guk.Heap.{
  Block, Heap, header_size, take_block, xmalloc, xfree, through_int, move_block, resize, xrealloc,
}
use guestvm_guk.Heap.Conserve.{IsBalanced, xmalloc-IsBalanced, xfree-IsBalanced}

-- a result of `guk_xrealloc` that is in balance, if it returns
abbrev Balanced : Option (ℕ × Heap) → Type 0
Balanced none = Unit
Balanced (some (r, h)) = IsBalanced h

move_block-Balanced : (p : ℕ) (r : Option ℕ × Heap) → IsBalanced r.1 → Balanced (move_block p r)
unfolding move_block
move_block-Balanced p (none, h) v = tt
move_block-Balanced p (some result, h) v = elim (Option-cases (xfree p h)) [
  | inl gone ↦ rw (gone, Balanced) tt
  | inr (h', e) ↦ rw (e, Balanced) (xfree-IsBalanced p h h' v e)
]

resize-Balanced :
    (pages : ℕ → Option ℕ) (p size : ℕ) (h : Heap) (r : Option (Block × List Block))
    → IsBalanced h
    → Balanced (resize pages p size h r)
unfolding resize
resize-Balanced pages p size h none v = tt
resize-Balanced pages p size h (some (hdr, rest)) v =
    elim (Bool-cases (leb size (through_int (hdr.size - header_size)))) [
      | inl fits ↦ subst Balanced (sym (if-true _ _ _ fits)) v
      | inr grows ↦
          subst Balanced (sym (if-false _ _ _ grows))
            (move_block-Balanced p (xmalloc pages size h) (xmalloc-IsBalanced pages size h v))
    ]

-- `guk_xrealloc` of an address that is not null keeps the heap in balance, where it returns.
pub xrealloc-IsBalanced :
    (pages : ℕ → Option ℕ) (p size result : ℕ) (h h' : Heap)
    → IsBalanced h
    → xrealloc pages p size h ≡ some (result, h')
    → IsBalanced h'
unfolding xrealloc
xrealloc-IsBalanced pages p size result h h' v e =
    subst Balanced e (resize-Balanced pages p size h _ v)

-- When the room of a block is at least 2 and less than 4 gigabytes, `guk_xrealloc` returns its
-- address and changes nothing for every size up to 2^64 - 2^31, whether the block has that room or
-- not.
pub xrealloc-stays :
    (pages : ℕ → Option ℕ) (p size : ℕ) (h : Heap) (hdr : Block) (rest : List Block)
    → take_block (p - header_size) h.handed_out ≡ some (hdr, rest)
    → 2 ^ 31 ≤ hdr.size - header_size
    → hdr.size - header_size < 2 ^ 32
    → size ≤ 2 ^ 64 - 2 ^ 31
    → xrealloc pages p size h ≡ some (p, h)
unfolding xrealloc resize through_int
xrealloc-stays pages p size h hdr rest e low high fits =
    ap (resize pages p size h) e
    ∙ if-true (leb size (through_int (hdr.size - header_size))) _ _ (ground arith)
