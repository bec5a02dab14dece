-- ===== src/Fs/Copies.antt =====
-- What a read has copied into the memory of the caller.
use guestvm_guk.Base.{
  ℕ, ◌+◌, ◌-◌, ◌≤◌, ◌<◌, min, ◌≡◌, refl, ap, ◌∙◌, true, ◌&&◌, arith, Option, none, some, List, [],
  ◌∷◌, ◌++◌, ltb, leb, if-true, if-false, dec_lt, length, get_or, take, drop, length-take,
  length-drop, get_or-take, get_or-drop,
}
use guestvm_guk.Fs.{Fs, Request, file_read, page_size}
use guestvm_guk.Fs.Chunks.{copy_to, Reading}

-- A back end that serves a file: to a request to read at most a page it answers with the number of the
-- bytes that the file has there, and has put them into the request's page.
abbrev pub Serves : List ℕ → ℕ → (Fs → Fs) → Type 0
Serves file fd wait =
    (s : Fs) (before : List Request) (id gref len offset : ℕ)
    → s.requests ≡ before ++ (record { id = id; operation = file_read fd gref len offset } ∷ [])
    → len ≤ page_size
    → ((wait s).ret_val id ≡ min len (length file - offset))
      × (take (min len (length file - offset)) ((wait s).page id)
          ≡ take (min len (length file - offset)) (drop offset file))

-- The bytes of a file from an offset on are in the memory from an address on, `n` of them, and no other
-- byte has changed.
pub record Copied (file : List ℕ) (offset at n : ℕ) (buf buf' : ℕ → ℕ) : Type 0 where
  pub inside : (j : ℕ) → j < n → buf' (at + j) ≡ get_or file (offset + j) 0
  pub below : (j : ℕ) → j < at → buf' j ≡ buf j
  pub above : (j : ℕ) → at + n ≤ j → buf' j ≡ buf j

-- a read that has returned, in a state of some kind
abbrev pub Reads : List ℕ → (Fs → Type 0) → ℕ → ℕ → ℕ → Reading → Option Reading → Type 0
Reads file Ready offset at len r none = ⊥
Reads file Ready offset at len r (some r') =
    (r'.ret ≡ r.ret + min len (length file - offset))
    × Copied file offset at (min len (length file - offset)) r.buf r'.buf
    × Ready r'.state

pub Copied-none :
    (file : List ℕ) (offset at n : ℕ) (buf : ℕ → ℕ) → n ≡ 0 → Copied file offset at n buf buf
Copied-none file offset at n buf none_left = record {
  inside = λ j h. absurd (omega arith);
  below = λ j h. refl;
  above = λ j h. refl;
}

pub copy_to-Copied :
    (file : List ℕ) (offset at n : ℕ) (buf : ℕ → ℕ) (bytes : List ℕ)
    → n ≤ length file - offset
    → bytes ≡ take n (drop offset file)
    → Copied file offset at n buf (copy_to buf at bytes)
unfolding copy_to
copy_to-Copied file offset at n buf bytes within e = record {
  inside = λ j h.
      let t : leb at (at + j) && ltb (at + j) (at + length bytes) ≡ true =
        ground (arith, size, h) in
      let back : at + j - at ≡ j = omega arith in
      if-true _ _ _ t
      ∙ ap (λ i. get_or bytes i 0) back
      ∙ ap (λ l. get_or l j 0) e
      ∙ get_or-take n (drop offset file) j 0 h
      ∙ get_or-drop offset file j 0;
  below = λ j h. if-false (leb at j && ltb j (at + length bytes)) _ _ (ground (arith, h));
  above = λ j h. if-false (leb at j && ltb j (at + length bytes)) _ _ (ground (arith, size, h));
}
  where
    size : length bytes ≡ n
    size = ap length e ∙ ground (arith, length-take n (drop offset file), length-drop offset file)

-- Two pieces, of which the second follows the whole length asked for in the first.
join-Copied :
    (file : List ℕ) (offset at len chunk : ℕ) (buf buf1 buf2 : ℕ → ℕ)
    → chunk ≤ len
    → Copied file offset at (min chunk (length file - offset)) buf buf1
    → Copied file
        (offset + chunk)
        (at + chunk)
        (min (len - chunk) (length file - (offset + chunk)))
        buf1
        buf2
    → Copied file offset at (min len (length file - offset)) buf buf2
join-Copied file offset at len chunk buf buf1 buf2 part v w = record {
  inside = λ j h. elim (dec_lt j chunk) [
    | yes early ↦ w.below (at + j) (omega arith) ∙ v.inside j (omega arith)
    | no late ↦
        let e : at + j ≡ at + chunk + (j - chunk) = omega (arith, late) in
        let f : offset + chunk + (j - chunk) ≡ offset + j = omega (arith, late) in
        ap buf2 e ∙ w.inside (j - chunk) (omega (arith, late)) ∙ ap (λ i. get_or file i 0) f
  ];
  below = λ j h. w.below j (omega arith) ∙ v.below j h;
  above = λ j h. above j h;
}
  where
    above : (j : ℕ) → at + min len (length file - offset) ≤ j → buf2 j ≡ buf j
    above j h = elim (dec_lt j (at + chunk)) [
      | yes early ↦ w.below j early ∙ v.above j (omega arith)
      | no late ↦ w.above j (omega (arith, late)) ∙ v.above j (omega (arith, late))
    ]

pub join-Reads :
    (file : List ℕ) (Ready : Fs → Type 0) (offset at len chunk : ℕ) (r r1 : Reading)
    → (result : Option Reading) → chunk ≤ len
    → r1.ret ≡ r.ret + min chunk (length file - offset)
    → Copied file offset at (min chunk (length file - offset)) r.buf r1.buf
    → Reads file Ready (offset + chunk) (at + chunk) (len - chunk) r1 result
    → Reads file Ready offset at len r result
join-Reads file Ready offset at len chunk r r1 none part e v rest = rest
join-Reads file Ready offset at len chunk r r1 (some r2) part e v (ret, copied, ready) = (
  omega (arith, ret),
  join-Copied file offset at len chunk r.buf r1.buf r2.buf part v copied,
  ready,
)
