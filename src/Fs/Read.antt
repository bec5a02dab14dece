-- ===== src/Fs/Read.antt =====
-- Reading a file in chunks.
use guestvm_guk.Base.{
  ℕ, zero, suc, ◌+◌, ◌-◌, ◌%◌, ◌^◌, ◌≤◌, ◌<◌, min, ◌≡◌, refl, sym, ap, ◌∙◌, subst, false, arith,
  Option, none, some, List, ltb, ◌==◌, if◌then◌else◌, if-true, if-false, Bool-cases, inl, inr,
  length, take, drop,
}
use guestvm_guk.Fs.{Fs, file_read, page_size, overwrite, ask, begin, send, finish, zeros}
use guestvm_guk.Fs.Chunks.{copy_to, is_positive, Reading, read_chunks, fs_read}
use guestvm_guk.Fs.Copies.{Serves, Copied, Reads, Copied-none, copy_to-Copied, join-Reads}

-- what a round of the loop asks for
abbrev pub asked : ℕ → (Fs → Fs) → ℕ → (chunk offset : ℕ) → Fs → ℕ × Fs
asked fd wait current chunk offset s =
    ask wait current (λ page. overwrite (zeros page_size) page)
      (λ gref. file_read fd gref chunk offset) s

-- In states of some kind every round is answered with the bytes of the file, and they stay of that kind.
pub record ServesIn (file : List ℕ) (fd : ℕ) (wait : Fs → Fs) (current : ℕ) (Ready : Fs → Type 0)
    : Type 0 where
  pub value :
      (chunk offset : ℕ) (s : Fs)
      → Ready s
      → chunk ≤ page_size
      → (asked fd wait current chunk offset s).1.ret_val (asked fd wait current chunk offset s).0
        ≡ min chunk (length file - offset)
  pub bytes :
      (chunk offset : ℕ) (s : Fs)
      → Ready s
      → chunk ≤ page_size
      → take
          (min chunk (length file - offset))
          ((asked fd wait current chunk offset s).1.page (asked fd wait current chunk offset s).0)
        ≡ take (min chunk (length file - offset)) (drop offset file)
  pub stays :
      (chunk offset : ℕ) (s : Fs)
      → Ready s
      → chunk ≤ page_size
      → Ready
          (finish (asked fd wait current chunk offset s).0 (asked fd wait current chunk offset s).1)

module _ (file : List ℕ) (fd : ℕ) (wait : Fs → Fs) (current : ℕ) (Ready : Fs → Type 0)
    (serves : ServesIn file fd wait current Ready) (small : length file < 2 ^ 63) where
  abbrev round : (chunk offset : ℕ) → Fs → ℕ × Fs
  round chunk offset s = asked fd wait current chunk offset s

  -- the number of bytes that the file has for a request
  abbrev left : (chunk offset : ℕ) → ℕ
  left chunk offset = min chunk (length file - offset)

  abbrev after : (chunk offset at : ℕ) → Reading → Reading
  after chunk offset at r =
      let chunk_ret = (round chunk offset r.state).1.ret_val (round chunk offset r.state).0 in
      record {
        ret = (r.ret + chunk_ret) % 2 ^ 64;
        buf =
            if is_positive chunk_ret
            then copy_to r.buf at (
                take chunk_ret ((round chunk offset r.state).1.page (round chunk offset r.state).0))
            else r.buf;
        state = finish (round chunk offset r.state).0 (round chunk offset r.state).1;
      }

  after-ret :
      (chunk offset at : ℕ) (r : Reading)
      → Ready r.state
      → chunk ≤ page_size
      → r.ret + chunk < 2 ^ 63
      → (after chunk offset at r).ret ≡ r.ret + left chunk offset
  after-ret chunk offset at r ready fits bound =
      ground (arith, serves.value chunk offset r.state ready fits, bound)

  after-Copied :
      (chunk offset at : ℕ) (r : Reading)
      → Ready r.state
      → chunk ≤ page_size
      → Copied file offset at (left chunk offset) r.buf (after chunk offset at r).buf
  after-Copied chunk offset at r ready fits =
      let value = serves.value chunk offset r.state ready fits in
      let bytes = serves.bytes chunk offset r.state ready fits in
      elim (Bool-cases
        (is_positive ((round chunk offset r.state).1.ret_val (round chunk offset r.state).0))) [
          | inl some_read ↦
              subst (Copied file offset at (left chunk offset) r.buf)
                (sym (if-true _ _ _ some_read))
                (copy_to-Copied file offset at (left chunk offset) r.buf _ (omega arith) (
                  ap
                    (λ n.
                      take n ((round chunk offset r.state).1.page (round chunk offset r.state).0))
                    value
                  ∙ bytes))
          | inr nothing ↦
              subst (Copied file offset at (left chunk offset) r.buf) (sym (if-false _ _ _ nothing))
                (Copied-none file offset at (left chunk offset) r.buf
                  (ground (arith, nothing, value, small)))
        ]

  read_chunks-Reads :
      (fuel len offset at : ℕ) (r : Reading)
      → Ready r.state
      → len < fuel
      → r.ret + len < 2 ^ 63
      → Reads file Ready offset at len r (read_chunks fuel wait current fd len offset at r)
  unfolding read_chunks
  read_chunks-Reads zero len offset at r ready enough bound = absurd (omega arith)
  read_chunks-Reads (suc fuel) len offset at r ready enough bound = elim (Bool-cases (len == 0)) [
    | inl over ↦
        subst (Reads file Ready offset at len r) (sym (if-true _ _ _ over))
          (ground (arith, over), Copied-none file offset at _ r.buf (ground (arith, over)), ready)
    | inr more ↦
        subst (Reads file Ready offset at len r) (sym (if-false _ _ _ more))
          (elim (Bool-cases
            (is_positive ((round chunk offset r.state).1.ret_val (round chunk offset r.state).0))) [
              | inl some_read ↦
                  subst (Reads file Ready offset at len r) (sym (if-true _ _ _ some_read)) (
                    join-Reads file Ready offset at len chunk r (after chunk offset at r) _ part ret
                      copied
                      (read_chunks-Reads fuel (len - chunk) (offset + chunk) (at + chunk)
                        (after chunk offset at r) (serves.stays chunk offset r.state ready fits)
                        (omega (arith, positive more, part)) (omega (arith, ret, part))))
              | inr nothing ↦
                  let value = serves.value chunk offset r.state ready fits in
                  let none_left : length file - offset ≡ 0 =
                    ground (arith, nothing, value, small, positive more) in
                  subst (Reads file Ready offset at len r) (sym (if-false _ _ _ nothing)) (
                    omega (arith, ret, none_left),
                    subst (λ n. Copied file offset at n r.buf (after chunk offset at r).buf)
                        (omega (arith, none_left)) copied,
                    serves.stays chunk offset r.state ready fits,
                  )
            ])
  ]
    where
      chunk : ℕ
      chunk = if ltb page_size len then page_size else len

      part : chunk ≤ len
      part = ground arith

      fits : chunk ≤ page_size
      fits = ground arith

      positive : (len == 0) ≡ false → 0 < chunk
      positive more = ground (arith, more)

      ret : (after chunk offset at r).ret ≡ r.ret + left chunk offset
      ret = after-ret chunk offset at r ready fits (omega (arith, part))

      copied : Copied file offset at (left chunk offset) r.buf (after chunk offset at r).buf
      copied = after-Copied chunk offset at r ready fits

  pub fs_read-Reads :
      (buf : ℕ → ℕ) (len offset : ℕ) (s : Fs)
      → Ready s
      → len < 2 ^ 63
      → (r : Reading) × (fs_read wait current fd buf len offset s ≡ some r)
        × (r.ret ≡ min len (length file - offset))
        × Copied file offset 0 (min len (length file - offset)) buf r.buf
        × Ready r.state
  unfolding fs_read
  fs_read-Reads buf len offset s ready bound = returned _ refl (
      read_chunks-Reads (len + 1) len offset 0 (record { ret = 0; buf = buf; state = s }) ready
        (omega arith) (omega arith))
    where
      returned :
          (result : Option Reading)
          → fs_read wait current fd buf len offset s ≡ result
          → Reads file Ready offset 0 len (record { ret = 0; buf = buf; state = s }) result
          → (r : Reading) × (fs_read wait current fd buf len offset s ≡ some r)
            × (r.ret ≡ min len (length file - offset))
            × Copied file offset 0 (min len (length file - offset)) buf r.buf
            × Ready r.state
      returned none e h = absurd h
      returned (some r) e (ret, copied, state) = (r, e, ret ∙ omega arith, copied, state)

Serves-ServesIn :
    (file : List ℕ) (fd : ℕ) (wait : Fs → Fs) (current : ℕ)
    → Serves file fd wait
    → ServesIn file fd wait current (λ s. Unit)
unfolding ask begin send
Serves-ServesIn file fd wait current serves = record {
  value = λ chunk offset s ready fits. (serves _ s.requests _ _ chunk offset refl fits).0;
  bytes = λ chunk offset s ready fits. (serves _ s.requests _ _ chunk offset refl fits).1;
  stays = λ chunk offset s ready fits. tt;
}

-- Over a back end that answers each request to read at most a page with the number of bytes that
-- the file has there and those bytes, for a file and a length below 2 ^ 63, `guk_fs_read` returns:
-- its value is the smaller of the length and what the file has behind the offset, the caller's
-- memory has exactly these bytes of the file, and no other byte of it has changed.
pub fs_read-Copied :
    (file : List ℕ) (fd : ℕ) (wait : Fs → Fs) (current : ℕ) (buf : ℕ → ℕ) (len offset : ℕ) (s : Fs)
    → Serves file fd wait
    → length file < 2 ^ 63
    → len < 2 ^ 63
    → (r : Reading) × (fs_read wait current fd buf len offset s ≡ some r)
      × (r.ret ≡ min len (length file - offset))
      × Copied file offset 0 (min len (length file - offset)) buf r.buf
fs_read-Copied file fd wait current buf len offset s serves small bound =
    let (r, e, ret, copied, _) =
      fs_read-Reads file fd wait current (λ s. Unit) (Serves-ServesIn file fd wait current serves)
        small buf len offset s tt bound in
    (r, e, ret, copied)
