-- ===== src/Fs/Chunks.antt =====
-- `guk_fs_read` of fs-front.c, in chunks of a page.
use guestvm_guk.Base.{
  ℕ, zero, suc, ◌+◌, ◌-◌, ◌%◌, ◌^◌, Bool, ◌&&◌, Option, none, some, List, ltb, leb, ◌==◌,
  if◌then◌else◌, length, get_or, take,
}
use guestvm_guk.Fs.{Fs, page_size, overwrite, ask, finish, zeros, file_read}

-- bytes that are copied into the caller's memory at an address
unfoldable pub copy_to : (ℕ → ℕ) → ℕ → List ℕ → ℕ → ℕ
copy_to buf at bytes j =
    if leb at j && ltb j (at + length bytes) then get_or bytes (j - at) 0 else buf j

-- `chunk_ret > 0`, of a signed number of 64 bits
abbrev pub is_positive : ℕ → Bool
is_positive chunk_ret = ltb 0 chunk_ret && ltb chunk_ret (2 ^ 63)

-- what is left of a read: the value to return, the caller's memory and the state
pub record Reading : Type 0 where
  pub ret : ℕ
  pub buf : ℕ → ℕ
  pub state : Fs

-- The loop of `guk_fs_read`. The offsets are not negative and stay below 2 ^ 63, as signed numbers must.
unfoldable pub read_chunks :
    ℕ → (Fs → Fs) → ℕ → ℕ → (len chunk_offset buf_offset : ℕ) → Reading → Option Reading
read_chunks zero wait current fd len chunk_offset buf_offset r = none
read_chunks (suc fuel) wait current fd len chunk_offset buf_offset r =
    let chunk = if ltb page_size len then page_size else len in
    let asked =
      ask wait current (λ page. overwrite (zeros page_size) page)
        (λ gref. file_read fd gref chunk chunk_offset) r.state in
    let chunk_ret = asked.1.ret_val asked.0 in
    let r1 : Reading = record {
      ret = (r.ret + chunk_ret) % 2 ^ 64;
      buf =
          if is_positive chunk_ret
          then copy_to r.buf buf_offset (take chunk_ret (asked.1.page asked.0))
          else r.buf;
      state = finish asked.0 asked.1;
    } in
    let rest =
      read_chunks fuel wait current fd (len - chunk) (chunk_offset + chunk) (buf_offset + chunk)
        r1 in
    if len == 0 then some r else if is_positive chunk_ret then rest else some r1

-- One round for each byte, and one to see the end, are enough.
unfoldable pub fs_read : (Fs → Fs) → ℕ → ℕ → (ℕ → ℕ) → ℕ → ℕ → Fs → Option Reading
fs_read wait current fd buf len offset s =
    read_chunks (len + 1) wait current fd len offset 0 (record { ret = 0; buf = buf; state = s })
