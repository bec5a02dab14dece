-- ===== src/Fs/Served.antt =====
-- Reading a file in chunks through the ring and the handler, each chunk answered by the back end.
use guestvm_guk.Base.{ℕ, ◌-◌, ◌^◌, ◌≤◌, ◌<◌, min, ◌≡◌, ap, ◌∙◌, some, List, ◌∷◌, length, take, drop}
use guestvm_guk.FreeIds.Stack.{IsFreeList}
use guestvm_guk.Fs.{Fs, file_read, page_size, overwrite, zeros, ask, begin, finish, call}
use guestvm_guk.Fs.Chunks.{Reading, fs_read}
use guestvm_guk.Fs.Copies.{Copied}
use guestvm_guk.Fs.Ids.{ask-Asked}
use guestvm_guk.Fs.Read.{asked, ServesIn, fs_read-Reads}
use guestvm_guk.Fs.Answered.{
  BackEnd, IsIdle, Answered, sent, filled, wait_for, wait_for-Balanced, call-Answered,
}

-- A back end that has a file: to a request to read at most a page it answers with the number of the bytes
-- that the file has there, and puts them into the request's page.
abbrev pub ServesFile : List ℕ → ℕ → BackEnd → Type 0
ServesFile file fd serve =
    (id gref len offset : ℕ) (pages : ℕ → List ℕ)
    → len ≤ page_size
    → let reply = serve (record { id = id; operation = file_read fd gref len offset }) pages in
      (reply.0 ≡ min len (length file - offset))
      × (take (min len (length file - offset)) (reply.1 id)
          ≡ take (min len (length file - offset)) (drop offset file))

-- between operations: the identifiers are in their places, and no request is on its way
pub record IsReady (n id : ℕ) (ids : List ℕ) (s : Fs) : Type 0 where
  pub idle : IsIdle s
  pub identifiers : IsFreeList n s.freelist (id ∷ ids)

module _ (n id : ℕ) (ids : List ℕ) (pos : 0 < n) (file : List ℕ) (fd : ℕ) (serve : BackEnd)
    (current : ℕ) (serves : ServesFile file fd serve) where
  round-Answered :
      (chunk offset : ℕ) (s : Fs)
      → IsReady n id ids s
      → Answered n id ids current
          (serve
            (sent id (λ gref. file_read fd gref chunk offset) s)
            (filled id (λ page. overwrite (zeros page_size) page) s))
          (call
            (wait_for serve)
            current
            (λ page. overwrite (zeros page_size) page)
            (λ gref. file_read fd gref chunk offset)
            s)
  round-Answered chunk offset s ready =
      call-Answered n id ids serve current _ _ s pos ready.identifiers ready.idle

  round-same :
      (chunk offset : ℕ) (s : Fs)
      → IsReady n id ids s
      → (asked fd (wait_for serve) current chunk offset s).0 ≡ id
  round-same chunk offset s ready =
      (ask-Asked n id ids (wait_for serve) current (λ page. overwrite (zeros page_size) page)
        (λ gref. file_read fd gref chunk offset) s pos (wait_for-Balanced serve)
        ready.identifiers).same

  wait_for-ServesIn : ServesIn file fd (wait_for serve) current (IsReady n id ids)
  unfolding call ask begin finish
  wait_for-ServesIn = record {
    value = λ chunk offset s ready fits.
        (round-Answered chunk offset s ready).value ∙ (serves id (s.gref id) chunk offset _ fits).0;
    bytes = λ chunk offset s ready fits.
        ap
          (λ k.
            take (min chunk (length file - offset))
              ((asked fd (wait_for serve) current chunk offset s).1.page k))
          (round-same chunk offset s ready)
        ∙ ap (λ pages. take (min chunk (length file - offset)) (pages id))
            (round-Answered chunk offset s ready).pages
        ∙ (serves id (s.gref id) chunk offset _ fits).1;
    stays = λ chunk offset s ready fits.
        let a = round-Answered chunk offset s ready in
        record { idle = a.idle; identifiers = a.identifiers };
  }

-- The read of a file by `guk_fs_read` through the ring and `fsfront_handler`: where the free list
-- of identifiers is in order and not empty and no request is on its way, over a back end that
-- answers each request to read at most a page, while the thread sleeps, with the number of bytes
-- that the file has there and with those bytes in the request's page, for a file and a length below
-- 2 ^ 63, the call returns; its value is the smaller of the length and what the file has behind the
-- offset, the caller's memory has exactly these bytes of the file and no other byte of it has
-- changed, no request is on its way, and the identifiers are free in the same order as before.
pub fs_read-Served :
    (n id : ℕ) (ids file : List ℕ) (fd : ℕ) (serve : BackEnd) (current : ℕ) (buf : ℕ → ℕ)
    (len offset : ℕ)
    → (s : Fs) → 0 < n
    → ServesFile file fd serve
    → length file < 2 ^ 63
    → len < 2 ^ 63
    → IsReady n id ids s
    → (r : Reading) × (fs_read (wait_for serve) current fd buf len offset s ≡ some r)
      × (r.ret ≡ min len (length file - offset))
      × Copied file offset 0 (min len (length file - offset)) buf r.buf
      × IsReady n id ids r.state
fs_read-Served n id ids file fd serve current buf len offset s pos serves small bound ready =
    fs_read-Reads file fd (wait_for serve) current (IsReady n id ids)
      (wait_for-ServesIn n id ids pos file fd serve current serves) small buf len offset s ready
      bound
