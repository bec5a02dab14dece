-- ===== src/Fs/Calls.antt =====
-- The operations of fs-front.c on files that send one request and return the value of its response.
use guestvm_guk.Base.{
  ℕ, zero, suc, ◌+◌, ◌-◌, ◌*◌, ◌%◌, ◌^◌, Option, none, some, List, [], ◌∷◌, ◌++◌, ltb,
  if◌then◌else◌, length, drop,
}
use guestvm_guk.Fs.{
  Operation, Fs, page_size, overwrite, print, ask, finish, call, as_int, zeros, file_open,
  file_close, file_write, fstat, file_truncate, remove, create, chmod, fs_space, file_sync, stat,
}

pub fs_open : (Fs → Fs) → ℕ → List ℕ → ℕ → Fs → ℕ × Fs
fs_open wait current file flags s =
    as_int (call wait current (print file) (λ gref. file_open gref flags) s)

pub fs_close : (Fs → Fs) → ℕ → ℕ → Fs → ℕ × Fs
fs_close wait current fd s = as_int (call wait current (λ page. page) (λ gref. file_close fd) s)

pub fs_truncate : (Fs → Fs) → ℕ → ℕ → ℕ → Fs → ℕ × Fs
fs_truncate wait current fd length s =
    as_int (call wait current (λ page. page) (λ gref. file_truncate fd length) s)

pub fs_remove : (Fs → Fs) → ℕ → List ℕ → Fs → ℕ × Fs
fs_remove wait current file s = as_int (call wait current (print file) remove s)

pub fs_create : (Fs → Fs) → ℕ → List ℕ → ℕ → ℕ → Fs → ℕ × Fs
fs_create wait current name directory mode s =
    as_int (call wait current (print name) (create directory mode) s)

pub fs_fchmod : (Fs → Fs) → ℕ → ℕ → ℕ → Fs → ℕ × Fs
fs_fchmod wait current fd mode s =
    as_int (call wait current (λ page. page) (λ gref. chmod fd mode) s)

pub get_fs_space : (Fs → Fs) → ℕ → List ℕ → Fs → ℕ × Fs
get_fs_space wait current location s = call wait current (print location) fs_space s

pub fs_sync : (Fs → Fs) → ℕ → ℕ → Fs → ℕ × Fs
fs_sync wait current fd s = as_int (call wait current (λ page. page) (λ gref. file_sync fd) s)

-- `BUG_ON` is `none`.
pub fs_write : (Fs → Fs) → ℕ → ℕ → List ℕ → ℕ → Fs → Option (ℕ × Fs)
fs_write wait current fd buf offset s =
    if ltb page_size (length buf)
    then none
    else some (
        call wait current (λ page. overwrite (buf ++ zeros (page_size - length buf)) page)
          (λ gref. file_write fd gref (length buf) offset) s)

-- the little-endian number in the first bytes
abbrev number : ℕ → List ℕ → ℕ
number zero bytes = 0
number (suc n) [] = 0
number (suc n) (b ∷ bytes) = b + 256 * number n bytes

pub record Stat : Type 0 where
  pub st_mode : ℕ
  pub st_size : ℕ
  pub st_blksize : ℕ
  pub st_blocks : ℕ
  pub st_atim : ℕ
  pub st_mtim : ℕ
  pub st_ctim : ℕ

-- The member `st_blocks` is read from the place of `st_mode`.
abbrev copy_stat : List ℕ → Stat
copy_stat page = record {
  st_mode = number 4 page;
  st_size = number 4 (drop 4 page);
  st_blksize = number 4 (drop 8 page);
  st_blocks = number 4 page;
  st_atim = number 8 (drop 16 page);
  st_mtim = number 8 (drop 24 page);
  st_ctim = number 8 (drop 32 page);
}

abbrev fs_xstat : (Fs → Fs) → ℕ → (List ℕ → List ℕ) → (ℕ → Operation) → Fs → ℕ × Stat × Fs
fs_xstat wait current fill operation s =
    let (id, s1) = ask wait current fill operation s in
    (s1.ret_val id % 2 ^ 32, copy_stat (s1.page id), finish id s1)

pub fs_fstat : (Fs → Fs) → ℕ → ℕ → Fs → ℕ × Stat × Fs
fs_fstat wait current fd s =
    fs_xstat wait current (λ page. overwrite (zeros page_size) page) (fstat fd) s

-- The descriptor is -1.
pub fs_stat : (Fs → Fs) → ℕ → List ℕ → Fs → ℕ × Stat × Fs
fs_stat wait current file s = fs_xstat wait current (print file) (stat (2 ^ 32 - 1)) s
