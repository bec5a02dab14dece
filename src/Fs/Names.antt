-- ===== src/Fs/Names.antt =====
-- The names in the pages of requests.
use guestvm_guk.Base.{
  ℕ, ◌+◌, ◌%◌, ◌^◌, ◌≤◌, ◌≡◌, ◌≢◌, refl, sym, ap, ap₂, ◌∙◌, arith, Option, none, some, List, [],
  ◌∷◌, ◌++◌, append_assoc, ◌==◌, if-true, if-false, length, take, drop, take-append, drop-drop,
  drop-append,
}
use guestvm_guk.Strings.{strlen, one_more}
use guestvm_guk.FreeIds.{get_id_from_freelist}
use guestvm_guk.Fs.{
  Fs, put, rename, ask, begin, send, finish, call, overwrite, print, old_header, new_header,
  rename_page, rename_request, fs_rename, page_size,
}

-- a name has no end of string in it
abbrev pub IsName : List ℕ → Type 0
IsName [] = Unit
IsName (c ∷ name) = (c ≢ 0) × IsName name

-- the string at the start of the bytes, up to its end
abbrev pub string_of : List ℕ → Option (List ℕ)
string_of bytes = elim (strlen bytes) [ none ↦ none | some l ↦ some (take l bytes) ]

pub strlen-name :
    (name tail : List ℕ) → IsName name → strlen (name ++ (0 ∷ tail)) ≡ some (length name)
unfolding strlen
strlen-name [] tail p = refl
strlen-name (c ∷ name) tail (ne, p) =
    if-false (c == 0) _ _ (ground (arith, ne)) ∙ ap one_more (strlen-name name tail p)

string_of-name : (name tail : List ℕ) → IsName name → string_of (name ++ (0 ∷ tail)) ≡ some name
string_of-name name tail p =
    rw (strlen-name name tail p, string_of) (ap some (take-append name (0 ∷ tail)))

rename_page-shape :
    (old_name new_name page : List ℕ)
    → (tail : List ℕ) × (rename_page old_name new_name page
        ≡ old_header ++ (old_name ++ (0 ∷ (new_header ++ (new_name ++ (0 ∷ tail))))))
unfolding rename_page print overwrite
rename_page-shape old_name new_name page =
    let tail =
      drop (length (old_header ++ (old_name ++ (0 ∷ (new_header ++ new_name))) ++ (0 ∷ []))) page in
    (
      tail,
      ap (λ l. old_header ++ l)
          (append_assoc (old_name ++ (0 ∷ (new_header ++ new_name))) (0 ∷ []) tail
            ∙ append_assoc old_name (0 ∷ (new_header ++ new_name)) (0 ∷ tail)
            ∙ ap (λ l. old_name ++ (0 ∷ (new_header ++ l))) refl
            ∙ ap (λ l. old_name ++ (0 ∷ l)) (append_assoc new_header new_name (0 ∷ tail))),
    )

-- where the second name begins
second-name :
    (old_name rest : List ℕ)
    → drop
        (length old_header + length old_name + length new_header + 1)
        (old_header ++ (old_name ++ (0 ∷ (new_header ++ rest))))
      ≡ rest
second-name old_name rest =
    let e : length old_header + length old_name + length new_header + 1
        ≡ 5 + (length old_name + 6) =
      omega arith in
    ap (λ k. drop k (old_header ++ (old_name ++ (0 ∷ (new_header ++ rest))))) e
    ∙ sym
        (drop-drop 5 (length old_name + 6) (old_header ++ (old_name ++ (0 ∷ (new_header ++ rest)))))
    ∙ sym (drop-drop (length old_name) 6 (old_name ++ (0 ∷ (new_header ++ rest))))
    ∙ ap (drop 6) (drop-append old_name (0 ∷ (new_header ++ rest)))

-- what a request to rename says
pub record Renames (old_name new_name : List ℕ) (s s' : Fs) : Type 0 where
  pub id : ℕ
  pub old_name_offset : ℕ
  pub new_name_offset : ℕ
  pub request :
      s'.requests
      ≡ s.requests
        ++ (record { id = id; operation = rename old_name_offset new_name_offset (s.gref id) } ∷ [])
  pub old_string : string_of (drop old_name_offset (s'.page id)) ≡ some old_name
  pub new_string : string_of (drop new_name_offset (s'.page id)) ≡ some new_name

-- For two names without an end of string that fit into a page with their headers, the request that
-- `guk_fs_rename` commits says to rename, and at its two offsets in its page a reader finds exactly
-- the old and the new name.
pub fs_rename-Renames :
    (current : ℕ) (old_name new_name : List ℕ) (s : Fs)
    → IsName old_name
    → IsName new_name
    → length old_name + length new_name + 12 ≤ page_size
    → Renames old_name new_name s (fs_rename (λ t. t) current old_name new_name s).1
unfolding fs_rename call ask begin send finish rename_request
fs_rename-Renames current old_name new_name s p q fits = record {
  id = id;
  old_name_offset = 5;
  new_name_offset = (length old_header + length old_name + length new_header + 1) % 2 ^ 16;
  request = refl;
  old_string = ap (λ l. string_of (drop 5 l)) (own ∙ shape.1) ∙ string_of-name old_name _ p;
  new_string =
      ap₂ (λ k l. string_of (drop k l)) small (own ∙ shape.1)
      ∙ ap string_of (second-name old_name (new_name ++ (0 ∷ shape.0)))
      ∙ string_of-name new_name _ q;
}
  where
    id : ℕ
    id = (get_id_from_freelist s.freelist).0

    shape :
        (tail : List ℕ) × (rename_page old_name new_name (s.page id)
          ≡ old_header ++ (old_name ++ (0 ∷ (new_header ++ (new_name ++ (0 ∷ tail))))))
    shape = rename_page-shape old_name new_name (s.page id)

    own :
        put s.page id (rename_page old_name new_name (s.page id)) id
        ≡ rename_page old_name new_name (s.page id)
    own = if-true (id == id) _ _ (ground arith)

    small :
        (length old_header + length old_name + length new_header + 1) % 2 ^ 16
        ≡ length old_header + length old_name + length new_header + 1
    small = ground (arith, fits)
