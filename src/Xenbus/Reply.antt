-- ===== src/Xenbus/Reply.antt =====
-- What the callers make of the replies. A reply is known by the handle of its memory, and the replies
-- that are given back to the heap are a list of handles.
pub mod Names
pub mod Frees
mod Tests
use guestvm_guk.Base.{
  take, drop, ℕ, zero, suc, ◌+◌, ◌-◌, Bool, true, false, not, Option, none, some, List, [], ◌∷◌,
  ◌++◌, length, ltb, ◌==◌, if◌then◌else◌,
}
use guestvm_guk.Strings.{strlen, same_string}
use guestvm_guk.Xenbus.Watch.{Watch, find_watch, delete_watch}

-- `struct xsd_sockmsg` with the bytes behind it
pub record Reply : Type 0 where
  pub handle : ℕ
  pub kind : ℕ
  pub payload : List ℕ

-- "no reply"
abbrev pub no_reply : List ℕ
no_reply = 110 ∷ 111 ∷ 32 ∷ 114 ∷ 101 ∷ 112 ∷ 108 ∷ 121 ∷ 0 ∷ []

-- "EAGAIN"
abbrev pub eagain : List ℕ
eagain = 69 ∷ 65 ∷ 71 ∷ 65 ∷ 73 ∷ 78 ∷ 0 ∷ []

-- the payload as a string
abbrev pub terminated : Reply → List ℕ
terminated rep = rep.payload ++ (0 ∷ [])

-- an error message, or a value
pub data Answer : Type 0 where
  error : List ℕ → Answer
  value : List ℕ → Answer

-- The loop of `xenbus_ls` that counts the strings.
pub count_strings : List ℕ → ℕ
count_strings [] = 0
count_strings (b ∷ bytes) = (if b == 0 then 1 else 0) + count_strings bytes

abbrev pub cons_name : List ℕ → Option (List (List ℕ)) → Option (List (List ℕ))
cons_name name none = none
cons_name name (some names) = some (name ∷ names)

-- The loop of `xenbus_ls` that copies `n` strings; `none` is a read behind the reply.
pub copy_strings : ℕ → List ℕ → Option (List (List ℕ))
copy_strings zero bytes = some []
copy_strings (suc n) bytes = elim (strlen bytes) [
  | none ↦ none
  | some l ↦ cons_name (take (l + 1) bytes) (copy_strings n (drop (l + 1) bytes))
]

pub data Listing : Type 0 where
  failed : List ℕ → Listing
  listed : Option (List (List ℕ)) → Listing

-- `XS_ERROR` of Xen's headers
module _ (xs_error : ℕ) where
  -- `errmsg`
  pub errmsg : Option Reply → Option (List ℕ) × List ℕ
  errmsg none = (some no_reply, [])
  errmsg (some rep) =
      if not (rep.kind == xs_error) then (none, []) else (some (terminated rep), rep.handle ∷ [])

  abbrev pub after_errmsg :
      {A : Type 0} → (List ℕ → A) → A → ℕ → Option (List ℕ) × List ℕ → A × List ℕ
  after_errmsg give_up done handle (some msg, freed) = (give_up msg, freed)
  after_errmsg give_up done handle (none, freed) = (done, handle ∷ freed)

  -- The end of `xenbus_read`, and in the same words of `xenbus_get_perms`.
  pub read_reply : Reply → Answer × List ℕ
  read_reply rep = after_errmsg error (value (terminated rep)) rep.handle (errmsg (some rep))

  -- The end of `xenbus_write`, `xenbus_rm` and `xenbus_set_perms`: the error message, if there is one.
  pub write_reply : Reply → Option (List ℕ) × List ℕ
  write_reply rep = after_errmsg some none rep.handle (errmsg (some rep))

  -- The end of `xenbus_ls`.
  pub ls_reply : Reply → Listing × List ℕ
  ls_reply rep =
      after_errmsg failed (listed (copy_strings (count_strings rep.payload) rep.payload)) rep.handle
        (errmsg (some rep))

  -- The end of `xenbus_watch_path`: the message, the watches, and what is freed; `none` is a `BUG_ON`.
  abbrev pub unset_watch :
      ℕ
      → List ℕ
      → List Watch
      → Option (List ℕ) × List ℕ
      → Option (Option (List ℕ) × List Watch × List ℕ)
  unset_watch handle token watches (none, freed) = some (none, watches, freed)
  unset_watch handle token watches (some msg, freed) = elim (find_watch token watches) [
    | none ↦ none
    | some watch ↦ some (some msg, delete_watch token watches, handle ∷ freed)
  ]

  pub watch_reply : Reply → List ℕ → List Watch → Option (Option (List ℕ) × List Watch × List ℕ)
  watch_reply rep token watches = unset_watch rep.handle token watches (errmsg (some rep))

  -- The end of `xenbus_transaction_end`: whether to try again, and the error message. A message
  -- that asks for another try is not passed on.
  abbrev pub end_result : ℕ → Option (List ℕ) × List ℕ → Bool × Option (List ℕ) × List ℕ
  end_result handle (none, freed) = (false, none, handle ∷ freed)
  end_result handle (some err, freed) =
      if same_string err eagain then (true, none, freed) else (false, some err, freed)

  pub transaction_end_reply : Reply → Bool × Option (List ℕ) × List ℕ
  transaction_end_reply rep = end_result rep.handle (errmsg (some rep))
