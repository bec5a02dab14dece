-- ===== src/Xenbus/Reply/Tests.antt =====
-- Replies, and the theorems at them.
use guestvm_guk.Strings.{same_string, strcmp, char_diff}
use guestvm_guk.Base.{ℕ, ◌≡◌, refl, arith, some, List, [], ◌∷◌}
use guestvm_guk.Xenbus.Watch.{Watch, new_watch, find_watch, delete_watch}
use guestvm_guk.Xenbus.Reply.{Reply, terminated, count_strings, copy_strings, watch_reply}
use guestvm_guk.Xenbus.Reply.Names.{row, copy_strings-names}
use guestvm_guk.Xenbus.Reply.Frees.{Errors, errors_passed_on, watch_reply-frees}

abbrev path : List ℕ
path = 47 ∷ 97 ∷ 0 ∷ []

abbrev watch : Watch
watch = new_watch path (116 ∷ 0 ∷ [])

-- an error reply with the message "EIO"
abbrev refusal : Reply
refusal = record { handle = 9; kind = 16; payload = 69 ∷ 73 ∷ 79 ∷ [] }

errors_passed_on_test : Errors 16 refusal
errors_passed_on_test = errors_passed_on 16 refusal refl

watch_reply-frees_test :
    watch_reply 16 refusal (116 ∷ 0 ∷ []) (watch ∷ [])
    ≡ some (some (terminated refusal), delete_watch (116 ∷ 0 ∷ []) (watch ∷ []), 9 ∷ 9 ∷ [])
unfolding find_watch same_string strcmp char_diff
watch_reply-frees_test = watch_reply-frees 16 refusal (116 ∷ 0 ∷ []) (watch ∷ []) watch refl

copy_strings-names_example :
    copy_strings
      (count_strings (row ((97 ∷ []) ∷ (98 ∷ 99 ∷ []) ∷ []) []))
      (row ((97 ∷ []) ∷ (98 ∷ 99 ∷ []) ∷ []) [])
    ≡ some ((97 ∷ 0 ∷ []) ∷ (98 ∷ 99 ∷ 0 ∷ []) ∷ [])
copy_strings-names_example =
    copy_strings-names ((97 ∷ []) ∷ (98 ∷ 99 ∷ []) ∷ []) []
      (
        ((λ e. absurd (omega arith)), tt),
        (((λ e. absurd (omega arith)), ((λ e. absurd (omega arith)), tt)), tt),
      )
      tt
