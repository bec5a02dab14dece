-- ===== src/Xenbus/Reply/Frees.antt =====
-- What is freed of a reply, and which answers are errors.
use guestvm_guk.Base.{
  ℕ, ◌≡◌, ◌≢◌, refl, true, false, not, arith, none, some, List, [], ◌∷◌, ◌==◌, if◌then◌else◌,
  if-true, if-false, Bool-cases, ==_iff, inl, inr,
}
use guestvm_guk.Strings.{same_string}
use guestvm_guk.Xenbus.Watch.{Watch, find_watch, delete_watch}
use guestvm_guk.Xenbus.Reply.{
  Reply, error, value, terminated, eagain, errmsg, read_reply, write_reply, watch_reply,
  transaction_end_reply, unset_watch, ls_reply, failed, listed, count_strings, copy_strings,
}

module _ (xs_error : ℕ) (rep : Reply) where
  errmsg-error :
      rep.kind ≡ xs_error → errmsg xs_error (some rep) ≡ (some (terminated rep), rep.handle ∷ [])
  unfolding errmsg
  errmsg-error e = if-false (not (rep.kind == xs_error)) _ _ (ground arith)

  errmsg-good : rep.kind ≢ xs_error → errmsg xs_error (some rep) ≡ (none, [])
  unfolding errmsg
  errmsg-good ne = if-true (not (rep.kind == xs_error)) _ _ (ground arith)

  -- the answers to an error reply
  pub record Errors : Type 0 where
    pub reading : read_reply xs_error rep ≡ (error (terminated rep), rep.handle ∷ [])
    pub writing : write_reply xs_error rep ≡ (some (terminated rep), rep.handle ∷ [])
    pub listing : ls_reply xs_error rep ≡ (failed (terminated rep), rep.handle ∷ [])
    pub ending : transaction_end_reply xs_error rep ≡ (
        if same_string (terminated rep) eagain
        then (true, none, rep.handle ∷ [])
        else (false, some (terminated rep), rep.handle ∷ []))

  -- An error reply is passed on as its message by each caller, and freed once.
  pub errors_passed_on : rep.kind ≡ xs_error → Errors
  unfolding read_reply write_reply ls_reply transaction_end_reply
  errors_passed_on e = record {
    reading = rw (errmsg-error e) refl;
    writing = rw (errmsg-error e) refl;
    listing = rw (errmsg-error e) refl;
    ending = rw (errmsg-error e) refl;
  }

  -- Any other reply is passed on as what was asked for, and freed once.
  pub record Goods : Type 0 where
    pub reading : read_reply xs_error rep ≡ (value (terminated rep), rep.handle ∷ [])
    pub writing : write_reply xs_error rep ≡ (none, rep.handle ∷ [])
    pub listing :
        ls_reply xs_error rep
        ≡ (listed (copy_strings (count_strings rep.payload) rep.payload), rep.handle ∷ [])
    pub ending : transaction_end_reply xs_error rep ≡ (false, none, rep.handle ∷ [])

  pub goods_passed_on : rep.kind ≢ xs_error → Goods
  unfolding read_reply write_reply ls_reply transaction_end_reply
  goods_passed_on ne = record {
    reading = rw (errmsg-good ne) refl;
    writing = rw (errmsg-good ne) refl;
    listing = rw (errmsg-good ne) refl;
    ending = rw (errmsg-good ne) refl;
  }

  -- At the end of `xenbus_watch_path`, if the watch is in the list: an error reply is freed twice,
  -- the watch is taken off and the message returned; any other reply is never freed.
  pub watch_reply-frees :
      (token : List ℕ) (watches : List Watch) (watch : Watch)
      → find_watch token watches ≡ some watch
      → watch_reply xs_error rep token watches ≡ (
          if rep.kind == xs_error
          then some
              (some (terminated rep), delete_watch token watches, rep.handle ∷ rep.handle ∷ [])
          else some (none, watches, []))
  unfolding watch_reply
  watch_reply-frees token watches watch there = elim (Bool-cases (rep.kind == xs_error)) [
    | inl e ↦ rw (errmsg-error ((==_iff rep.kind xs_error).0 e), e, unset_watch, there) refl
    | inr ne ↦ rw (errmsg-good (λ e. absurd (ground arith)), ne) refl
  ]
