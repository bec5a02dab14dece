-- ===== src/Fs/Handler.antt =====
-- The handler of responses.
use guestvm_guk.Base.{
  ℕ, zero, suc, ◌+◌, ◌-◌, ◌≤◌, ◌<◌, ◌≡◌, ◌≢◌, refl, sym, ◌∙◌, subst, false, arith, none, some, ◌==◌,
  if-true, if-false, ℕ_discrete,
}
use guestvm_guk.Fs.{Fs, put, take_responses, handler_round, fsfront_handler}

-- what taking responses does not change
record Keeps (s s' : Fs) : Type 0 where
  responses : s'.responses ≡ s.responses
  thread : s'.thread ≡ s.thread
  rsp_prod : s'.rsp_prod ≡ s.rsp_prod
  req_prod : s'.req_prod ≡ s.req_prod

-- the state behind one response
abbrev taken : ℕ → Fs → Fs
taken cons s = record s {
  ret_val = put s.ret_val (s.responses cons).id (s.responses cons).ret_val;
  is_blocked = put s.is_blocked (s.thread (s.responses cons).id) false;
}

take_responses-Keeps : (n cons : ℕ) (s : Fs) → Keeps s (take_responses n cons s)
unfolding take_responses
take_responses-Keeps zero cons s = record {
  responses = refl;
  thread = refl;
  rsp_prod = refl;
  req_prod = refl;
}
take_responses-Keeps (suc n) cons s =
    let k = take_responses-Keeps n (cons + 1) (taken cons s) in
    record {
      responses = k.responses;
      thread = k.thread;
      rsp_prod = k.rsp_prod;
      req_prod = k.req_prod;
    }

handler_round-Keeps : (s : Fs) → Keeps s (handler_round s)
unfolding handler_round
handler_round-Keeps s =
    let k = take_responses-Keeps (s.req_prod - s.rsp_cons) s.rsp_cons s in
    record {
      responses = k.responses;
      thread = k.thread;
      rsp_prod = k.rsp_prod;
      req_prod = k.req_prod;
    }

handler_round-rsp_cons : (s : Fs) → (handler_round s).rsp_cons ≡ s.req_prod
unfolding handler_round
handler_round-rsp_cons s = refl

-- Where the back end has not answered exactly the requests that are committed, and does not move,
-- `fsfront_handler` does not end, however long it runs.
pub fsfront_handler-endless :
    (fuel : ℕ) (s : Fs) → s.rsp_prod ≢ s.req_prod → fsfront_handler fuel s ≡ none
unfolding fsfront_handler
fsfront_handler-endless zero s open_request = refl
fsfront_handler-endless (suc fuel) s open_request =
    let k = handler_round-Keeps s in
    let cons = handler_round-rsp_cons s in
    if-false ((handler_round s).rsp_prod == (handler_round s).rsp_cons) _ _
      (ground (arith, k.rsp_prod, cons, open_request))
    ∙ fsfront_handler-endless fuel (handler_round s)
        (λ e. open_request (sym k.rsp_prod ∙ e ∙ k.req_prod))

-- The responses of places that are not among those taken name other identifiers.
unnamed-ret_val :
    (n cons id : ℕ) (s : Fs)
    → ((i : ℕ) → cons ≤ i → i < cons + n → (s.responses i).id ≢ id)
    → (take_responses n cons s).ret_val id ≡ s.ret_val id
unfolding take_responses
unnamed-ret_val zero cons id s other = refl
unnamed-ret_val (suc n) cons id s other =
    unnamed-ret_val n (cons + 1) id (taken cons s)
      (λ i low high. other i (omega arith) (omega arith))
    ∙ if-false (id == (s.responses cons).id) _ _
        (let ne = other cons (omega arith) (omega arith) in ground (arith, ne))

-- A thread that is not blocked stays so.
awake-stays :
    (n cons t : ℕ) (s : Fs)
    → s.is_blocked t ≡ false
    → (take_responses n cons s).is_blocked t ≡ false
unfolding take_responses
awake-stays zero cons t s awake = awake
awake-stays (suc n) cons t s awake =
    awake-stays n (cons + 1) t (taken cons s)
      (elim (ℕ_discrete t (s.thread (s.responses cons).id)) [
        | yes same ↦ if-true (t == s.thread (s.responses cons).id) _ _ (ground (arith, same))
        | no ne ↦ if-false (t == s.thread (s.responses cons).id) _ _ (ground (arith, ne)) ∙ awake
      ])

-- No two responses among those taken name the same identifier.
abbrev pub Apart : ℕ → ℕ → Fs → Type 0
Apart cons rp s = (i j : ℕ) → cons ≤ i → i < j → j < rp → (s.responses j).id ≢ (s.responses i).id

take_responses-delivers :
    (n cons i : ℕ) (s : Fs)
    → Apart cons (cons + n) s
    → cons ≤ i
    → i < cons + n
    → ((take_responses n cons s).ret_val (s.responses i).id ≡ (s.responses i).ret_val)
      × ((take_responses n cons s).is_blocked (s.thread (s.responses i).id) ≡ false)
unfolding take_responses
take_responses-delivers zero cons i s apart low high = absurd (omega arith)
take_responses-delivers (suc n) cons i s apart low high = elim (ℕ_discrete cons i) [
  | yes same ↦
      subst
        (λ k.
          ((take_responses n (cons + 1) (taken cons s)).ret_val (s.responses k).id
            ≡ (s.responses k).ret_val)
          × ((take_responses n (cons + 1) (taken cons s)).is_blocked (s.thread (s.responses k).id)
              ≡ false))
        same
        (
          unnamed-ret_val n (cons + 1) (s.responses cons).id (taken cons s)
                (λ j below above. apart cons j (omega arith) (omega arith) (omega arith))
              ∙ if-true ((s.responses cons).id == (s.responses cons).id) _ _ (ground arith),
          awake-stays n (cons + 1) (s.thread (s.responses cons).id) (taken cons s) (
              if-true (s.thread (s.responses cons).id == s.thread (s.responses cons).id) _ _
                (ground arith)),
        )
  | no later ↦
      take_responses-delivers n (cons + 1) i (taken cons s)
        (λ j k below between above. apart j k (omega arith) between (omega arith))
        (omega (arith, later)) (omega arith)
]

-- Where the back end has answered every committed request, with different identifiers,
-- `fsfront_handler` ends after one round: it has taken all responses, and for each of them the
-- request it names has its value and the thread of that request is no longer blocked.
pub fsfront_handler-delivers :
    (fuel : ℕ) (s : Fs)
    → s.rsp_prod ≡ s.req_prod
    → s.rsp_cons ≤ s.req_prod
    → Apart s.rsp_cons s.req_prod s
    → (s' : Fs) × (fsfront_handler (suc fuel) s ≡ some s')
      × (s'.rsp_cons ≡ s.rsp_prod)
      × ((i : ℕ)
          → s.rsp_cons ≤ i
          → i < s.rsp_prod
          → (s'.ret_val (s.responses i).id ≡ (s.responses i).ret_val)
            × (s'.is_blocked (s.thread (s.responses i).id) ≡ false))
unfolding fsfront_handler handler_round
fsfront_handler-delivers fuel s answered order apart =
    let k = handler_round-Keeps s in
    let reach : s.rsp_cons + (s.req_prod - s.rsp_cons) ≡ s.req_prod = omega arith in
    let s1 = handler_round s in
    (
      record s1 { rsp_event = s1.rsp_cons + 1 },
      if-true (s1.rsp_prod == s1.rsp_cons) _ (fsfront_handler fuel s1)
          (ground (arith, k.rsp_prod, answered)),
      sym answered,
      λ i low high.
          take_responses-delivers (s.req_prod - s.rsp_cons) s.rsp_cons i s
            (subst (λ rp. Apart s.rsp_cons rp s) (sym reach) apart) low (omega (arith, reach)),
    )
