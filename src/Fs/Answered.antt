-- ===== src/Fs/Answered.antt =====
-- An operation on a file together with the back end and the handler of its response: no other thread
-- has a request on its way, and the back end answers the request while the thread sleeps.
use guestvm_guk.Base.{
  ℕ, zero, suc, ◌+◌, ◌-◌, ◌<◌, ◌≡◌, refl, sym, ap, ◌∙◌, Bool, true, false, arith, Option, none,
  some, List, [], ◌∷◌, ◌++◌, ◌==◌, if◌then◌else◌, if-true,
}
use guestvm_guk.FreeIds.{get_id_from_freelist}
use guestvm_guk.FreeIds.Stack.{IsFreeList, get_id_from_freelist-Pops}
use guestvm_guk.Fs.{
  Fs, Operation, Request, Response, put, take_responses, handler_round, fsfront_handler, begin,
  send, ask, finish, call,
}
use guestvm_guk.Fs.Ids.{Balanced, ask-Asked, call-IsFreeList}

-- What the back end does for a request, given the pages: the value of the response, and the pages.
abbrev pub BackEnd : Type 0
BackEnd = Request → (ℕ → List ℕ) → ℕ × (ℕ → List ℕ)

abbrev pub last_request : List Request → Option Request
last_request [] = none
last_request (r ∷ rest) = elim (last_request rest) [ none ↦ some r | some l ↦ some l ]

abbrev pub served : BackEnd → Option Request → Fs → Fs
served serve none s = s
served serve (some r) s =
    let (ret_val, pages) = serve r s.page in
    let response : Response = record { id = r.id; ret_val = ret_val } in
    record s {
      page = pages;
      responses = put s.responses s.rsp_prod response;
      rsp_prod = s.rsp_prod + 1;
    }

-- The back end answers the request that was committed last.
abbrev pub answer : BackEnd → Fs → Fs
answer serve s = served serve (last_request s.requests) s

abbrev pub handled : Fs → Option Fs → Fs
handled s none = s
handled s (some s') = s'

-- what happens while the thread sleeps: the answer, and the event of it
abbrev pub wait_for : BackEnd → Fs → Fs
wait_for serve s = handled s (fsfront_handler 1 (answer serve s))

-- No request is on its way.
pub record IsIdle (s : Fs) : Type 0 where
  pub answered : s.rsp_prod ≡ s.req_prod
  pub taken : s.rsp_cons ≡ s.req_prod

last_request-append : (rs : List Request) (r : Request) → last_request (rs ++ (r ∷ [])) ≡ some r
last_request-append [] r = refl
last_request-append (r' ∷ rs) r = rw (last_request-append rs r) refl

take_responses-freelist : (n cons : ℕ) (s : Fs) → (take_responses n cons s).freelist ≡ s.freelist
unfolding take_responses
take_responses-freelist zero cons s = refl
take_responses-freelist (suc n) cons s = take_responses-freelist n (cons + 1) _

served-freelist :
    (serve : BackEnd) (r : Option Request) (s : Fs) → (served serve r s).freelist ≡ s.freelist
served-freelist serve none s = refl
served-freelist serve (some r) s = refl

handled-freelist :
    (ends : Bool) (t s : Fs)
    → s.freelist ≡ t.freelist
    → (handled t (if ends then some s else none)).freelist ≡ t.freelist
handled-freelist true t s e = e
handled-freelist false t s e = refl

pub wait_for-Balanced : (serve : BackEnd) → Balanced (wait_for serve)
unfolding fsfront_handler handler_round
wait_for-Balanced serve t =
    let u = answer serve t in
    handled-freelist _ t _ (
      take_responses-freelist (u.req_prod - u.rsp_cons) u.rsp_cons u
      ∙ served-freelist serve (last_request t.requests) t)

-- the state behind the handler of one response
abbrev one : Fs → Fs
one s =
    let rsp = s.responses s.rsp_cons in
    record s {
      ret_val = put s.ret_val rsp.id rsp.ret_val;
      is_blocked = put s.is_blocked (s.thread rsp.id) false;
      rsp_cons = s.req_prod;
      rsp_event = s.req_prod + 1;
    }

fsfront_handler-one :
    (s : Fs)
    → s.req_prod ≡ s.rsp_cons + 1
    → s.rsp_prod ≡ s.req_prod
    → fsfront_handler 1 s ≡ some (one s)
unfolding fsfront_handler handler_round take_responses
fsfront_handler-one s next answered =
    let single : s.req_prod - s.rsp_cons ≡ 1 = omega (arith, next) in
    rw single (if-true (s.rsp_prod == s.req_prod) _ _ (ground (arith, answered)))

-- the request that `call` sends, and the pages with what it writes into the request's
abbrev pub sent : ℕ → (ℕ → Operation) → Fs → Request
sent id operation s = record { id = id; operation = operation (s.gref id) }

abbrev pub filled : ℕ → (List ℕ → List ℕ) → Fs → ℕ → List ℕ
filled id fill s = put s.page id (fill (s.page id))

-- The call has returned what the back end has answered, and the import is idle again.
pub record Answered (n id : ℕ) (ids : List ℕ) (current : ℕ) (reply : ℕ × (ℕ → List ℕ))
    (result : ℕ × Fs) : Type 0 where
  pub value : result.0 ≡ reply.0
  pub pages : result.1.page ≡ reply.1
  pub awake : result.1.is_blocked current ≡ false
  pub idle : IsIdle result.1
  pub identifiers : IsFreeList n result.1.freelist (id ∷ ids)

-- the state in which the handler finds the answer
abbrev asked : BackEnd → ℕ → ℕ → List ℕ → (List ℕ → List ℕ) → (ℕ → Operation) → Fs → Fs
asked serve current id freelist fill operation s = served serve (some (sent id operation s)) (
    send current id (operation (s.gref id))
      (record s { freelist = freelist; thread = put s.thread id current; page = filled id fill s }))

ask-one :
    (serve : BackEnd) (current : ℕ) (fill : List ℕ → List ℕ) (operation : ℕ → Operation) (s : Fs)
    → IsIdle s
    → let (id, freelist) = get_id_from_freelist s.freelist in
      (ask (wait_for serve) current fill operation s).1
      ≡ one (asked serve current id freelist fill operation s)
unfolding ask begin send
ask-one serve current fill operation s idle =
    let (id, freelist) = get_id_from_freelist s.freelist in
    let t : Fs = send current id (operation (s.gref id)) (record s {
      freelist = freelist;
      thread = put s.thread id current;
      page = filled id fill s;
    }) in
    ap (λ r. handled t (fsfront_handler 1 (served serve r t)))
      (last_request-append s.requests (sent id operation s))
    ∙ ap (handled t) (
        fsfront_handler-one (asked serve current id freelist fill operation s)
          (omega (arith, idle.taken)) (omega (arith, idle.answered)))

put-same {ℓ} : {A : Type ℓ} (f : ℕ → A) (i : ℕ) (v : A) → put f i v i ≡ v
put-same f i v = if-true (i == i) _ _ (ground arith)

call-Answered_at :
    (n id : ℕ) (ids : List ℕ) (serve : BackEnd) (current : ℕ) (freelist : List ℕ)
    (fill : List ℕ → List ℕ)
    → (operation : ℕ → Operation) (s : Fs) → IsIdle s
    → ask (wait_for serve) current fill operation s
      ≡ (id, one (asked serve current id freelist fill operation s))
    → IsFreeList n (call (wait_for serve) current fill operation s).1.freelist (id ∷ ids)
    → Answered n id ids current
        (serve (sent id operation s) (filled id fill s))
        (call (wait_for serve) current fill operation s)
unfolding call finish send
call-Answered_at n id ids serve current freelist fill operation s idle e v =
    let reply : ℕ × (ℕ → List ℕ) = serve (sent id operation s) (filled id fill s) in
    let response : Response = record { id = id; ret_val = reply.0 } in
    let arrived : put s.responses s.rsp_prod response s.rsp_cons ≡ response =
      if-true (s.rsp_cons == s.rsp_prod) _ _ (ground (arith, idle.answered, idle.taken)) in
    record {
      value =
          ap {A = ℕ × Fs} (λ a. a.1.ret_val a.0) e
          ∙ ap {A = Response} (λ rsp. put s.ret_val rsp.id rsp.ret_val id) arrived
          ∙ put-same s.ret_val id reply.0;
      pages = ap {A = ℕ × Fs} (λ a. a.1.page) e;
      awake =
          ap {A = ℕ × Fs} (λ a. a.1.is_blocked current) e
          ∙ ap {A = Response}
              (λ rsp.
                put (put s.is_blocked current true) (put s.thread id current rsp.id) false current)
              arrived
          ∙ ap (λ t. put (put s.is_blocked current true) t false current)
              (put-same s.thread id current)
          ∙ put-same (put s.is_blocked current true) current false;
      idle = record {
        answered =
            ap {A = ℕ × Fs} (λ a. a.1.rsp_prod) e
            ∙ ap (λ i. i + 1) idle.answered
            ∙ sym (ap {A = ℕ × Fs} (λ a. a.1.req_prod) e);
        taken = ap {A = ℕ × Fs} (λ a. a.1.rsp_cons) e ∙ sym (ap {A = ℕ × Fs} (λ a. a.1.req_prod) e);
      };
      identifiers = v;
    }

-- Where the free list of identifiers is in order and not empty and no request is on its way, an
-- operation on a file that returns its response's value, whose request the back end answers while
-- the thread sleeps, with `fsfront_handler` run once on the event: it returns the value that the
-- back end gives for that request with the page as the operation has filled it, and leaves the
-- pages as the back end leaves them, the thread no longer blocked, no request on its way, and the
-- identifiers free in the same order as before.
pub call-Answered :
    (n id : ℕ) (ids : List ℕ) (serve : BackEnd) (current : ℕ) (fill : List ℕ → List ℕ)
    → (operation : ℕ → Operation) (s : Fs) → 0 < n
    → IsFreeList n s.freelist (id ∷ ids)
    → IsIdle s
    → Answered n id ids current
        (serve (sent id operation s) (filled id fill s))
        (call (wait_for serve) current fill operation s)
call-Answered n id ids serve current fill operation s pos v idle =
    let (same, _) = get_id_from_freelist-Pops n s.freelist (id ∷ ids) pos v in
    call-Answered_at n id ids serve current (get_id_from_freelist s.freelist).1 fill operation s
      idle
      (ap (λ k. (k, (ask (wait_for serve) current fill operation s).1))
          (ask-Asked n id ids (wait_for serve) current fill operation s pos
            (wait_for-Balanced serve) v).same
        ∙ ap (λ y. (id, y)) (ask-one serve current fill operation s idle)
        ∙ ap
            (λ k. (
              id,
              one (asked serve current k (get_id_from_freelist s.freelist).1 fill operation s),
            ))
            same)
      (call-IsFreeList n id ids (wait_for serve) current fill operation s pos
        (wait_for-Balanced serve) v).0
