-- ===== src/Block/Requests/Runs.antt =====
-- Requests and responses of the block front end in any order.
use guestvm_guk.Base.{
  ℕ, zero, suc, ◌-◌, ◌<◌, ◌≡◌, sym, ◌∙◌, subst, Bool, true, not, ◌&&◌, arith, some, List, [], ◌∷◌,
  ltb, if◌then◌else◌, length, get_or, if-true, if-false, Bool-cases, inl, inr, dec_lt,
}
use guestvm_guk.Sched.{unlink}
use guestvm_guk.Sched.Queue.{count}
use guestvm_guk.FreeIds.{add_ids}
use guestvm_guk.FreeIds.Stack.{IsFreeList, up_to, add_ids-IsFreeList}
use guestvm_guk.Block.{Segment}
use guestvm_guk.Block.Requests.{IoRequest, Blk, enomem, submitted, is_sound, do_io, respond}
use guestvm_guk.Block.Requests.Pool.{IsPool, Submits, do_io-Submits}
use guestvm_guk.Block.Requests.Responses.{respond-Responded}

-- Each positive identifier below `n` is free, or belongs to one request on its way, and not both.
pub record IsConsistent (n : ℕ) (s : Blk) : Type 0 where
  pub free : List ℕ
  pub busy : List ℕ
  pub pool : IsPool n free busy s

-- One step. A response may name any positive identifier.
pub data Step (s s' : Blk) : Type 0 where
  submits :
      (grant : ℕ → ℕ) (slot : ℕ → Segment) (io_req : IoRequest)
      → is_sound io_req s ≡ true
      → do_io grant slot io_req s ≡ submitted s'
      → Step s s'
  fails :
      (grant : ℕ → ℕ) (slot : ℕ → Segment) (io_req : IoRequest)
      → is_sound io_req s ≡ true
      → do_io grant slot io_req s ≡ enomem s'
      → Step s s'
  answers : (id : ℕ) (okay : Bool) → 0 < id → respond id okay s ≡ some s' → Step s s'

pub data Steps (s'' : Blk) : Blk → Type 0 where
  done : Steps s'' s''
  step : (s s' : Blk) → Step s s' → Steps s'' s' → Steps s'' s

submitted-IsConsistent :
    (n : ℕ) (free busy : List ℕ) (io_req : IoRequest) (s' : Blk)
    → Submits n free busy io_req (submitted s')
    → IsConsistent n s'
submitted-IsConsistent n [] busy io_req s' h = absurd h
submitted-IsConsistent n (id ∷ free) busy io_req s' h = record {
  free = free;
  busy = id ∷ busy;
  pool = h.0;
}

enomem-IsConsistent :
    (n : ℕ) (free busy : List ℕ) (io_req : IoRequest) (s' : Blk)
    → Submits n free busy io_req (enomem s')
    → IsConsistent n s'
enomem-IsConsistent n [] busy io_req s' h = record { free = []; busy = busy; pool = h }
enomem-IsConsistent n (id ∷ free) busy io_req s' h = absurd h

-- A response that the handler takes belongs to a request on its way.
respond-busy :
    (n : ℕ) (free busy : List ℕ) (id : ℕ) (okay : Bool) (s s' : Blk)
    → IsPool n free busy s
    → 0 < id
    → respond id okay s ≡ some s'
    → 0 < count id busy
unfolding respond
respond-busy n free busy id okay s s' v pos e =
    elim (Bool-cases (not (ltb id (length s.freelist)))) [
      | inl out ↦ cc (sym (if-true _ _ _ out) ∙ e)
      | inr within ↦ elim (Bool-cases (s.shadows id).free) [
        | inl unused ↦ cc (sym (if-false _ _ _ within ∙ if-true _ _ _ unused) ∙ e)
        | inr used ↦ elim (dec_lt 0 (count id busy)) [
          | yes on_way ↦ on_way
          | no gone ↦ absurd (
              ground (
                arith,
                used,
                v.idle id (ground (arith, v.once id, v.list.size, gone, within, pos)),
              ))
        ]
      ]
    ]

Step-IsConsistent : (n : ℕ) (s s' : Blk) → 0 < n → Step s s' → IsConsistent n s → IsConsistent n s'
Step-IsConsistent n s s' pos (submits grant slot io_req sound e) v =
    submitted-IsConsistent n v.free v.busy io_req s' (
      subst (Submits n v.free v.busy io_req) e
        (do_io-Submits n v.free v.busy grant slot io_req s pos v.pool sound))
Step-IsConsistent n s s' pos (fails grant slot io_req sound e) v =
    enomem-IsConsistent n v.free v.busy io_req s' (
      subst (Submits n v.free v.busy io_req) e
        (do_io-Submits n v.free v.busy grant slot io_req s pos v.pool sound))
Step-IsConsistent n s s' pos (answers id okay positive e) v =
    let (s1, f, r) =
      respond-Responded n v.free v.busy id okay s v.pool
        (respond-busy n v.free v.busy id okay s s' v.pool positive e) in
    let same : s1 ≡ s' = cc (sym f ∙ e) in
    record { free = id ∷ v.free; busy = unlink id v.busy; pool = subst (IsPool n _ _) same r.pool }

-- In every order of requests that pass the checks of `guk_blk_do_io` and of responses that name
-- positive identifiers and that the handler takes, it stays so that each positive identifier below
-- the size of the ring is free, or belongs to exactly one request on its way, and not both: so
-- requests that fail for want of an identifier lose none, and answered ones give theirs back.
pub Steps-IsConsistent :
    (n : ℕ) (s'' s : Blk) → 0 < n → Steps s'' s → IsConsistent n s → IsConsistent n s''
Steps-IsConsistent n s'' s pos done v = v
Steps-IsConsistent n s'' s pos (step _ s' one more) v =
    Steps-IsConsistent n s'' s' pos more (Step-IsConsistent n s s' pos one v)

count-up_to : (id i : ℕ) → count id (up_to i) ≡ (if ltb 0 id && ltb id (suc i) then 1 else 0)
unfolding count
count-up_to id zero = ground arith
count-up_to id (suc i) = ground (arith, count-up_to id i)

-- After `init_buffers` every identifier is free.
pub init-IsConsistent :
    (n : ℕ) (s : Blk) (freelist : List ℕ)
    → 0 < n
    → length freelist ≡ n
    → ((i : ℕ) → get_or freelist i 0 ≡ 0)
    → s.freelist ≡ add_ids n 0 freelist
    → ((id : ℕ) → id < n → (s.shadows id).free ≡ true)
    → IsConsistent n s
unfolding count
init-IsConsistent n s freelist pos size zeros e unused = record {
  free = up_to (n - 1);
  busy = [];
  pool = record {
    list =
        subst (λ l. IsFreeList n l (up_to (n - 1))) (sym e)
          (add_ids-IsFreeList n freelist pos size zeros);
    once = λ id. ground (arith, count-up_to id (n - 1));
    idle = λ id h. unused id (ground (arith, h, count-up_to id (n - 1)));
    held = λ id h. absurd (omega (arith, h));
    apart = λ id id' h. absurd (omega (arith, h));
  };
}
