-- ===== src/BlockClient/Fifo/Waiting.antt =====
-- What a step does to a future that waits: src/lib/storage/block_client/rust/src/lib.rs.
use mathlib.Core.List.{append-nil}
use fuchsia_storage.Shared.{
  ℕ, Bool, true, false, ◌||◌, List, [], ◌∷◌, ◌++◌, Option, none, some, ◌≡◌, refl, sym, ap, ◌∙◌, ◌⊎◌,
  if◌then◌else◌, ◌==◌, ==_self, ==_iff, lookup, lookup-insert, lookup-remove, insert, member, arith,
  Bool-cases, Option-cases, inl, inr,
}
use fuchsia_storage.BlockClient.Fifo.{
  RequestState, FifoState, wakers, terminate, enqueue, sent, complete, receive, answer_or_wait,
  await_result, forget_request, Step, sends, writes, receives, polls, drops, terminates, Reach,
  here, next,
}

-- The future of a request waits: the request has no result, and a waker.
pub record Waits (id : ℕ) (s : FifoState) : Type 0 where
  pub request : RequestState
  pub there : lookup id s.map ≡ some request
  pub unanswered : request.result ≡ none
  pub registered : request.waker ≡ true

module _ {canceled : ℕ} where
  -- Whether the future of a request is dropped in a step, and in a run.
  abbrev pub drops_it : {s t : FifoState} → ℕ → Step canceled s t → Bool
  drops_it id (sends s t op_code request_id e) = false
  drops_it id (writes s taken o l) = false
  drops_it id (receives s request_id status o) = false
  drops_it id (polls s request_id r there) = false
  drops_it id (drops s request_id) = request_id == id
  drops_it id (terminates s) = false

  abbrev pub dropped : {s t : FifoState} → ℕ → Reach canceled s t → Bool
  dropped id here = false
  dropped id (next r st) = dropped id r || drops_it id st

-- The wakers called from `s` to `t`: that of the request is one of them, or it still waits.
pub record Wakes (id : ℕ) (s t : FifoState) : Type 0 where
  pub called : List ℕ
  pub in_order : t.woken ≡ s.woken ++ called
  pub woken_or_waits : (member id called ≡ true) ⊎ Waits id t

-- Where no waker is called and the request waits.
pub quiet : {s t : FifoState} (id : ℕ) → t.woken ≡ s.woken → Waits id t → Wakes id s t
quiet {s} id e w = record {
  called = [];
  in_order = e ∙ sym (append-nil s.woken);
  woken_or_waits = inr w;
}

-- Another request changes.
other :
    {s t : FifoState} (id k : ℕ) (q : Option RequestState)
    → lookup id t.map ≡ (if k == id then q else lookup id s.map)
    → (k == id) ≡ false
    → Waits id s
    → Waits id t
other id k q e ne w = record {
  request = w.request;
  there = e ∙ (rw ne w.there);
  unanswered = w.unanswered;
  registered = w.registered;
}

member_self : (k : ℕ) → member k (k ∷ []) ≡ true
member_self k = rw (==_self k) refl

wakers-member :
    (id : ℕ) (m : List (ℕ × RequestState)) (r : RequestState)
    → lookup id m ≡ some r
    → r.waker ≡ true
    → member id (wakers m) ≡ true
unfolding lookup wakers
wakers-member id [] r h w = cc
wakers-member id ((j, q) ∷ m) r h w = ground (arith, wakers-member id m r)

pub enqueue_lem :
    (s t : FifoState) (op_code k : ℕ)
    → enqueue s op_code ≡ some (t, k)
    → (lookup s.next_request_id s.map ≡ none)
      × (t.map ≡ insert s.next_request_id (record { result = none; waker = false }) s.map)
      × (t.woken ≡ s.woken)
unfolding enqueue
enqueue_lem s t op_code k h = elim (Bool-cases s.is_open) [
  | inl o ↦ elim (Option-cases (lookup s.next_request_id s.map)) [
    | inl free ↦ (free, ground arith, ground arith)
    | inr (r, used) ↦ ground arith
  ]
  | inr c ↦ ground arith
]

enqueue-Wakes :
    (s t : FifoState) (id op_code k : ℕ)
    → enqueue s op_code ≡ some (t, k)
    → Waits id s
    → Wakes id s t
enqueue-Wakes s t id op_code k h w =
    let (free, em, ew) = enqueue_lem s t op_code k h in
    let q : RequestState = record { result = none; waker = false } in
    let law = ap (lookup id) em ∙ lookup-insert s.next_request_id id q s.map in
    quiet id ew (other id s.next_request_id (some q) law (differs free) w)
  where
    differs : lookup s.next_request_id s.map ≡ none → (s.next_request_id == id) ≡ false
    differs free = elim (Bool-cases (s.next_request_id == id)) [
      | inl e ↦ let there = w.there in ground arith
      | inr e ↦ e
    ]

receive-Wakes : (s : FifoState) (id k status : ℕ) → Waits id s → Wakes id s (receive s k status)
unfolding receive complete
receive-Wakes s id k status w = by_request (lookup k s.map) refl
  where
    by_request : (q : Option RequestState) → lookup k s.map ≡ q → Wakes id s (complete s k status q)
    by_request none e = quiet id refl w
    by_request (some r) e =
        let done : RequestState = record { result = some status; waker = false } in
        elim (Bool-cases (k == id)) [
          | inl same ↦
              let at : lookup k s.map ≡ some w.request =
                ap (λ (x : ℕ). lookup x s.map) ((==_iff k id).0 same) ∙ w.there in
              let mine : r ≡ w.request = cc in
              let waker : r.waker ≡ true = ap (λ (x : RequestState). x.waker) mine ∙ w.registered in
              record {
                called = k ∷ [];
                in_order = rw waker refl;
                woken_or_waits = inl (rw (same) refl);
              }
          | inr ne ↦
              let law = lookup-insert k id done s.map in
              let waits = other id k (some done) law ne w in by_waker r.waker refl waits
        ]
      where
        by_waker :
            (b : Bool)
            → r.waker ≡ b
            → Waits id (complete s k status (some r))
            → Wakes id s (complete s k status (some r))
        by_waker true e waits = record {
          called = k ∷ [];
          in_order = rw e refl;
          woken_or_waits = inr waits;
        }
        by_waker false e waits = quiet id (rw e refl) waits

await_result-Wakes :
    (s : FifoState) (id k : ℕ) (r : RequestState)
    → lookup k s.map ≡ some r
    → Waits id s
    → Wakes id s (await_result s k r).0
unfolding await_result answer_or_wait
await_result-Wakes s id k r there w = by_result r.result refl
  where
    by_result : (o : Option ℕ) → r.result ≡ o → Wakes id s (answer_or_wait s k r o).0
    by_result (some status) e = quiet id refl w
    by_result none e =
        let now : RequestState = record r { waker = true } in
        let law = lookup-insert k id now s.map in
        elim (Bool-cases (k == id)) [
          | inl same ↦ quiet id refl (record {
            request = now;
            there = law ∙ rw same refl;
            unanswered = e;
            registered = refl;
          })
          | inr ne ↦ quiet id refl (other id k (some now) law ne w)
        ]

pub Step-Wakes :
    {canceled : ℕ} {s t : FifoState} (id : ℕ) (st : Step canceled s t)
    → drops_it id st ≡ false
    → Waits id s
    → Wakes id s t
unfolding sent forget_request terminate
Step-Wakes id (sends s t op_code k e) d w = enqueue-Wakes s t id op_code k e w
Step-Wakes id (writes s taken o l) d w = quiet id refl (record {
  request = w.request;
  there = w.there;
  unanswered = w.unanswered;
  registered = w.registered;
})
Step-Wakes id (receives s k status o) d w = receive-Wakes s id k status w
Step-Wakes id (polls s k r there) d w = await_result-Wakes s id k r there w
Step-Wakes id (drops s k) d w = quiet id refl (other id k none (lookup-remove k id s.map) d w)
Step-Wakes id (terminates s) d w = record {
  called = wakers s.map;
  in_order = refl;
  woken_or_waits = inl (wakers-member id s.map w.request w.there w.registered);
}
