-- ===== src/BlockClient/Fifo/Progress.antt =====
-- Requests get their results: src/lib/storage/block_client/rust/src/lib.rs.
use fuchsia_storage.Shared.{
  ℕ, Bool, true, false, List, [], ◌∷◌, Option, none, some, ◌≡◌, refl, if◌then◌else◌, ◌==◌, lookup,
  lookup-insert, lookup-remove, insert, arith, Bool-cases, Option-cases, inl, inr,
}
use fuchsia_storage.BlockClient.Fifo.{
  RequestState, FifoState, new, get_or_insert_result, cancel_all, terminate, enqueue, sent,
  complete, receive, answer_or_wait, await_result, forget_request, Step, sends, writes, receives,
  polls, drops, terminates, Reach, here, next,
}

abbrev pub has_result : RequestState → Bool
has_result r = elim r.result [ some status ↦ true | none ↦ false ]

-- Once the FIFO is closed every request has a result, and no request with a result has a waker
-- registered.
pub record IsLive (s : FifoState) : Type 0 where
  pub closed :
      (id : ℕ) (r : RequestState)
      → s.is_open ≡ false
      → lookup id s.map ≡ some r
      → has_result r ≡ true
  pub called :
      (id : ℕ) (r : RequestState) → lookup id s.map ≡ some r → has_result r ≡ true → r.waker ≡ false

cancel_all-some :
    (canceled id : ℕ) (m : List (ℕ × RequestState)) (r : RequestState)
    → lookup id (cancel_all canceled m) ≡ some r
    → (has_result r ≡ true) × (r.waker ≡ false)
unfolding lookup cancel_all get_or_insert_result
cancel_all-some canceled id [] r h = cc
cancel_all-some canceled id ((j, q) ∷ m) r h = ground (arith, cancel_all-some canceled id m r)

new-IsLive : IsLive new
unfolding new lookup
new-IsLive = record { closed = λ id r c h. cc; called = λ id r h. cc }

terminate-IsLive : (canceled : ℕ) (s : FifoState) → IsLive (terminate canceled s)
unfolding terminate
terminate-IsLive canceled s = record {
  closed = λ id r c h. (cancel_all-some canceled id s.map r h).0;
  called = λ id r h q. (cancel_all-some canceled id s.map r h).1;
}

-- One request changes, into a state that may stand.
insert-IsLive :
    (s t : FifoState) (k : ℕ) (q : RequestState)
    → t.map ≡ insert k q s.map
    → t.is_open ≡ s.is_open
    → (s.is_open ≡ false → has_result q ≡ true)
    → (has_result q ≡ true → q.waker ≡ false)
    → IsLive s
    → IsLive t
insert-IsLive s t k q em eo c w l = record {
  closed = λ id r. rw (em, eo, lookup-insert k id q s.map) (λ o h. by_key_closed id r o h);
  called = λ id r. rw (em, lookup-insert k id q s.map) (λ h g. by_key_called id r h g);
}
  where
    by_key_closed :
        (id : ℕ) (r : RequestState)
        → s.is_open ≡ false
        → (if k == id then some q else lookup id s.map) ≡ some r
        → has_result r ≡ true
    by_key_closed id r o h = elim (Bool-cases (k == id)) [
      | inl e ↦ let same : some q ≡ some r = ground (arith, e, h) in ground (arith, c o)
      | inr e ↦ l.closed id r o (ground (arith, e, h))
    ]

    by_key_called :
        (id : ℕ) (r : RequestState)
        → (if k == id then some q else lookup id s.map) ≡ some r
        → has_result r ≡ true
        → r.waker ≡ false
    by_key_called id r h g = elim (Bool-cases (k == id)) [
      | inl e ↦ let same : some q ≡ some r = ground (arith, e, h) in ground (arith, w, g)
      | inr e ↦ l.called id r (ground (arith, e, h)) g
    ]

forget_request-IsLive : (s : FifoState) (k : ℕ) → IsLive s → IsLive (forget_request s k)
unfolding forget_request
forget_request-IsLive s k l = record {
  closed = λ id r. rw (lookup-remove k id s.map) (λ o h. l.closed id r o (ground (arith, h)));
  called = λ id r. rw (lookup-remove k id s.map) (λ h g. l.called id r (ground (arith, h)) g);
}

receive-IsLive :
    (s : FifoState) (k status : ℕ) → s.is_open ≡ true → IsLive s → IsLive (receive s k status)
unfolding receive
receive-IsLive s k status o l = by_request (lookup k s.map)
  where
    by_request : (q : Option RequestState) → IsLive (complete s k status q)
    by_request none = l
    by_request (some r) =
        insert-IsLive s (complete s k status (some r)) k
          (record { result = some status; waker = false }) refl refl (λ c. refl) (λ c. refl) l

await_result-IsLive :
    (s : FifoState) (k : ℕ) (r : RequestState)
    → lookup k s.map ≡ some r
    → IsLive s
    → IsLive (await_result s k r).0
unfolding await_result
await_result-IsLive s k r there l = by_result r.result refl
  where
    by_result : (o : Option ℕ) → r.result ≡ o → IsLive (answer_or_wait s k r o).0
    by_result (some status) e = l
    by_result none e =
        insert-IsLive s (answer_or_wait s k r none).0 k (record r { waker = true }) refl refl
          (λ c. l.closed k r c there) (λ g. ground arith) l

enqueue-IsLive :
    (s t : FifoState) (op_code id : ℕ) → enqueue s op_code ≡ some (t, id) → IsLive s → IsLive t
unfolding enqueue
enqueue-IsLive s t op_code id h l = elim (Bool-cases s.is_open) [
  | inl o ↦
      insert-IsLive s t s.next_request_id (record { result = none; waker = false }) (made o).0
        (made o).1 (λ c. ground arith) (λ c. refl) l
  | inr c ↦ ground arith
]
  where
    made :
        s.is_open ≡ true
        → (t.map ≡ insert s.next_request_id (record { result = none; waker = false }) s.map)
          × (t.is_open ≡ s.is_open)
    made o = elim (Option-cases (lookup s.next_request_id s.map)) [
      | inl free ↦ (ground arith, ground arith)
      | inr (r, used) ↦ ground arith
    ]

Step-IsLive : {canceled : ℕ} {s t : FifoState} → Step canceled s t → IsLive s → IsLive t
unfolding sent
Step-IsLive (sends s t op_code id e) l = enqueue-IsLive s t op_code id e l
Step-IsLive (writes s taken o le) l = record { closed = l.closed; called = l.called }
Step-IsLive (receives s id status o) l = receive-IsLive s id status o l
Step-IsLive (polls s id r there) l = await_result-IsLive s id r there l
Step-IsLive (drops s id) l = forget_request-IsLive s id l
Step-IsLive {canceled} (terminates s) l = terminate-IsLive canceled s

-- In whatever order requests are sent, answered, awaited and dropped and the FIFO is closed, from a
-- new client on: once it is closed every request has a result, and a request with a result has no
-- waker registered.
pub Reach-IsLive : {canceled : ℕ} {s : FifoState} → Reach canceled new s → IsLive s
Reach-IsLive here = new-IsLive
Reach-IsLive (next r st) = Step-IsLive st (Reach-IsLive r)

-- Nobody waits on a FIFO that is closed: in every state that a new client can come to in which it
-- is, a request that is polled gives its result, and its future ends.
pub await_result_closed :
    {canceled : ℕ} {s : FifoState} (id : ℕ) (r : RequestState)
    → Reach canceled new s
    → s.is_open ≡ false
    → lookup id s.map ≡ some r
    → (status : ℕ) × ((await_result s id r).1 ≡ some status)
unfolding await_result
await_result_closed {canceled} {s} id r run closed there =
    let l = Reach-IsLive run in
    let g : has_result r ≡ true = l.closed id r closed there in by_result r.result refl g
  where
    by_result :
        (o : Option ℕ)
        → r.result ≡ o
        → has_result r ≡ true
        → (status : ℕ) × ((answer_or_wait s id r o).1 ≡ some status)
    by_result none e g = ground arith
    by_result (some status) e g = (status, refl)

-- A response gives its status to its own request, if that is still awaited, and leaves every other
-- request as it was.
pub lookup-receive :
    (s : FifoState) (id status j : ℕ) (r : RequestState)
    → lookup id s.map ≡ some r
    → lookup j (receive s id status).map
      ≡ (if id == j then some (record { result = some status; waker = false }) else lookup j s.map)
unfolding receive
lookup-receive s id status j r there =
    rw (there, complete) (lookup-insert id j (record { result = some status; waker = false }) s.map)
