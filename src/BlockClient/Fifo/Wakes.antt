-- ===== src/BlockClient/Fifo/Wakes.antt =====
-- Futures that wait for their requests are woken: src/lib/storage/block_client/rust/src/lib.rs.
use mathlib.Core.List.{append-nil, append_assoc}
use fuchsia_storage.Shared.{
  ℕ, Bool, true, false, ◌||◌, List, [], ◌∷◌, ◌++◌, Option, none, some, ◌≡◌, refl, sym, ap, ◌∙◌, ◌⊎◌,
  ==_self, lookup, lookup-insert, member, member-append, arith, Bool-cases, inl, inr,
}
use fuchsia_storage.BlockClient.Fifo.{
  RequestState, FifoState, new, wakers, terminate, sent, complete, receive, answer_or_wait,
  await_result, forget_request, Step, sends, writes, receives, polls, drops, terminates, Reach,
  here, next,
}
use fuchsia_storage.BlockClient.Fifo.Progress.{IsLive, Reach-IsLive}
use fuchsia_storage.BlockClient.Fifo.Waiting.{
  Waits, drops_it, dropped, Wakes, quiet, enqueue_lem, Step-Wakes,
}

-- No step takes a call of a waker back.
Step-called :
    {canceled : ℕ} {s t : FifoState}
    → Step canceled s t
    → (called : List ℕ) × (t.woken ≡ s.woken ++ called)
unfolding sent receive complete await_result answer_or_wait forget_request terminate
Step-called (sends s t op_code k e) =
    ([], (enqueue_lem s t op_code k e).2 ∙ sym (append-nil s.woken))
Step-called (writes s taken o l) = ([], sym (append-nil s.woken))
Step-called (receives s k status o) = by_request (lookup k s.map)
  where
    by_waker :
        (r : RequestState) (b : Bool)
        → r.waker ≡ b
        → (called : List ℕ) × ((complete s k status (some r)).woken ≡ s.woken ++ called)
    by_waker r true e = (k ∷ [], rw e refl)
    by_waker r false e = ([], rw e (sym (append-nil s.woken)))

    by_request :
        (q : Option RequestState)
        → (called : List ℕ) × ((complete s k status q).woken ≡ s.woken ++ called)
    by_request none = ([], sym (append-nil s.woken))
    by_request (some r) = by_waker r r.waker refl
Step-called (polls s k r there) = by_result r.result
  where
    by_result :
        (o : Option ℕ) → (called : List ℕ) × ((answer_or_wait s k r o).0.woken ≡ s.woken ++ called)
    by_result (some status) = ([], sym (append-nil s.woken))
    by_result none = ([], sym (append-nil s.woken))
Step-called (drops s k) = ([], sym (append-nil s.woken))
Step-called (terminates s) = (wakers s.map, refl)

-- A poll that gives no result leaves the future waiting.
polled-Waits :
    (s : FifoState) (id : ℕ) (r : RequestState)
    → (await_result s id r).1 ≡ none
    → Waits id (await_result s id r).0
unfolding await_result answer_or_wait
polled-Waits s id r = by_result r.result refl
  where
    by_result :
        (o : Option ℕ)
        → r.result ≡ o
        → (answer_or_wait s id r o).1 ≡ none
        → Waits id (answer_or_wait s id r o).0
    by_result (some status) e h = cc
    by_result none e h =
        let now : RequestState = record r { waker = true } in
        record {
          request = now;
          there = lookup-insert id id now s.map ∙ rw (==_self id) refl;
          unanswered = e;
          registered = refl;
        }

Reach_then :
    {canceled : ℕ} {s t u : FifoState}
    → Reach canceled s t
    → Reach canceled t u
    → Reach canceled s u
Reach_then r here = r
Reach_then r (next r' st) = next (Reach_then r r') st

module _ {canceled : ℕ} where
  Wakes-next :
      {s t u : FifoState} (id : ℕ) (st : Step canceled t u)
      → drops_it id st ≡ false
      → Wakes id s t
      → Wakes id s u
  Wakes-next {s} {t} {u} id st d f = elim f.woken_or_waits [
    | inl called ↦
        let (more, e) = Step-called st in
        record {
          called = f.called ++ more;
          in_order = joined more e;
          woken_or_waits = inl (rw (member-append id f.called more) (rw called refl));
        }
    | inr waits ↦
        let g = Step-Wakes id st d waits in
        record {
          called = f.called ++ g.called;
          in_order = joined g.called g.in_order;
          woken_or_waits = elim g.woken_or_waits [
            | inl called ↦ inl (
                member-append id f.called g.called
                ∙ ap (λ (b : Bool). member id f.called || b) called
                ∙ or_true (member id f.called))
            | inr still ↦ inr still
          ];
        }
  ]
    where
      joined : (more : List ℕ) → u.woken ≡ t.woken ++ more → u.woken ≡ s.woken ++ (f.called ++ more)
      joined more e =
          e ∙ ap (λ (l : List ℕ). l ++ more) f.in_order ∙ append_assoc s.woken f.called more

      or_true : (b : Bool) → (b || true) ≡ true
      or_true true = refl
      or_true false = refl

  Reach-Wakes :
      {s t : FifoState} (id : ℕ) (run : Reach canceled s t)
      → dropped id run ≡ false
      → Waits id s
      → Wakes id s t
  Reach-Wakes id here d w = quiet id refl w
  Reach-Wakes id (next r st) d w =
      let (before, now) = neither (dropped id r) (drops_it id st) d in
      Wakes-next id st now (Reach-Wakes id r before w)
    where
      neither : (a b : Bool) → (a || b) ≡ false → (a ≡ false) × (b ≡ false)
      neither a b h = ground arith

  -- The future of a request, on the FIFO of a client that was new once, that was polled and got no
  -- result, and is not dropped after: in every later state its waker has been called since the
  -- poll, or the FIFO is still open and the future still waits, with its waker and no result.
  pub waker_called :
      {s t : FifoState} (id : ℕ) (r : RequestState) (run : Reach canceled (await_result s id r).0 t)
      → Reach canceled new s
      → lookup id s.map ≡ some r
      → (await_result s id r).1 ≡ none
      → dropped id run ≡ false
      → (called : List ℕ) × (t.woken ≡ (await_result s id r).0.woken ++ called)
        × ((member id called ≡ true) ⊎ (t.is_open ≡ true × Waits id t))
  waker_called {s} {t} id r run begun there pending d =
      let f = Reach-Wakes id run d (polled-Waits s id r pending) in
      (
        f.called,
        f.in_order,
        elim f.woken_or_waits [
          | inl called ↦ inl called
          | inr waits ↦ inr (still_open waits, waits)
        ],
      )
    where
      live : IsLive t
      live = Reach-IsLive (Reach_then (next begun (polls s id r there)) run)

      still_open : Waits id t → t.is_open ≡ true
      still_open waits = elim (Bool-cases t.is_open) [
        | inl o ↦ o
        | inr c ↦
            let answered = live.closed id waits.request c waits.there in
            let none_yet = waits.unanswered in ground arith
      ]
