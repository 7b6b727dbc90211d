-- ===== src/BlockClient/Fifo/Tests.antt =====
-- Tests of src/lib/storage/block_client/rust/src/lib.rs.
use fuchsia_storage.Shared.{
  ℕ, true, false, List, [], ◌++◌, ◌⊎◌, member, ◌∷◌, none, some, ◌≡◌, refl, lookup, insert, remove,
}
use fuchsia_storage.BlockClient.Fifo.{
  FifoState, RequestState, new, enqueue, receive, await_result, terminate, sends, receives, polls,
  terminates, Reach, here, next,
}
use fuchsia_storage.BlockClient.Fifo.Progress.{await_result_closed}
use fuchsia_storage.BlockClient.Fifo.Waiting.{Waits}
use fuchsia_storage.BlockClient.Fifo.Wakes.{waker_called}

-- `zx::Status::CANCELED` is -23; here it is 23.
abbrev canceled : ℕ
canceled = 23

abbrev waiting : RequestState
waiting = record { result = none; waker = true }

-- One flush is in flight.
abbrev one : FifoState
one = record new {
  next_request_id = 1;
  queue = record { request_id = 0; op_code = 3 } ∷ [];
  map = (0, record { result = none; waker = false }) ∷ [];
}

enqueued : enqueue new 3 ≡ some (one, 0)
unfolding enqueue new lookup insert remove
enqueued = refl

abbrev polled : FifoState
polled = (await_result one 0 (record { result = none; waker = false })).0

abbrev ended : FifoState
ended = terminate canceled polled

ended-Reach : Reach canceled new ended
unfolding new lookup
ended-Reach =
    next
      (next (next here (sends new one 3 0 enqueued))
        (polls one 0 (record { result = none; waker = false }) refl))
      (terminates polled)

-- The waker is called, and the result is there.
ended_lem :
    (ended.map ≡ (0, record { result = some 23; waker = false }) ∷ []) × (ended.woken ≡ 0 ∷ [])
unfolding terminate await_result insert remove new
ended_lem = (refl, refl)

answered : (receive one 0 7).map ≡ (0, record { result = some 7; waker = false }) ∷ []
unfolding receive insert remove lookup new
answered = refl

-- From the poll to the end, in which a second request comes in.
abbrev two : FifoState
two = record polled {
  next_request_id = 2;
  queue = record { request_id = 0; op_code = 3 } ∷ record { request_id = 1; op_code = 4 } ∷ [];
  map = (1, record { result = none; waker = false }) ∷ polled.map;
}

enqueued_second : enqueue polled 4 ≡ some (two, 1)
unfolding enqueue new lookup insert remove await_result
enqueued_second = refl

waker_called_example :
    (called : List ℕ) × ((receive two 0 7).woken ≡ polled.woken ++ called)
    × ((member 0 called ≡ true) ⊎ ((receive two 0 7).is_open ≡ true × Waits 0 (receive two 0 7)))
unfolding new lookup await_result
waker_called_example =
    waker_called {canceled = canceled} 0 (record { result = none; waker = false })
      (next (next here (sends polled two 4 1 enqueued_second)) (receives two 0 7 refl))
      (next here (sends new one 3 0 enqueued)) refl refl refl

await_result_closed_example :
    (status : ℕ) × ((await_result ended 0 (record { result = some 23; waker = false })).1
      ≡ some status)
unfolding terminate await_result insert remove new lookup
await_result_closed_example =
    await_result_closed 0 (record { result = some 23; waker = false }) ended-Reach refl refl
