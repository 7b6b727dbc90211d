-- ===== src/BlockClient/Fifo.antt =====
-- The requests in flight on the FIFO of a block client:
-- src/lib/storage/block_client/rust/src/lib.rs. Each operation is one critical section of the mutex
-- of the `FifoState`, which nothing has poisoned. The kernel's part, how many queued requests a
-- write takes and which responses a read returns, is chosen by the step. A waker of a request is
-- whether one is registered, and the requests whose wakers were called are recorded.
pub mod Progress
pub mod Waiting
pub mod Wakes
mod Tests
use fuchsia_storage.Shared.{
  ℕ, ◌+◌, ◌%◌, ◌^◌, ◌≤◌, Bool, true, false, List, [], ◌∷◌, ◌++◌, length, drop, Option, none, some,
  ◌≡◌, if◌then◌else◌, lookup, insert, remove,
}

-- `zx::Status`, by its raw value; CANCELED is a parameter.
pub record RequestState : Type 0 where
  pub result : Option ℕ
  pub waker : Bool

-- `BlockFifoRequest`, by its identity and its operation.
pub record Request : Type 0 where
  pub request_id : ℕ
  pub op_code : ℕ

pub record FifoState : Type 0 where
  pub is_open : Bool
  pub next_request_id : ℕ
  pub queue : List Request
  pub map : List (ℕ × RequestState)
  pub woken : List ℕ

-- `Common::new`
unfoldable pub new : FifoState
new = record { is_open = true; next_request_id = 0; queue = []; map = []; woken = [] }

unfoldable pub get_or_insert_result : Option ℕ → ℕ → Option ℕ
get_or_insert_result none status = some status
get_or_insert_result (some old) status = some old

unfoldable pub cancel_all : ℕ → List (ℕ × RequestState) → List (ℕ × RequestState)
unfolding get_or_insert_result
cancel_all canceled [] = []
cancel_all canceled ((id, r) ∷ m) =
    (id, record { result = get_or_insert_result r.result canceled; waker = false })
    ∷ cancel_all canceled m

unfoldable pub wakers : List (ℕ × RequestState) → List ℕ
wakers [] = []
wakers ((id, r) ∷ m) = let rest = wakers m in if r.waker then id ∷ rest else rest

-- `FifoState::terminate`
unfoldable pub terminate : ℕ → FifoState → FifoState
unfolding cancel_all wakers
terminate canceled s = record s {
  is_open = false;
  map = cancel_all canceled s.map;
  woken = s.woken ++ wakers s.map;
}

-- The critical section of `Common::send`, without the attempt to send that ends it: the state and
-- the new request's id; none where the FIFO is closed or the id is in use, which panics.
unfoldable pub enqueue : FifoState → ℕ → Option (FifoState × ℕ)
unfolding lookup insert
enqueue s op_code =
    if s.is_open
    then elim (lookup s.next_request_id s.map) [
      | some r ↦ none
      | none ↦ some (
        record s {
          next_request_id = (s.next_request_id + 1) % 2 ^ 32;
          map = insert s.next_request_id (record { result = none; waker = false }) s.map;
          queue = s.queue ++ record { request_id = s.next_request_id; op_code = op_code } ∷ [];
        },
        s.next_request_id,
      )
    ]
    else none

-- A round of `poll_send_requests` in which the FIFO takes some requests.
unfoldable pub sent : FifoState → ℕ → FifoState
sent s taken = record s { queue = drop taken s.queue }

-- The arm of `FifoPoller::poll` for a response.
unfoldable pub complete : FifoState → ℕ → ℕ → Option RequestState → FifoState
unfolding insert
complete s request_id status none = s
complete s request_id status (some r) = record s {
  map = insert request_id (record { result = some status; waker = false }) s.map;
  woken = if r.waker then s.woken ++ request_id ∷ [] else s.woken;
}

unfoldable pub receive : FifoState → ℕ → ℕ → FifoState
unfolding complete lookup
receive s request_id status = complete s request_id status (lookup request_id s.map)

-- `ResponseFuture::poll`: the result, if there is one, or a waker that is registered. A future
-- whose request is not in the map would panic.
unfoldable pub answer_or_wait : FifoState → ℕ → RequestState → Option ℕ → FifoState × Option ℕ
unfolding insert
answer_or_wait s request_id r (some status) = (s, some status)
answer_or_wait s request_id r none =
    (record s { map = insert request_id (record r { waker = true }) s.map }, none)

unfoldable pub await_result : FifoState → ℕ → RequestState → FifoState × Option ℕ
unfolding answer_or_wait
await_result s request_id r = answer_or_wait s request_id r r.result

-- `Drop` of a `ResponseFuture`.
unfoldable pub forget_request : FifoState → ℕ → FifoState
unfolding remove
forget_request s request_id = record s { map = remove request_id s.map }

-- What can happen to the state. The FIFO is read and written only while it is open.
pub data Step (canceled : ℕ) : FifoState → FifoState → Type 0 where
  sends :
      (s t : FifoState) (op_code request_id : ℕ)
      → enqueue s op_code ≡ some (t, request_id)
      → Step canceled s t
  writes :
      (s : FifoState) (taken : ℕ)
      → s.is_open ≡ true
      → taken ≤ length s.queue
      → Step canceled s (sent s taken)
  receives :
      (s : FifoState) (request_id status : ℕ)
      → s.is_open ≡ true
      → Step canceled s (receive s request_id status)
  polls :
      (s : FifoState) (request_id : ℕ) (r : RequestState)
      → lookup request_id s.map ≡ some r
      → Step canceled s (await_result s request_id r).0
  drops : (s : FifoState) (request_id : ℕ) → Step canceled s (forget_request s request_id)
  terminates : (s : FifoState) → Step canceled s (terminate canceled s)

pub data Reach (canceled : ℕ) (s : FifoState) : FifoState → Type 0 where
  here : Reach canceled s s
  next : {t u : FifoState} → Reach canceled s t → Step canceled t u → Reach canceled s u
