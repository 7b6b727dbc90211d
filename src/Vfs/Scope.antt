-- ===== src/Vfs/Scope.antt =====
-- Execution scopes: src/lib/storage/vfs/rust/src/execution_scope.rs. Each operation is one critical
-- section of the executor's mutex, which nothing has poisoned. The `Slab` of running tasks is a map
-- from its keys, a vacant one of which it chooses for a new task, to whether the sender of the
-- task's shutdown channel is still there. A oneshot channel is a number; what is sent is recorded.
pub mod Runs
mod Tests
use fuchsia_storage.Shared.{
  ℕ, Bool, true, false, List, [], ◌∷◌, ◌++◌, Option, none, some, ◌≡◌, if◌then◌else◌, lookup, insert,
  remove,
}

-- `Executor`, with the tasks that were told to stop and the waiters that were sent to, in order.
pub record Executor : Type 0 where
  pub running : List (ℕ × Bool)
  pub waiters : List ℕ
  pub told : List ℕ
  pub notified : List ℕ

-- `ExecutionScopeParams`, over the three kinds of object that it holds.
pub record Params (Tokens Inodes Entries : Type 0) : Type 0 where
  pub token_registry : Option Tokens
  pub inode_registry : Option Inodes
  pub entry_constructor : Option Entries

pub record ExecutionScope (Tokens Inodes Entries : Type 0) : Type 0 where
  pub executor : Executor
  pub params : Params Tokens Inodes Entries

abbrev pub is_none : {A : Type 0} → Option A → Bool
is_none none = true
is_none (some a) = false

abbrev pub idle : Executor
idle = record { running = []; waiters = []; told = []; notified = [] }

module _ {Tokens Inodes Entries : Type 0} where
  -- `ExecutionScope::build`
  unfoldable pub build : Params Tokens Inodes Entries
  build = record { token_registry = none; inode_registry = none; entry_constructor = none }

  -- The setters panic, here none, where the parameter is set already.
  unfoldable pub set_token_registry :
      Params Tokens Inodes Entries → Tokens → Option (Params Tokens Inodes Entries)
  set_token_registry p value =
      if is_none p.token_registry then some (record p { token_registry = some value }) else none

  unfoldable pub set_inode_registry :
      Params Tokens Inodes Entries → Inodes → Option (Params Tokens Inodes Entries)
  set_inode_registry p value =
      if is_none p.inode_registry then some (record p { inode_registry = some value }) else none

  unfoldable pub set_entry_constructor :
      Params Tokens Inodes Entries → Entries → Option (Params Tokens Inodes Entries)
  set_entry_constructor p value =
      if is_none p.entry_constructor
      then some (record p { entry_constructor = some value })
      else none

  -- `ExecutionScopeParams::new`
  unfoldable pub new : Params Tokens Inodes Entries → ExecutionScope Tokens Inodes Entries
  new p = record { executor = idle; params = p }

-- `run_abort_with_shutdown`, with the key that the slab chooses for the task.
unfoldable pub run_abort_with_shutdown : Executor → ℕ → Executor
unfolding insert
run_abort_with_shutdown s task_id = record s { running = insert task_id true s.running }

-- The keys whose senders `task.take()` finds, and the slab after it.
unfoldable pub senders : List (ℕ × Bool) → List ℕ
senders [] = []
senders ((key, sender) ∷ tasks) = let rest = senders tasks in if sender then key ∷ rest else rest

unfoldable pub take_senders : List (ℕ × Bool) → List (ℕ × Bool)
take_senders [] = []
take_senders ((key, sender) ∷ tasks) = (key, false) ∷ take_senders tasks

-- `Executor::shutdown`, which `Drop` calls too.
unfoldable pub shutdown : Executor → Executor
unfolding senders take_senders
shutdown s = record s { running = take_senders s.running; told = s.told ++ senders s.running }

abbrev pub is_empty : List (ℕ × Bool) → Bool
is_empty [] = true
is_empty (task ∷ tasks) = false

unfoldable pub task_did_finish : Executor → ℕ → Executor
unfolding remove
task_did_finish s task_id =
    let left = remove task_id s.running in
    if is_empty left
    then record s { running = left; waiters = []; notified = s.notified ++ s.waiters }
    else record s { running = left }

-- The first half of `ExecutionScope::wait`: a waiter comes in unless no task is running, and then
-- `wait` returns at once.
unfoldable pub wait : Executor → ℕ → Executor
wait s waiter = if is_empty s.running then s else record s { waiters = s.waiters ++ waiter ∷ [] }

unfoldable pub returns_at_once : Executor → Bool
returns_at_once s = is_empty s.running

-- What can happen to a scope. A task that runs is one whose key is in the slab, and no task
-- finishes twice.
pub data Step : Executor → Executor → Type 0 where
  spawns :
      (s : Executor) (task_id : ℕ)
      → lookup task_id s.running ≡ none
      → Step s (run_abort_with_shutdown s task_id)
  shuts_down : (s : Executor) → Step s (shutdown s)
  finishes :
      (s : Executor) (task_id : ℕ) (sender : Bool)
      → lookup task_id s.running ≡ some sender
      → Step s (task_did_finish s task_id)
  waits : (s : Executor) (waiter : ℕ) → Step s (wait s waiter)

pub data Reach (s : Executor) : Executor → Type 0 where
  here : Reach s s
  next : {t u : Executor} → Reach s t → Step t u → Reach s u
