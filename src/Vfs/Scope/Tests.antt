-- ===== src/Vfs/Scope/Tests.antt =====
-- Tests of src/lib/storage/vfs/rust/src/execution_scope.rs.
use fuchsia_storage.Shared.{
  ℕ, true, false, [], ◌∷◌, none, some, ◌≡◌, refl, lookup, insert, remove, member, arith,
}
use fuchsia_storage.Vfs.Scope.{
  Executor, idle, is_empty, run_abort_with_shutdown, shutdown, task_did_finish, wait, spawns,
  shuts_down, finishes, waits, Reach, here, next, build, set_token_registry, Params,
}
use fuchsia_storage.Vfs.Scope.Runs.{finish_all, waiter_notified}

-- A task that a waiter waits for, and the scope once it was told to stop and has finished.
abbrev waited : Executor
waited = wait (run_abort_with_shutdown idle 0) 5

waited-Reach : Reach idle waited
unfolding lookup
waited-Reach = next (next here (spawns idle 0 refl)) (waits (run_abort_with_shutdown idle 0) 5)

abbrev done : Executor
done = task_did_finish (shutdown waited) 0

done-Reach : Reach waited done
unfolding shutdown wait run_abort_with_shutdown lookup insert remove
done-Reach = next (next here (shuts_down waited)) (finishes (shutdown waited) 0 false refl)

finished : done ≡ record { running = []; waiters = []; told = 0 ∷ []; notified = 5 ∷ [] }
unfolding task_did_finish shutdown wait run_abort_with_shutdown insert remove
finished = refl

registry_set_twice :
    (p : Params ℕ ℕ ℕ) → set_token_registry build 1 ≡ some p → set_token_registry p 2 ≡ none
unfolding set_token_registry build
registry_set_twice p h = ground arith

-- A second task comes in, after the scope was told to stop.
abbrev joined : Executor
joined = run_abort_with_shutdown (shutdown waited) 3

joined-Reach : Reach waited joined
unfolding shutdown wait run_abort_with_shutdown lookup insert remove
joined-Reach = next (next here (shuts_down waited)) (spawns (shutdown waited) 3 refl)

waiter_notified_example :
    (is_empty (finish_all 2 joined).running ≡ true)
    × (member 5 (finish_all 2 joined).notified ≡ true)
unfolding wait run_abort_with_shutdown insert remove shutdown
waiter_notified_example = waiter_notified 5 waited-Reach refl joined-Reach
