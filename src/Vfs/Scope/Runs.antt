-- ===== src/Vfs/Scope/Runs.antt =====
-- What the waiters and the tasks of an execution scope are told:
-- src/lib/storage/vfs/rust/src/execution_scope.rs.
use mathlib.Core.List.{append-nil}
use fuchsia_storage.Shared.{
  ℕ, Bool, true, false, ◌||◌, List, [], ◌∷◌, ◌++◌, some, ◌≡◌, refl, sym, subst, ap, ◌∙◌, lookup,
  insert, remove, ◌==◌, member, member-append, arith, Bool-cases, inl, inr, ◌≤◌, length, zero, suc,
  ==_self,
}
use fuchsia_storage.Vfs.Scope.{
  Executor, idle, run_abort_with_shutdown, senders, take_senders, shutdown, is_empty,
  task_did_finish, wait, Step, spawns, shuts_down, finishes, waits, Reach, here, next,
}

-- A scope with no running task has no waiter.
abbrev pub IsQuiet : Executor → Type 0
IsQuiet s = is_empty s.running ≡ true → s.waiters ≡ []

take_senders-empty : (m : List (ℕ × Bool)) → is_empty (take_senders m) ≡ is_empty m
unfolding take_senders
take_senders-empty [] = refl
take_senders-empty (t ∷ m) = refl

Step-IsQuiet : {s t : Executor} → Step s t → IsQuiet s → IsQuiet t
unfolding run_abort_with_shutdown insert shutdown task_did_finish wait
Step-IsQuiet (spawns s task_id fresh) q = ground arith
Step-IsQuiet (shuts_down s) q = ground (arith, take_senders-empty s.running)
Step-IsQuiet (finishes s task_id sender there) q = ground arith
Step-IsQuiet (waits s waiter) q = ground arith

-- A step before a run.
Reach_first : {s t u : Executor} → Step s t → Reach t u → Reach s u
Reach_first st here = next here st
Reach_first st (next r st') = next (Reach_first st r) st'

Reach_then : {s t u : Executor} → Reach s t → Reach t u → Reach s u
Reach_then r here = r
Reach_then r (next r' st) = next (Reach_then r r') st

-- However tasks are started, stopped and finished and waiters come in, a scope that is new and has
-- come to have no running task has no waiter: none was forgotten.
pub Reach-IsQuiet : {s t : Executor} → Reach s t → IsQuiet s → IsQuiet t
Reach-IsQuiet here q = q
Reach-IsQuiet (next r st) q = Step-IsQuiet st (Reach-IsQuiet r q)

abbrev known : ℕ → Executor → Bool
known w s = member w s.waiters || member w s.notified

Step-known : {s t : Executor} (w : ℕ) → Step s t → known w s ≡ true → known w t ≡ true
unfolding run_abort_with_shutdown shutdown task_did_finish wait
Step-known w (spawns s task_id fresh) h = h
Step-known w (shuts_down s) h = h
Step-known w (finishes s task_id sender there) h =
    ground (arith, member-append w s.notified s.waiters)
Step-known w (waits s waiter) h = ground (arith, member-append w s.waiters (waiter ∷ []))

Reach-known : {s t : Executor} (w : ℕ) → Reach s t → known w s ≡ true → known w t ≡ true
Reach-known w here h = h
Reach-known w (next r st) h = Step-known w st (Reach-known w r h)

-- A waiter of a scope with a running task, or none, is sent to by the time that the scope has no
-- running task, whatever happens in between: tasks that are started, stopped or finished in any
-- order, and other waiters.
pub Reach-notified :
    {s t : Executor} (w : ℕ)
    → Reach s t
    → IsQuiet s
    → member w s.waiters ≡ true
    → is_empty t.running ≡ true
    → member w t.notified ≡ true
Reach-notified {s} {t} w r q h e =
    let none_left = Reach-IsQuiet r q e in
    let known_still : known w t ≡ true = Reach-known w r (ground arith) in
    ground (arith, ap (λ (x : List ℕ). member w x) none_left)

-- Nobody is sent to by a step that leaves a task running.
pub Step-notified :
    {s t : Executor} → Step s t → is_empty t.running ≡ false → t.notified ≡ s.notified
unfolding run_abort_with_shutdown shutdown task_did_finish wait
Step-notified (spawns s task_id fresh) h = refl
Step-notified (shuts_down s) h = refl
Step-notified (finishes s task_id sender there) h = ground arith
Step-notified (waits s waiter) h = ground arith

length-remove : (k : ℕ) (m : List (ℕ × Bool)) → length (remove k m) ≤ length m
unfolding remove
length-remove k [] = omega arith
length-remove k ((j, b) ∷ m) = ground (arith, length-remove k m)

first : (k : ℕ) (b : Bool) (m : List (ℕ × Bool)) → lookup k ((k, b) ∷ m) ≡ some b
unfolding lookup
first k b m = rw (==_self k) refl

shorter :
    (n : ℕ) (s : Executor) (k : ℕ) (b : Bool) (m : List (ℕ × Bool))
    → s.running ≡ (k, b) ∷ m
    → length ((k, b) ∷ m) ≤ suc n
    → length (task_did_finish s k).running ≤ n
unfolding task_did_finish remove
shorter n s k b m e l =
    let now : (task_did_finish s k).running ≡ remove k m = after e in
    omega (arith, ap (λ (x : List (ℕ × Bool)). length x) now, length-remove k m)
  where
    same_left : (task_did_finish s k).running ≡ remove k s.running
    same_left = ground arith

    dropped : remove k ((k, b) ∷ m) ≡ remove k m
    dropped = rw (==_self k) refl

    after : s.running ≡ (k, b) ∷ m → (task_did_finish s k).running ≡ remove k m
    after q = same_left ∙ ap (remove k) q ∙ dropped

-- Up to `n` tasks finish, each the first in the slab.
abbrev pub finish_all : ℕ → Executor → Executor
finish_all zero s = s
finish_all (suc n) s = elim s.running [
  | [] ↦ s
  | task ∷ tasks ↦ finish_all n (task_did_finish s task.0)
]

-- Those are steps of the scope, and after as many as there are tasks none is running.
finish_all-Reach :
    (n : ℕ) (s : Executor)
    → length s.running ≤ n
    → Reach s (finish_all n s) × (is_empty (finish_all n s).running ≡ true)
finish_all-Reach zero s l = (here, none_left s.running (omega arith))
  where
    none_left : (m : List (ℕ × Bool)) → length m ≤ 0 → is_empty m ≡ true
    none_left [] q = refl
    none_left (x ∷ m) q = absurd (omega arith)
finish_all-Reach (suc n) s l = by_running (finish_all-Reach n) s.running refl l
  where
    Finished : ℕ → Executor → Type 0
    Finished i x = Reach x (finish_all i x) × (is_empty (finish_all i x).running ≡ true)

    Done : Executor → Type 0
    Done x = Reach s x × (is_empty x.running ≡ true)

    go_on : List (ℕ × Bool) → Executor
    go_on [] = s
    go_on (task ∷ tasks) = finish_all n (task_did_finish s task.0)

    by_running :
        ((x : Executor) → length x.running ≤ n → Finished n x)
        → (m : List (ℕ × Bool)) → s.running ≡ m
        → length m ≤ suc n
        → Finished (suc n) s
    by_running ih [] e q = subst Done (sym (ap go_on e)) (here, ap is_empty e)
    by_running ih ((k, b) ∷ m) e q =
        let (run, done) = ih (task_did_finish s k) (shorter n s k b m e q) in
        let there : lookup k s.running ≡ some b = ap (lookup k) e ∙ first k b m in
        subst Done (sym (ap go_on e)) (Reach_first (finishes s k b there) run, done)

-- A waiter that comes into a scope, which was new once, is not forgotten, whatever happens after:
-- at any later time, once the tasks that run then have finished one after the other, no task is
-- running and the waiter has been sent to. So it has been already where no task is running.
pub waiter_notified :
    {s t : Executor} (w : ℕ)
    → Reach idle s
    → member w s.waiters ≡ true
    → Reach s t
    → (is_empty (finish_all (length t.running) t).running ≡ true)
      × (member w (finish_all (length t.running) t).notified ≡ true)
waiter_notified {s} {t} w r h later =
    let (run, done) = finish_all-Reach (length t.running) t (omega arith) in
    (done, Reach-notified w (Reach_then later run) (Reach-IsQuiet r (λ e. refl)) h done)

senders-take_senders : (m : List (ℕ × Bool)) → senders (take_senders m) ≡ []
unfolding senders take_senders
senders-take_senders [] = refl
senders-take_senders ((key, sender) ∷ m) = senders-take_senders m

take_senders_twice : (m : List (ℕ × Bool)) → take_senders (take_senders m) ≡ take_senders m
unfolding take_senders
take_senders_twice [] = refl
take_senders_twice ((key, sender) ∷ m) =
    ap (λ (x : List (ℕ × Bool)). (key, false) ∷ x) (take_senders_twice m)

lookup-take_senders :
    (k : ℕ) (m : List (ℕ × Bool)) (b : Bool)
    → lookup k m ≡ some b
    → lookup k (take_senders m) ≡ some false
unfolding lookup take_senders
lookup-take_senders k [] b h = cc
lookup-take_senders k ((j, sender) ∷ m) b h = elim (Bool-cases (j == k)) [
  | inl e ↦ rw e refl
  | inr e ↦ rw e (lookup-take_senders k m b (ground arith))
]

-- A second shutdown, by `shutdown` or by `Drop`, does nothing: every task is told once.
pub shutdown_twice : (s : Executor) → shutdown (shutdown s) ≡ shutdown s
unfolding shutdown
shutdown_twice s =
    rw (take_senders_twice s.running, senders-take_senders s.running)
      (rw (append-nil (s.told ++ senders s.running)) refl)

member-senders :
    (k : ℕ) (m : List (ℕ × Bool)) → lookup k m ≡ some true → member k (senders m) ≡ true
unfolding lookup senders
member-senders k [] h = cc
member-senders k ((j, sender) ∷ m) h = ground (arith, member-senders k m)

-- A shutdown tells every task that still has its sender, and keeps each of them in the slab, with
-- the sender taken, until it finishes.
pub shutdown_tells :
    (s : Executor) (task_id : ℕ)
    → lookup task_id s.running ≡ some true
    → (member task_id (shutdown s).told ≡ true) × (lookup task_id (shutdown s).running ≡ some false)
unfolding shutdown
shutdown_tells s task_id h = (
  ground
      (arith, member-append task_id s.told (senders s.running), member-senders task_id s.running h),
  lookup-take_senders task_id s.running true h,
)
