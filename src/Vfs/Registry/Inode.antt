-- ===== src/Vfs/Registry/Inode.antt =====
-- The inode registry: src/lib/storage/vfs/rust/src/registry/inode_registry.rs. A node is the number
-- that its address is; the `Weak` beside an inode only keeps the address in use, and is not
-- modelled. A call is one critical section of the mutex, which no other call has poisoned.
pub mod Unique
use fuchsia_storage.Shared.{ℕ, ◌+◌, ◌%◌, ◌^◌, List, [], Option, none, some, lookup, insert, remove}

-- `Inner`
pub record Inner : Type 0 where
  pub assigned : List (ℕ × ℕ)
  pub next_inode : ℕ

-- `Simple::new`
unfoldable pub new : Inner
new = record { assigned = []; next_inode = 0 }

-- The two arms of the `match` of `get_inode`. `next_inode` is a `u64`.
unfoldable pub get_or_assign : Inner → ℕ → Option ℕ → Inner × ℕ
get_or_assign s node (some inode) = (s, inode)
get_or_assign s node none = (
  record s {
    assigned = insert node s.next_inode s.assigned;
    next_inode = (s.next_inode + 1) % 2 ^ 64;
  },
  s.next_inode,
)

unfoldable pub get_inode : Inner → ℕ → Inner × ℕ
unfolding get_or_assign
get_inode s node = get_or_assign s node (lookup node s.assigned)

-- A node that is not registered is a failed debug assertion and no change.
unfoldable pub unregister : Inner → ℕ → Inner
unregister s node = record s { assigned = remove node s.assigned }

-- Calls and their histories.
pub data Call : Type 0 where
  gets unregisters : ℕ → Call

unfoldable pub step : Inner → Call → Inner
step s (gets node) = (get_inode s node).0
step s (unregisters node) = unregister s node

unfoldable pub run : Inner → List Call → Inner
run s [] = s
run s (List.◌∷◌ c cs) = run (step s c) cs
