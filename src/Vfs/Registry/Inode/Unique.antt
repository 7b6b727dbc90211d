-- ===== src/Vfs/Registry/Inode/Unique.antt =====
-- Uniqueness and stability of inodes: src/lib/storage/vfs/rust/src/registry/inode_registry.rs.
use fuchsia_storage.Shared.{
  ℕ, ◌+◌, ◌^◌, ◌<◌, ◌≤◌, ◌≡◌, List, [], ◌∷◌, Option, none, some, lookup, lookup-insert,
  lookup-remove, arith, length, Option-cases, ==_self, inl, inr,
}
use fuchsia_storage.Vfs.Registry.Inode.{
  Inner, new, get_or_assign, get_inode, unregister, Call, gets, unregisters, step, run,
}

-- Assigned inodes lie below the next one, and no two nodes share one.
pub record IsUnique (s : Inner) : Type 0 where
  pub below : (n i : ℕ) → lookup n s.assigned ≡ some i → i < s.next_inode
  pub apart : (m n i : ℕ) → lookup m s.assigned ≡ some i → lookup n s.assigned ≡ some i → m ≡ n

new-IsUnique : IsUnique new
unfolding new lookup
new-IsUnique = record { below = λ n i h. cc; apart = λ m n i h k. cc }

assign-IsUnique :
    (s : Inner) (node : ℕ) (o : Option ℕ)
    → s.next_inode + 1 < 2 ^ 64
    → IsUnique s
    → IsUnique (get_or_assign s node o).0
unfolding get_or_assign
assign-IsUnique s node (some i) room u = u
assign-IsUnique s node none room u = record {
  below = λ n i. rw lookup-insert (λ h. ground (arith, u.below n i));
  apart =
      λ m n i. simp lookup-insert (λ h k. ground (arith, u.below m i, u.below n i, u.apart m n i));
}

unregister-IsUnique : (s : Inner) (node : ℕ) → IsUnique s → IsUnique (unregister s node)
unfolding unregister
unregister-IsUnique s node u = record {
  below = λ n i. rw lookup-remove (λ h. ground (arith, u.below n i));
  apart = λ m n i. simp lookup-remove (λ h k. ground (arith, u.apart m n i));
}

next-step :
    (s : Inner) (c : Call) → s.next_inode + 1 < 2 ^ 64 → (step s c).next_inode ≤ s.next_inode + 1
unfolding step get_inode unregister
next-step s (gets n) h = ground arith
next-step s (unregisters n) h = omega arith

step-IsUnique :
    (s : Inner) (c : Call) → s.next_inode + 1 < 2 ^ 64 → IsUnique s → IsUnique (step s c)
unfolding step get_inode
step-IsUnique s (gets n) h u = assign-IsUnique s n (lookup n s.assigned) h u
step-IsUnique s (unregisters n) h u = unregister-IsUnique s n u

run-IsUnique :
    (s : Inner) (cs : List Call)
    → s.next_inode + length cs < 2 ^ 64
    → IsUnique s
    → IsUnique (run s cs)
unfolding run
run-IsUnique s [] h u = u
run-IsUnique s (c ∷ cs) h u =
    run-IsUnique (step s c) cs (omega (arith, next-step s c (omega arith)))
      (step-IsUnique s c (omega arith) u)

-- After any history of fewer than 2^64 calls, no two registered nodes have the same inode.
pub run-new-IsUnique : (cs : List Call) → length cs < 2 ^ 64 → IsUnique (run new cs)
unfolding new
run-new-IsUnique cs h = run-IsUnique new cs (omega arith) new-IsUnique

-- A node keeps its inode, and asking again changes nothing, until it is unregistered; the inode
-- that it is given afterwards is the next one.
pub get_inode_stable :
    (s : Inner) (node : ℕ)
    → (get_inode (get_inode s node).0 node ≡ get_inode s node)
      × ((get_inode (unregister s node) node).1 ≡ s.next_inode)
unfolding get_inode unregister get_or_assign
get_inode_stable s node = (first, simp (lookup-remove, ==_self))
  where
    first : get_inode (get_inode s node).0 node ≡ get_inode s node
    first = elim (Option-cases (lookup node s.assigned)) [
      | inl e ↦ rw (e, get_inode) (simp (lookup-insert, ==_self))
      | inr (i, e) ↦ rw (e, get_inode) (rw (e, get_inode))
    ]
