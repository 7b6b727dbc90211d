-- ===== src/Vfs/Registry/Tests.antt =====
-- Tests of src/lib/storage/vfs/rust/src/registry.
use fuchsia_storage.Shared.{
  remove, insert, ℕ, ◌+◌, ◌%◌, ◌≡◌, refl, Bool, true, List, [], ◌∷◌, none, some, lookup, arith,
}
use fuchsia_storage.Vfs.Status.{ok, err, no_resources}
use fuchsia_storage.Vfs.Registry.Inode
use fuchsia_storage.Vfs.Registry.Token
use fuchsia_storage.Vfs.Registry.Inode.Unique.{IsUnique, run-new-IsUnique}
use fuchsia_storage.Vfs.Registry.Token.RoundTrip.{
  IsLinked, IsFresh, get_container-get_token, get_container-unregister,
}

-- A kernel whose next event is the handle 5, and which numbers kernel objects by handles modulo
-- 100.
abbrev kernel : Token.Kernel
kernel = record {
  create = ok 5;
  get_koid = λ h. ok (h % 100);
  duplicate_handle = λ h. ok (h % 100 + 200);
}

kernel-KernelLaws : Token.KernelLaws kernel
kernel-KernelLaws = record { same_object = λ h t e. ground arith }

-- The container 7 is registered with the handle 3, whose kernel object id is 3.
abbrev linked : Token.Inner
linked = record { container_to_token = (7, 3) ∷ []; token_to_container = (3, 7) ∷ [] }

linked-IsLinked : IsLinked kernel linked
unfolding lookup
linked-IsLinked = record {
  forth = λ c h e. (3, ground arith, ground arith);
  back = λ koid c e. (3, ground arith, ground arith);
}

linked-IsFresh : IsFresh kernel linked
unfolding lookup
linked-IsFresh = λ h koid e q. ground arith

abbrev always : ℕ → Bool
always container = true

-- A token for the container 8, which is not registered, is made of the new event.
made : (Token.get_token kernel linked 8).1 ≡ ok 205
unfolding Token.get_token lookup
made = refl

looked_up : Token.get_container kernel always linked 203 ≡ ok (some 7)
unfolding Token.get_container lookup
looked_up = refl

-- A failed `Event::create` registers nothing.
no_event :
    Token.get_token (record kernel { create = err no_resources }) linked 8
    ≡ (linked, err no_resources)
unfolding Token.get_token lookup
no_event = refl

get_container-get_token_example :
    Token.get_container kernel always (Token.get_token kernel linked 8).0 205 ≡ ok (some 8)
get_container-get_token_example =
    get_container-get_token kernel always linked 8 205 kernel-KernelLaws linked-IsFresh
      linked-IsLinked refl made

get_container-unregister_example :
    Token.get_container kernel always (Token.unregister kernel linked 7) 203 ≡ ok none
get_container-unregister_example =
    get_container-unregister kernel always linked 7 203 linked-IsLinked looked_up

abbrev history : List Inode.Call
history = Inode.gets 30 ∷ Inode.gets 20 ∷ Inode.unregisters 30 ∷ Inode.gets 30 ∷ []

inodes : (Inode.run Inode.new history).assigned ≡ (30, 2) ∷ (20, 1) ∷ []
unfolding Inode.run Inode.step Inode.get_inode Inode.unregister Inode.new lookup remove insert
inodes = refl

run-new-IsUnique_example : IsUnique (Inode.run Inode.new history)
run-new-IsUnique_example = run-new-IsUnique history (omega arith)

abbrev one_node : Inode.Inner
one_node = record { assigned = (20, 0) ∷ []; next_inode = 1 }
