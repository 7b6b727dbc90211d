-- ===== src/Vfs/Registry/Token.antt =====
-- The token registry: src/lib/storage/vfs/rust/src/registry/token_registry.rs. A container is the
-- number that its address is. The kernel's part in a call is the parameter `Kernel`; which
-- containers are alive, so that a `Weak` can be upgraded, is the test `alive`. A call is one
-- critical section of the mutex, which no other call has poisoned.
pub mod RoundTrip
use fuchsia_storage.Shared.{
  ℕ, Bool, List, [], Option, none, some, ◌≡◌, lookup, insert, remove, if◌then◌else◌,
}
use fuchsia_storage.Vfs.Status.{Result, ok, err, ◌>>=◌}

-- What the kernel answers during a call: the handle of a new event, and of any handle its kernel
-- object id and a duplicate with `DEFAULT_TOKEN_RIGHTS`.
pub record Kernel : Type 0 where
  pub create : Result ℕ
  pub get_koid : ℕ → Result ℕ
  pub duplicate_handle : ℕ → Result ℕ

-- What Zircon documents of a duplicate: it refers to the same kernel object.
pub record KernelLaws (k : Kernel) : Type 0 where
  pub same_object : (h t : ℕ) → k.duplicate_handle h ≡ ok t → k.get_koid t ≡ k.get_koid h

-- `Inner`
pub record Inner : Type 0 where
  pub container_to_token : List (ℕ × ℕ)
  pub token_to_container : List (ℕ × ℕ)

-- `Simple::new`
unfoldable pub new : Inner
new = record { container_to_token = []; token_to_container = [] }

-- The insertion that ends the `None` arm of `get_token`, once the three kernel calls succeed.
unfoldable pub record_token : Inner → ℕ → ℕ → ℕ → Inner
record_token s container handle koid = record {
  container_to_token = insert container handle s.container_to_token;
  token_to_container = insert koid container s.token_to_container;
}

-- A failed kernel call returns its status and leaves the state.
unfoldable pub settle : Inner → ℕ → Result (ℕ × ℕ × ℕ) → Inner × Result ℕ
unfolding record_token
settle s container (ok (handle, koid, res)) = (record_token s container handle koid, ok res)
settle s container (err e) = (s, err e)

-- `Event::create()?`, `handle.get_koid()?`, `handle.duplicate_handle(…)?`.
unfoldable pub create_token : Kernel → Result (ℕ × ℕ × ℕ)
create_token k = k.create >>= λ handle.
    k.get_koid handle >>= λ koid. k.duplicate_handle handle >>= λ res. ok (handle, koid, res)

unfoldable pub get_or_create : Kernel → Inner → ℕ → Option ℕ → Inner × Result ℕ
unfolding settle create_token
get_or_create k s container (some handle) = (s, k.duplicate_handle handle)
get_or_create k s container none = settle s container (create_token k)

unfoldable pub get_token : Kernel → Inner → ℕ → Inner × Result ℕ
unfolding get_or_create
get_token k s container = get_or_create k s container (lookup container s.container_to_token)

-- `container.upgrade()`
unfoldable pub upgrade : (ℕ → Bool) → Option ℕ → Option ℕ
upgrade alive none = none
upgrade alive (some container) = if alive container then some container else none

unfoldable pub get_container : Kernel → (ℕ → Bool) → Inner → ℕ → Result (Option ℕ)
unfolding upgrade
get_container k alive s token =
    k.get_koid token >>= λ koid. ok (upgrade alive (lookup koid s.token_to_container))

-- The removal of the second entry; a failed `get_koid` leaves it.
unfoldable pub forget_token : Inner → Result ℕ → Inner
forget_token s (ok koid) = record s { token_to_container = remove koid s.token_to_container }
forget_token s (err e) = s

unfoldable pub forget : Kernel → Inner → ℕ → Option ℕ → Inner
unfolding forget_token
forget k s container none = s
forget k s container (some handle) =
    forget_token (record s { container_to_token = remove container s.container_to_token })
      (k.get_koid handle)

unfoldable pub unregister : Kernel → Inner → ℕ → Inner
unfolding forget
unregister k s container = forget k s container (lookup container s.container_to_token)
