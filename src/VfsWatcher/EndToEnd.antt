-- ===== src/VfsWatcher/EndToEnd.antt =====
-- From a directory's event to the messages of a client:
-- src/lib/storage/vfs/rust/src/directory/watchers.rs, watchers/event_producers.rs and watcher.rs,
-- and src/lib/storage/fuchsia-vfs-watcher/src/lib.rs.
use fuchsia_storage.Shared.{
  ℕ, zero, suc, ◌+◌, ◌≤◌, Bool, true, false, List, [], ◌∷◌, ◌++◌, ◌||◌, map, length, get_elem?,
  Option, some, ◌≡◌, ◌∙◌, refl, sym, ap, inl, inr,
}
use fuchsia_storage.Vfs.Watchers.{
  Name, WatchEvent, EventProducer, Command, send, disconnect, Controller, new_static, send_event,
}
use fuchsia_storage.Vfs.Watchers.Groups.{encode_all}
use fuchsia_storage.Vfs.Watchers.Delivery.{wants, any_wants, give, give_if}
use fuchsia_storage.Vfs.Watchers.Events.{AreShort, Delivered, send_event-Delivered}
use fuchsia_storage.VfsWatcher.{Incoming, message, pending, new_watcher, poll_times}
use fuchsia_storage.VfsWatcher.Messages.{about, poll_times-Groups}

-- The task of a watcher writes the buffers of its commands to the channel, up to a disconnection.
unfoldable pub written : List Command → List Incoming
written [] = []
written (send buf ∷ commands) = message buf ∷ written commands
written (disconnect ∷ commands) = []

written-sent : (bufs : List (List ℕ)) → written (map send bufs) ≡ map message bufs
unfolding written
written-sent [] = refl
written-sent (buf ∷ bufs) = ap (λ (l : List Incoming). message buf ∷ l) (written-sent bufs)

any_wants-get_elem? :
    (event : WatchEvent) (cs : List Controller) (i : ℕ) (c : Controller)
    → get_elem? cs i ≡ some c
    → wants event c ≡ true
    → any_wants event cs ≡ true
unfolding any_wants
any_wants-get_elem? event [] i c h w = cc
any_wants-get_elem? event (d ∷ cs) zero c h w = let same : d ≡ c = cc in rw (same, w) refl
any_wants-get_elem? event (d ∷ cs) (suc i) c h w =
    rw (any_wants-get_elem? event cs i c h w) (or_true (wants event d))
  where
    or_true : (b : Bool) → (b || true) ≡ true
    or_true true = refl
    or_true false = refl

get_elem?-map :
    (f : Controller → Controller) (cs : List Controller) (i : ℕ) (c : Controller)
    → get_elem? cs i ≡ some c
    → get_elem? (map f cs) i ≡ some (f c)
get_elem?-map f [] i c h = cc
get_elem?-map f (d ∷ cs) zero c h = let same : d ≡ c = cc in rw same refl
get_elem?-map f (d ∷ cs) (suc i) c h = get_elem?-map f cs i c h

module _ (max_buf : ℕ) (code : WatchEvent → ℕ) where
  -- What a client that has read nothing yet, of the i-th watcher, then reads.
  abbrev pub Reads : WatchEvent → List Name → ℕ → Option (EventProducer × List Controller) → Type 0
  Reads event names i result =
      (q : EventProducer) × (out : List Controller) × (c : Controller) × (result ≡ some (q, out))
      × (get_elem? out i ≡ some c)
      × (poll_times (length names + 1) new_watcher (written c.commands)
          ≡ map (about code event) names ++ pending ∷ [])

  Delivered-Reads :
      (event : WatchEvent) (names : List Name) (cs : List Controller) (i : ℕ) (c : Controller)
      (result : Option (EventProducer × List Controller)) (q : EventProducer)
      (out : List Controller)
      → AreShort names
      → get_elem? cs i ≡ some c
      → wants event c ≡ true
      → c.connected ≡ true
      → c.commands ≡ []
      → result ≡ some (q, out)
      → Delivered max_buf code event names cs out
      → Reads event names i result
  unfolding give give_if new_watcher encode_all
  Delivered-Reads event names cs i c result q out short at w on quiet done (inl (n, e)) =
      absurd (let t : true ≡ false = sym (any_wants-get_elem? event cs i c at w) ∙ n in cc)
  Delivered-Reads event names cs i c result q out short at w on quiet done (inr (bufs, groups, e)) =
      (
        q,
        out,
        give event bufs c,
        done,
        rw e (get_elem?-map (give event bufs) cs i c at),
        simp (w, on, quiet, written-sent bufs)
            (poll_times-Groups code event max_buf new_watcher groups short
              (record { left = refl; started = λ z. refl })),
      )

  -- An event with n names of up to 255 bytes, and a buffer of at least 257: it ends within n + 1
  -- rounds, and a client whose watcher is for the event, whose task takes commands and has none
  -- yet, reads the names, each once and in their order, and then waits; none of its polls panics.
  pub send_event-poll_times :
      (event : WatchEvent) (names : List Name) (cs : List Controller) (i : ℕ) (c : Controller)
      → 257 ≤ max_buf
      → AreShort names
      → get_elem? cs i ≡ some c
      → wants event c ≡ true
      → c.connected ≡ true
      → c.commands ≡ []
      → Reads event names i
          (send_event max_buf code (suc (length names)) (new_static event names) cs)
  send_event-poll_times event names cs i c big short at w on quiet =
      let (q, out, done, delivered) = send_event-Delivered max_buf code event names cs big short in
      Delivered-Reads event names cs i c
        (send_event max_buf code (suc (length names)) (new_static event names) cs) q out short at w
        on quiet done delivered
