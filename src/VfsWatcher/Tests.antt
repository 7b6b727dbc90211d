-- ===== src/VfsWatcher/Tests.antt =====
-- An event and its watchers on concrete inputs.
use fuchsia_storage.Shared.{ℕ, true, false, List, [], ◌∷◌, refl, ◌≡◌, arith}
use fuchsia_storage.Vfs.Watchers.{
  Name, WatchEvent, Controller, intersects, mask_of, new_static, send_event,
}
use fuchsia_storage.Vfs.Watchers.Events.{EndsWith, send_event-Delivered}
use fuchsia_storage.VfsWatcher.EndToEnd.{Reads, send_event-poll_times}

abbrev code : WatchEvent → ℕ
code WatchEvent.deleted = 0
code WatchEvent.added = 1
code WatchEvent.removed = 2
code WatchEvent.existing = 3
code WatchEvent.idle = 4

abbrev names : List Name
names = (97 ∷ []) ∷ (98 ∷ 99 ∷ []) ∷ []

abbrev watcher : Controller
watcher = record {
  mask = record { deleted = false; added = true; removed = true; existing = false; idle = false };
  commands = [];
  connected = true;
}

abbrev other : Controller
other = record watcher {
  mask = record { deleted = false; added = false; removed = true; existing = false; idle = false };
}

watcher-wants : intersects watcher.mask (mask_of WatchEvent.added) ≡ true
unfolding intersects mask_of
watcher-wants = refl

send_event-Delivered_example :
    EndsWith 8192 code
      (send_event 8192 code 3 (new_static WatchEvent.added names) (other ∷ watcher ∷ []))
      WatchEvent.added
      names
      (other ∷ watcher ∷ [])
send_event-Delivered_example =
    send_event-Delivered 8192 code WatchEvent.added names (other ∷ watcher ∷ []) (omega arith)
      (omega arith)

send_event-poll_times_example :
    Reads 8192 code WatchEvent.added names 1
      (send_event 8192 code 3 (new_static WatchEvent.added names) (other ∷ watcher ∷ []))
send_event-poll_times_example =
    send_event-poll_times 8192 code WatchEvent.added names (other ∷ watcher ∷ []) 1 watcher
      (omega arith) (omega arith) refl watcher-wants refl refl
