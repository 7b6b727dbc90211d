-- ===== src/VfsWatcher.antt =====
-- The client of a directory watcher: src/lib/storage/fuchsia-vfs-watcher/src/lib.rs. The channel is
-- the messages that are in it.
pub mod Messages
pub mod EndToEnd
mod Tests
use fuchsia_storage.Shared.{
  ℕ, zero, suc, ◌+◌, Bool, true, false, List, [], ◌∷◌, length, take, drop, Option, none, some, ltb,
  leb, ◌==◌, if◌then◌else◌,
}

-- `WatchMessage`, with the number of its event.
pub record WatchMessage : Type 0 where
  pub event : ℕ
  pub filename : List ℕ

-- `Watcher`, less its channel.
pub record Watcher : Type 0 where
  pub buf : List ℕ
  pub idx : ℕ

pub data Incoming : Type 0 where
  message : List ℕ → Incoming
  receive_error : Incoming

-- What a poll gives; a failed assertion is a panic.
pub data Polled : Type 0 where
  pending failed panicked : Polled
  item : WatchMessage → Polled

-- `VfsWatchMsg`: a byte for the event, one for the length of the name, and the name.
pub record VfsWatchMsg : Type 0 where
  pub event : ℕ
  pub namelen : ℕ
  pub name : List ℕ

abbrev pub header_size : ℕ
header_size = 2

unfoldable pub from_raw : List ℕ → Option VfsWatchMsg
from_raw [] = none
from_raw (event ∷ []) = none
from_raw (event ∷ namelen ∷ rest) =
    if ltb (header_size + length rest) (header_size + namelen)
    then none
    else some (record { event = event; namelen = namelen; name = take namelen rest })

unfoldable pub new_watcher : Watcher
new_watcher = record { buf = []; idx = 0 }

unfoldable pub reset_buf : Watcher → Watcher
reset_buf w = record { buf = []; idx = 0 }

-- The message, and the watcher past it; `expect` panics where there is none.
unfoldable pub read_msg : Watcher → Option VfsWatchMsg → Watcher × Polled
read_msg w none = (w, panicked)
read_msg w (some msg) = (
  record w { idx = w.idx + (header_size + msg.namelen) },
  item (record { event = msg.event; filename = msg.name }),
)

unfoldable pub get_next_msg : Watcher → Watcher × Polled
unfolding read_msg from_raw
get_next_msg w =
    if ltb w.idx (length w.buf) then read_msg w (from_raw (drop w.idx w.buf)) else (w, panicked)

unfoldable pub receive : Watcher → List Incoming → Watcher × List Incoming × Polled
unfolding get_next_msg
receive w [] = (w, [], pending)
receive w (receive_error ∷ channel) = (w, channel, failed)
receive w (message bytes ∷ channel) =
    let (w', polled) = get_next_msg (record w { buf = bytes }) in (w', channel, polled)

unfoldable pub read_or_receive : Watcher → List Incoming → Watcher × List Incoming × Polled
unfolding receive get_next_msg
read_or_receive w channel =
    if w.idx == 0
    then receive w channel
    else (let (w', polled) = get_next_msg w in (w', channel, polled))

-- `poll_next`
unfoldable pub poll_next : Watcher → List Incoming → Watcher × List Incoming × Polled
unfolding read_or_receive reset_buf
poll_next w channel = read_or_receive (if leb (length w.buf) w.idx then reset_buf w else w) channel

-- So many polls, one after the other.
unfoldable pub poll_times : ℕ → Watcher → List Incoming → List Polled
unfolding poll_next
poll_times zero w channel = []
poll_times (suc n) w channel =
    let (w', channel', polled) = poll_next w channel in polled ∷ poll_times n w' channel'
