-- ===== src/Vfs/Open.antt =====
-- One step of `open` on a simple directory: src/lib/storage/vfs/rust/src/directory/simple.rs. What
-- the step comes to is its result: a connection to the directory itself, `open` on an entry with
-- the rest of the path, or an error, which the client is sent and the handler for names that are
-- not found is called with.
mod Tests
use fuchsia_storage.Shared.{Option, none, some}
use fuchsia_storage.Vfs.Status.{Status, Result, ok, err}
use fuchsia_storage.Vfs.Flags.{OpenFlags}
use fuchsia_storage.Vfs.Directory.Entries.{Name, Entry}
use fuchsia_storage.Vfs.Directory.Simple.{Inner, get_or_insert_entry}
use fuchsia_storage.Vfs.PathString.{PathString, next}

pub data OpenStep : Type 0 where
  connects_here : OpenStep
  opens : Entry → PathString → OpenStep
  not_found_at : Name → Status → OpenStep

abbrev opened_entry : Name → PathString → Inner × Result Entry → Inner × OpenStep
opened_entry name rest (s, ok entry) = (s, opens entry rest)
opened_entry name rest (s, err e) = (s, not_found_at name e)

-- `entry_not_found` is what `Connection::entry_not_found` answers for a name and the rest of the
-- path.
abbrev opened_name :
    Inner
    → OpenFlags
    → (Name → PathString → Result Entry)
    → PathString × Option Name
    → Inner × OpenStep
opened_name s flags entry_not_found (rest, none) = (s, connects_here)
opened_name s flags entry_not_found (rest, some name) =
    opened_entry name rest (get_or_insert_entry s flags name (entry_not_found name rest))

unfoldable pub open_step :
    Inner → OpenFlags → (Name → PathString → Result Entry) → PathString → Inner × OpenStep
unfolding next get_or_insert_entry
open_step s flags entry_not_found path = opened_name s flags entry_not_found (next path)
