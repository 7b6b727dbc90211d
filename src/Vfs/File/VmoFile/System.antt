-- ===== src/Vfs/File/VmoFile/System.antt =====
-- A VMO file with all its connections, which share its state:
-- src/lib/storage/vfs/rust/src/file/vmo/connection/io1.rs and asynchronous.rs. Opens and the rounds
-- of the connections come in any order; each holds the lock of the state. The description of a new
-- connection, for which the code takes the lock again, is taken in the step that counts it.
use fuchsia_storage.Shared.{ℕ, suc, List, [], ◌∷◌, ◌++◌, ◌≡◌}
use fuchsia_storage.Vfs.Status.{Status, Result}
use fuchsia_storage.Vfs.Flags.{OpenFlags, FioConstants}
use fuchsia_storage.Vfs.Common.{ModeBits}
use fuchsia_storage.Vfs.File.Connection.Requests.{Event}
use fuchsia_storage.Vfs.File.VmoFile.Kernel.{VmoCalls}
use fuchsia_storage.Vfs.File.VmoFile.{
  VmoFileState, uninitialized, NewVmo, VmoFile, VmoFileConnection,
}
use fuchsia_storage.Vfs.File.VmoFile.Requests.{NodeAttributes}
use fuchsia_storage.Vfs.File.VmoFile.Open.{
  refused, connected, abandoned, ServerEnd, continues, ended, aborted, create_connection,
  handle_event,
}

-- The file, its connections, and how many were counted and ended without being closed.
pub record System (V : Type 0) : Type 0 where
  pub state : VmoFileState V
  pub live : List VmoFileConnection
  pub leaked : ℕ

module _ {V H : Type 0} (calls : VmoCalls V H) (k : FioConstants) (bits : ModeBits)
    (mode_type_file : ℕ) (file : VmoFile) where
  pub data Step : System V → System V → Type 0 where
    open_refused :
        {s : System V} (flags : OpenFlags) (server_end : ServerEnd) (init : Result (NewVmo V))
        (state : VmoFileState V) (e : Status)
        → create_connection calls k file flags server_end init s.state ≡ (state, refused e)
        → Step s (record s { state = state })
    open_connected :
        {s : System V} (flags : OpenFlags) (server_end : ServerEnd) (init : Result (NewVmo V))
        (state : VmoFileState V) (c : VmoFileConnection)
        → create_connection calls k file flags server_end init s.state ≡ (state, connected c)
        → Step s (record s { state = state; live = c ∷ s.live })
    open_abandoned :
        {s : System V} (flags : OpenFlags) (server_end : ServerEnd) (init : Result (NewVmo V))
        (state : VmoFileState V)
        → create_connection calls k file flags server_end init s.state ≡ (state, abandoned)
        → Step s (record s { state = state; leaked = suc s.leaked })
    served :
        {s : System V} (before after : List VmoFileConnection) (c c' : VmoFileConnection)
        (event : Event NodeAttributes) (state : VmoFileState V)
        → s.live ≡ before ++ c ∷ after
        → handle_event calls k file bits mode_type_file c s.state event ≡ (state, continues c')
        → Step s (record s { state = state; live = before ++ c' ∷ after })
    closes :
        {s : System V} (before after : List VmoFileConnection) (c : VmoFileConnection)
        (event : Event NodeAttributes) (state : VmoFileState V)
        → s.live ≡ before ++ c ∷ after
        → handle_event calls k file bits mode_type_file c s.state event ≡ (state, ended)
        → Step s (record s { state = state; live = before ++ after })
    aborts :
        {s : System V} (before after : List VmoFileConnection) (c : VmoFileConnection)
        (event : Event NodeAttributes) (state : VmoFileState V)
        → s.live ≡ before ++ c ∷ after
        → handle_event calls k file bits mode_type_file c s.state event ≡ (state, aborted)
        → Step s (record s { state = state; live = before ++ after; leaked = suc s.leaked })

  pub data Reach (s : System V) : System V → Type 0 where
    here : Reach s s
    next : {t u : System V} → Reach s t → Step t u → Reach s u

abbrev pub new_file : {V : Type 0} → System V
new_file = record { state = uninitialized; live = []; leaked = 0 }
