-- ===== src/Vfs/File/VmoFile/Counted.antt =====
-- The count of the connections to a VMO file, in every order of events:
-- src/lib/storage/vfs/rust/src/file/vmo/connection/io1.rs.
use fuchsia_storage.Shared.{
  ℕ, suc, ◌+◌, ◌^◌, ◌%◌, ◌<◌, List, [], ◌∷◌, ◌++◌, length, ◌≡◌, ◌∙◌, refl, arith, sym, subst,
  length-append,
}
use fuchsia_storage.Vfs.Flags.{FioConstants}
use fuchsia_storage.Vfs.Common.{ModeBits}
use fuchsia_storage.Vfs.File.VmoFile.Kernel.{VmoCalls, SizeLaws, size_limit}
use fuchsia_storage.Vfs.File.VmoFile.{
  Initialized, VmoFileState, uninitialized, initialized, VmoFile, VmoFileConnection,
}
use fuchsia_storage.Vfs.File.VmoFile.Open.{
  Opened, connected, abandoned, Served, continues, ended, aborted, handle_event,
}
use fuchsia_storage.Vfs.File.Connection.Requests.{Event}
use fuchsia_storage.Vfs.File.VmoFile.Requests.{NodeAttributes}
use fuchsia_storage.Vfs.File.VmoFile.Valid.{IsSized}
use fuchsia_storage.Vfs.File.VmoFile.Handlers.{KeepsRound}
use fuchsia_storage.Vfs.File.VmoFile.Rounds.{handle_event-KeepsRound}
use fuchsia_storage.Vfs.File.VmoFile.Ensured.{IsFrom, Opens, IsKept}
use fuchsia_storage.Vfs.File.VmoFile.Opening.{create_connection-Opens}
use fuchsia_storage.Vfs.File.VmoFile.System.{
  System, Step, open_refused, open_connected, open_abandoned, served, closes, aborts, Reach, here,
  next, new_file,
}

abbrev pub AllBelow : List VmoFileConnection → Type 0
AllBelow [] = Unit {0}
AllBelow (c ∷ cs) = (c.seek < size_limit) × AllBelow cs

pub AllBelow-append :
    (before after : List VmoFileConnection) (c : VmoFileConnection)
    → AllBelow (before ++ c ∷ after)
    → AllBelow before × (c.seek < size_limit) × AllBelow after
AllBelow-append [] after c h = (tt, h.0, h.1)
AllBelow-append (b ∷ before) after c h =
    let rest = AllBelow-append before after c h.1 in ((h.0, rest.0), rest.1, rest.2)

append-AllBelow :
    (before after : List VmoFileConnection)
    → AllBelow before
    → AllBelow after
    → AllBelow (before ++ after)
append-AllBelow [] after hb ha = ha
append-AllBelow (b ∷ before) after hb ha = (hb.0, append-AllBelow before after hb.1 ha)

no_middle :
    (before after : List VmoFileConnection) (c : VmoFileConnection) → [] ≡ before ++ c ∷ after → ⊥
no_middle [] after c h = cc
no_middle (b ∷ before) after c h = cc

module _ {V H : Type 0} (calls : VmoCalls V H) (laws : SizeLaws calls) where
  -- A file with no VMO has no connection. One with a VMO knows its sizes, has its connections at
  -- positions below 2^63, and counts, in 64 bits, those and the ones that were not closed.
  abbrev pub IsConsistent : VmoFileState V → List VmoFileConnection → ℕ → Type 0
  IsConsistent uninitialized live leaked = (live ≡ []) × (leaked ≡ 0)
  IsConsistent (initialized s) live leaked =
      IsSized calls laws s × AllBelow live × (s.connection_count ≡ (length live + leaked) % 2 ^ 64)

  pub IsConsistent-IsKept :
      (state : VmoFileState V) (live : List VmoFileConnection) (leaked : ℕ)
      → IsConsistent state live leaked
      → IsKept calls laws state
  IsConsistent-IsKept uninitialized live leaked h = tt
  IsConsistent-IsKept (initialized s) live leaked h = h.0

  refused-IsConsistent :
      (old state : VmoFileState V) (live : List VmoFileConnection) (leaked : ℕ)
      → IsConsistent old live leaked
      → IsFrom calls laws old state
      → IsConsistent state live leaked
  refused-IsConsistent uninitialized uninitialized live leaked h f = h
  refused-IsConsistent (initialized s) uninitialized live leaked h f = elim f [ ]
  refused-IsConsistent uninitialized (initialized t) live leaked (e, z) f =
      (f.0, subst AllBelow (sym e) tt, rw (e, z) f.1)
  refused-IsConsistent (initialized s) (initialized t) live leaked h f =
      (f.sized, h.1, f.count_kept ∙ h.2)

  connected-IsConsistent :
      (old state : VmoFileState V) (live : List VmoFileConnection) (leaked : ℕ)
      (c : VmoFileConnection)
      → IsConsistent old live leaked
      → Opens calls laws old state (connected c)
      → IsConsistent state (c ∷ live) leaked
  connected-IsConsistent old uninitialized live leaked c h f = elim f [ ]
  connected-IsConsistent uninitialized (initialized t) live leaked c (e, z) f =
      (f.0.0, (omega (arith, f.1), subst AllBelow (sym e) tt), rw (e, z) f.0.1)
  connected-IsConsistent (initialized s) (initialized t) live leaked c h f =
      (f.0.sized, (omega (arith, f.1), h.1), omega (arith, f.0.count_kept, h.2))

  abandoned-IsConsistent :
      (old state : VmoFileState V) (live : List VmoFileConnection) (leaked : ℕ)
      → IsConsistent old live leaked
      → Opens calls laws old state abandoned
      → IsConsistent state live (suc leaked)
  abandoned-IsConsistent old uninitialized live leaked h f = elim f [ ]
  abandoned-IsConsistent uninitialized (initialized t) live leaked (e, z) f =
      (f.0, subst AllBelow (sym e) tt, rw (e, z) f.1)
  abandoned-IsConsistent (initialized s) (initialized t) live leaked h f =
      (f.sized, h.1, omega (arith, f.count_kept, h.2))

  abbrev After :
      VmoFileState V → Served → List VmoFileConnection → List VmoFileConnection → ℕ → Type 0
  After state (continues c) before after leaked = IsConsistent state (before ++ c ∷ after) leaked
  After state ended before after leaked = IsConsistent state (before ++ after) leaked
  After state aborted before after leaked = IsConsistent state (before ++ after) (suc leaked)

  length-middle :
      (before after : List VmoFileConnection) (c : VmoFileConnection)
      → length (before ++ c ∷ after) ≡ suc (length before + length after)
  length-middle before after c = omega (arith, length-append {0} before (c ∷ after))

  round-After :
      (s : Initialized V) (state : VmoFileState V) (r : Served)
      (before after : List VmoFileConnection) (c : VmoFileConnection) (leaked : ℕ)
      → IsConsistent (initialized s) (before ++ c ∷ after) leaked
      → KeepsRound calls laws s state r
      → After state r before after leaked
  round-After s uninitialized r before after c leaked h f = elim f [ ]
  round-After s (initialized t) (continues c') before after c leaked h f =
      let parts = AllBelow-append before after c h.1 in
      (
        f.0.sized,
        append-AllBelow before (c' ∷ after) parts.0 (f.1, parts.2),
        omega (
          arith,
          f.0.count_kept,
          h.2,
          length-middle before after c,
          length-middle before after c',
        ),
      )
  round-After s (initialized t) ended before after c leaked h f =
      let parts = AllBelow-append before after c h.1 in
      (
        f.sized,
        append-AllBelow before after parts.0 parts.2,
        omega (
          arith,
          f.count_kept,
          h.2,
          length-middle before after c,
          length-append {0} before after,
        ),
      )
  round-After s (initialized t) aborted before after c leaked h f =
      let parts = AllBelow-append before after c h.1 in
      (
        f.sized,
        append-AllBelow before after parts.0 parts.2,
        omega (
          arith,
          f.count_kept,
          h.2,
          length-middle before after c,
          length-append {0} before after,
        ),
      )

  module _ (k : FioConstants) (bits : ModeBits) (mode_type_file : ℕ) (file : VmoFile) where
    served-After :
        (old state : VmoFileState V) (r : Served) (live before after : List VmoFileConnection)
        (c : VmoFileConnection) (leaked : ℕ) (event : Event NodeAttributes)
        → IsConsistent old live leaked
        → live ≡ before ++ c ∷ after
        → handle_event calls k file bits mode_type_file c old event ≡ (state, r)
        → After state r before after leaked
    served-After uninitialized state r live before after c leaked event h e q =
        absurd (no_middle before after c (sym h.0 ∙ e))
    served-After (initialized s) state r live before after c leaked event h e q =
        let h' : IsConsistent (initialized s) (before ++ c ∷ after) leaked =
          subst (λ l. IsConsistent (initialized s) l leaked) e h in
        let below = (AllBelow-append before after c h'.1).1 in
        round-After s state r before after c leaked h' (
          subst (λ (x : VmoFileState V × Served). KeepsRound calls laws s x.0 x.1) q
            (handle_event-KeepsRound calls laws k bits mode_type_file file c s event h.0 below))

    pub Step-IsConsistent :
        {s t : System V}
        → Step calls k bits mode_type_file file s t
        → IsConsistent s.state s.live s.leaked
        → IsConsistent t.state t.live t.leaked
    Step-IsConsistent {s} (open_refused flags server_end init state e q) h =
        let kept = IsConsistent-IsKept s.state s.live s.leaked h in
        refused-IsConsistent s.state state s.live s.leaked h (
          subst (λ (x : VmoFileState V × Opened). Opens calls laws s.state x.0 x.1) q
            (create_connection-Opens calls laws k file s.state flags server_end init kept))
    Step-IsConsistent {s} (open_connected flags server_end init state c q) h =
        let kept = IsConsistent-IsKept s.state s.live s.leaked h in
        connected-IsConsistent s.state state s.live s.leaked c h (
          subst (λ (x : VmoFileState V × Opened). Opens calls laws s.state x.0 x.1) q
            (create_connection-Opens calls laws k file s.state flags server_end init kept))
    Step-IsConsistent {s} (open_abandoned flags server_end init state q) h =
        let kept = IsConsistent-IsKept s.state s.live s.leaked h in
        abandoned-IsConsistent s.state state s.live s.leaked h (
          subst (λ (x : VmoFileState V × Opened). Opens calls laws s.state x.0 x.1) q
            (create_connection-Opens calls laws k file s.state flags server_end init kept))
    Step-IsConsistent {s} (served before after c c' event state e q) h =
        served-After s.state state (continues c') s.live before after c s.leaked event h e q
    Step-IsConsistent {s} (closes before after c event state e q) h =
        served-After s.state state ended s.live before after c s.leaked event h e q
    Step-IsConsistent {s} (aborts before after c event state e q) h =
        served-After s.state state aborted s.live before after c s.leaked event h e q

    -- In every order of opens and rounds of its connections a VMO file, from a new one on, knows
    -- the size of its VMO, has no connection before it has a VMO and none at a position past 63
    -- bits, and counts, in 64 bits, its connections and those that ended without being closed.
    pub Reach-IsConsistent :
        {t : System V}
        → Reach calls k bits mode_type_file file new_file t
        → IsConsistent t.state t.live t.leaked
    Reach-IsConsistent here = (refl, refl)
    Reach-IsConsistent (next r st) = Step-IsConsistent st (Reach-IsConsistent r)
