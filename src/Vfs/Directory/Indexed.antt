-- ===== src/Vfs/Directory/Indexed.antt =====
-- Reading by index: the helper `read_dirents` of
-- src/lib/storage/vfs/rust/src/directory/read_dirents.rs, for any sink. A name as the position,
-- which the code declares unreachable here, gives `none`.
use mathlib.Core.Option.{some-injective}
use fuchsia_storage.Shared.{
  ℕ, zero, suc, List, [], ◌∷◌, ◌++◌, Option, none, some, drop, ◌≡◌, refl, ap, sym, subst,
}
use fuchsia_storage.Vfs.Directory.Entries.{Name, EntryInfo, directory}
use fuchsia_storage.Vfs.Directory.Simple.Reading.{
  Position, start, at_name, at_index, end, AppendResult, ok_sink, sealed, SinkOps, dot,
}

-- `entries: &[(EntryInfo, String)]`
abbrev pub Listed : Type 0
Listed = List (EntryInfo × Name)

-- The inode of the directory itself is `INO_UNKNOWN`.
module _ {S D : Type 0} (ops : SinkOps S D) (unknown_inode : ℕ) where
  abbrev next_listed : (S → Position × D) → ℕ → AppendResult S D → Position × D
  next_listed rest i (ok_sink sink) = rest sink
  next_listed rest i (sealed done) = (at_index i, done)

  -- The loop from the index `i`, at which the entries `m` start.
  unfoldable pub listed_loop : ℕ → Listed → S → Position × D
  listed_loop i [] sink = (end, ops.seal sink)
  listed_loop i ((info, name) ∷ m) sink =
      next_listed (listed_loop (suc i) m) i (ops.append sink info name)

  abbrev after_first : Listed → AppendResult S D → Position × D
  after_first entries (ok_sink sink) = listed_loop 0 entries sink
  after_first entries (sealed done) = (start, done)

  unfoldable pub read_listed : Listed → Position → S → Option (Position × D)
  unfolding listed_loop
  read_listed entries start sink = some (
      after_first entries
        (ops.append sink (record { inode = unknown_inode; dirent_type = directory }) dot))
  read_listed entries (at_index i) sink = some (listed_loop i (drop i entries) sink)
  read_listed entries end sink = some (end, ops.seal sink)
  read_listed entries (at_name name) sink = none

  -- The entries that a read from a position has still to show.
  abbrev pub still_listed : Listed → Position → Listed
  still_listed entries start = entries
  still_listed entries (at_index i) = drop i entries
  still_listed entries (at_name name) = []
  still_listed entries end = []

  -- The sink accepts each of the entries.
  pub data Takes : Listed → S → S → Type 0 where
    takes_none : {sink : S} → Takes [] sink sink
    takes_one :
        {info : EntryInfo} {name : Name} {m : Listed} {sink sink' last : S}
        → ops.append sink info name ≡ ok_sink sink'
        → Takes m sink' last
        → Takes ((info, name) ∷ m) sink last

  -- A read of the entries `m` of the index `i` and after.
  abbrev ReadsFrom : Listed → ℕ → Listed → S → Position × D → Type 0
  ReadsFrom entries i m sink result =
      (taken : Listed) × (last : S) × (m ≡ taken ++ still_listed entries result.0)
      × Takes taken sink last

  drop_next :
      (entries : Listed) (i : ℕ) (e : EntryInfo × Name) (m : Listed)
      → drop i entries ≡ e ∷ m
      → drop (suc i) entries ≡ m
  drop_next [] zero e m h = cc
  drop_next [] (suc i) e m h = cc
  drop_next (x ∷ entries) zero e m h = cc
  drop_next (x ∷ entries) (suc i) e m h = drop_next entries i e m h

  listed_loop-ReadsFrom :
      (entries : Listed) (i : ℕ) (m : Listed) (sink : S)
      → drop i entries ≡ m
      → ReadsFrom entries i m sink (listed_loop i m sink)
  unfolding listed_loop
  listed_loop-ReadsFrom entries i [] sink h = ([], sink, refl, takes_none)
  listed_loop-ReadsFrom entries i ((info, name) ∷ m) sink h =
      go (ops.append sink info name) refl (λ sink'.
        listed_loop-ReadsFrom entries (suc i) m sink' (drop_next entries i (info, name) m h))
    where
      go :
          (r : AppendResult S D)
          → ops.append sink info name ≡ r
          → ((sink' : S) → ReadsFrom entries (suc i) m sink' (listed_loop (suc i) m sink'))
          → ReadsFrom entries i ((info, name) ∷ m) sink (next_listed (listed_loop (suc i) m) i r)
      go (sealed done) e rest = ([], sink, sym h, takes_none)
      go (ok_sink sink') e rest =
          let (taken, last, split, takes) = rest sink' in
          ((info, name) ∷ taken, last, ap (λ l. (info, name) ∷ l) split, takes_one e takes)

  -- A read from an index that was given back loses and repeats nothing: what the
  -- sink took, followed by what is pending at the new position, is what was pending at the old one.
  pub read_listed_resumes :
      (entries : Listed) (i : ℕ) (sink : S) (p : Position) (d : D)
      → read_listed entries (at_index i) sink ≡ some (p, d)
      → (taken : Listed) × (last : S) × (still_listed entries (at_index i)
          ≡ taken ++ still_listed entries p)
        × Takes taken sink last
  unfolding read_listed
  read_listed_resumes entries i sink p d h =
      let same : listed_loop i (drop i entries) sink ≡ (p, d) = some-injective _ _ h in
      subst (ReadsFrom entries i (drop i entries) sink) same
        (listed_loop-ReadsFrom entries i (drop i entries) sink refl)
