-- ===== src/Vfs/Directory/Simple/Reading.antt =====
-- Reading a directory in pieces: `read_dirents` of
-- src/lib/storage/vfs/rust/src/directory/simple.rs, with the positions of
-- directory/traversal_position.rs and any implementation of the sink of directory/dirents_sink.rs.
use fuchsia_storage.Shared.{ℕ, [], ◌∷◌, ◌++◌, Option, none, some, ◌≡◌, refl, inl, inr, ◌⊎◌, ap}
use fuchsia_storage.Vfs.Directory.Entries.{Name, EntryInfo, directory, Entry, Entries, range_from}
use fuchsia_storage.Vfs.Directory.Simple.{Inner}

-- `TraversalPosition`. `Index` is `unreachable!()` here.
pub data Position : Type 0 where
  start : Position
  at_name : Name → Position
  at_index : ℕ → Position
  end : Position

-- `AppendResult`
pub data AppendResult (S D : Type 0) : Type 0 where
  ok_sink : S → AppendResult S D
  sealed : D → AppendResult S D

-- The traits `Sink` and `Sealed`: `S` is an open sink and `D` a sealed one.
pub record SinkOps (S D : Type 0) : Type 0 where
  pub append : S → EntryInfo → Name → AppendResult S D
  pub seal : S → D

abbrev pub dot : Name
dot = b'.' ∷ []

module _ {S D : Type 0} (ops : SinkOps S D) where
  abbrev next_entry : (S → Position × D) → Name → AppendResult S D → Position × D
  next_entry rest name (ok_sink sink) = rest sink
  next_entry rest name (sealed done) = (at_name name, done)

  -- The loop over the entries.
  unfoldable pub read_loop : Entries → S → Position × D
  read_loop [] sink = (end, ops.seal sink)
  read_loop ((name, entry) ∷ m) sink =
      next_entry (read_loop m) name (ops.append sink entry.info name)

  abbrev pub first_name : Entries → Position
  first_name [] = end
  first_name ((name, entry) ∷ m) = at_name name

  abbrev pub after_dot : Entries → AppendResult S D → Position × D
  after_dot m (ok_sink sink) = read_loop m sink
  after_dot m (sealed done) = (first_name m, done)

  -- `none` stands for the `unreachable!()` of an index.
  unfoldable pub read_dirents : Inner → ℕ → Position → S → Option (Position × D)
  unfolding read_loop
  read_dirents s inode start sink = some (
      after_dot s.entries (ops.append sink (record { inode = inode; dirent_type = directory }) dot))
  read_dirents s inode (at_name name) sink = some (read_loop (range_from name s.entries) sink)
  read_dirents s inode (at_index i) sink = none
  read_dirents s inode end sink = some (end, ops.seal sink)

  -- The sink accepts each of the entries.
  pub data Feeds : Entries → S → S → Type 0 where
    fed_none : {sink : S} → Feeds [] sink sink
    fed_one :
        {name : Name} {entry : Entry} {m : Entries} {sink sink' last : S}
        → ops.append sink entry.info name ≡ ok_sink sink'
        → Feeds m sink' last
        → Feeds ((name, entry) ∷ m) sink last

  -- A read of the entries `m` from `sink`: the sink took those in `taken`; either that was all and
  -- the sink was sealed, or it refused the first of the `left` ones, where the position now stands.
  pub record Reads (m : Entries) (sink : S) (result : Position × D) : Type 0 where
    pub taken : Entries
    pub left : Entries
    pub last : S
    pub all : m ≡ taken ++ left
    pub feeds : Feeds taken sink last
    pub stops :
        ((left ≡ []) × (result ≡ (end, ops.seal last)))
        ⊎ ((name : Name) × (entry : Entry) × (rest : Entries) × (left ≡ (name, entry) ∷ rest)
            × (ops.append last entry.info name ≡ sealed result.1)
            × (result.0 ≡ at_name name))

  pub read_loop-Reads : (m : Entries) (sink : S) → Reads m sink (read_loop m sink)
  unfolding read_loop
  read_loop-Reads [] sink = record {
    taken = [];
    left = [];
    last = sink;
    all = refl;
    feeds = fed_none;
    stops = inl (refl, refl);
  }
  read_loop-Reads ((name, entry) ∷ m) sink =
      go (ops.append sink entry.info name) refl (λ sink'. read_loop-Reads m sink')
    where
      go :
          (r : AppendResult S D)
          → ops.append sink entry.info name ≡ r
          → ((sink' : S) → Reads m sink' (read_loop m sink'))
          → Reads ((name, entry) ∷ m) sink (next_entry (read_loop m) name r)
      go (sealed done) e ih = record {
        taken = [];
        left = (name, entry) ∷ m;
        last = sink;
        all = refl;
        feeds = fed_none;
        stops = inr (name, entry, m, refl, e, refl);
      }
      go (ok_sink sink') e ih =
          let r = ih sink' in
          record {
            taken = (name, entry) ∷ r.taken;
            left = r.left;
            last = r.last;
            all = ap (λ l. (name, entry) ∷ l) r.all;
            feeds = fed_one e r.feeds;
            stops = r.stops;
          }
