-- ===== src/Vfs/Directory/Simple/Resume.antt =====
-- Reading a directory in pieces: src/lib/storage/vfs/rust/src/directory/simple.rs.
use mathlib.Core.List.{append_assoc}
use mathlib.Core.Option.{some-injective}
use fuchsia_storage.Shared.{
  ℕ, [], ◌∷◌, ◌++◌, some, ◌≡◌, refl, sym, subst, ◌∙◌, inl, inr, ◌⊎◌, ap, Bool-cases,
}
use fuchsia_storage.Vfs.Directory.Entries.{Name, directory, Entry, Entries, range_from, name_lt}
use fuchsia_storage.Vfs.Directory.Entries.Laws.{IsSorted, range_from-append}
use fuchsia_storage.Vfs.Directory.Simple.{Inner}
use fuchsia_storage.Vfs.Directory.Simple.Reading.{
  Position, start, at_name, at_index, end, AppendResult, ok_sink, sealed, SinkOps, dot,
  read_dirents, Feeds, fed_none, Reads, read_loop-Reads, first_name, after_dot,
}

-- The entries that a read from a position has still to show.
abbrev pub pending : Inner → Position → Entries
pending s start = s.entries
pending s (at_name k) = range_from k s.entries
pending s (at_index i) = []
pending s end = []

range_from-suffix : (k : Name) (m : Entries) → (before : Entries) × (m ≡ before ++ range_from k m)
unfolding range_from
range_from-suffix k [] = ([], refl)
range_from-suffix k ((j, e) ∷ m) = elim (Bool-cases (name_lt j k)) [
  | inl earlier ↦
      let (before, q) = range_from-suffix k m in
      ((j, e) ∷ before, rw earlier (ap (λ l. (j, e) ∷ l) q))
  | inr later ↦ ([], rw later)
]

module _ {S D : Type 0} (ops : SinkOps S D) (s : Inner) (sorted : IsSorted s.entries) where
  left_pending :
      (before taken rest : Entries) (n : Name) (x : Entry)
      → s.entries ≡ before ++ (taken ++ (n, x) ∷ rest)
      → range_from n s.entries ≡ (n, x) ∷ rest
  left_pending before taken rest n x part =
      let whole : s.entries ≡ (before ++ taken) ++ (n, x) ∷ rest = rw append_assoc part in
      ap (range_from n) whole
      ∙ range_from-append n x (before ++ taken) rest (subst IsSorted whole sorted)

  -- A read of the entries `m` from `sink` loses and repeats none of them: the sink took the first
  -- ones, in their order, and the others are pending at the new position. Either none is and the
  -- answer is the sink that took all, sealed; or the answer is what the sink gave when it refused
  -- the first that is pending, whose name is the new position.
  pub record LosesNothing (m : Entries) (sink : S) (result : Position × D) : Type 0 where
    pub taken : Entries
    pub last : S
    pub split : m ≡ taken ++ pending s result.0
    pub feeds : Feeds ops taken sink last
    pub stops :
        ((pending s result.0 ≡ []) × (result ≡ (end, ops.seal last)))
        ⊎ ((n : Name) × (x : Entry) × (rest : Entries) × (pending s result.0 ≡ (n, x) ∷ rest)
            × (ops.append last x.info n ≡ sealed result.1)
            × (result.0 ≡ at_name n))

  -- Where a read of the last part of the directory stops, the rest of that part is pending.
  stops_pending :
      (before m : Entries) (sink : S) (result : Position × D)
      → s.entries ≡ before ++ m
      → Reads ops m sink result
      → LosesNothing m sink result
  stops_pending before m sink result part r = elim r.stops [
    | inl (none_left, q) ↦
        let at_end : pending s result.0 ≡ [] = rw q refl in
        record {
          taken = r.taken;
          last = r.last;
          split = r.all ∙ ap (λ l. r.taken ++ l) (none_left ∙ sym at_end);
          feeds = r.feeds;
          stops = inl (at_end, q);
        }
    | inr (n, x, rest, l, refused, q) ↦
        let split : m ≡ r.taken ++ (n, x) ∷ rest = r.all ∙ ap (λ l. r.taken ++ l) l in
        let left : pending s result.0 ≡ (n, x) ∷ rest =
          rw q (left_pending before r.taken rest n x (rw (← split) part)) in
        record {
          taken = r.taken;
          last = r.last;
          split = split ∙ ap (λ l. r.taken ++ l) (sym left);
          feeds = r.feeds;
          stops = inr (n, x, rest, left, refused, q);
        }
  ]

  -- Where the entries are sorted, a read from a name that is given back loses and repeats nothing:
  -- the entries that the sink took, followed by those that are pending at the new position, are
  -- those that were pending at the old one, and the answer is that of the sink that took them.
  pub read_resumes :
      (inode : ℕ) (k : Name) (sink : S) (p : Position) (d : D)
      → read_dirents ops s inode (at_name k) sink ≡ some (p, d)
      → LosesNothing (pending s (at_name k)) sink (p, d)
  unfolding read_dirents
  read_resumes inode k sink p d e =
      let (before, part) = range_from-suffix k s.entries in
      stops_pending before (range_from k s.entries) sink (p, d) part
        (subst (Reads ops (range_from k s.entries) sink) (some-injective _ _ e)
          (read_loop-Reads ops (range_from k s.entries) sink))

  -- Where the entries are sorted, the first read either cannot take the directory's own entry, and
  -- then everything is pending, or goes on from the sink that took it, and again nothing is lost or
  -- repeated.
  pub read_starts :
      (inode : ℕ) (sink : S) (p : Position) (d : D)
      → read_dirents ops s inode start sink ≡ some (p, d)
      → (taken : Entries) × (first : S) × (last : S) × (s.entries ≡ taken ++ pending s p)
        × Feeds ops taken first last
        × ((taken ≡ [])
            ⊎ (ops.append sink (record { inode = inode; dirent_type = directory }) dot
                ≡ ok_sink first))
  unfolding read_dirents
  read_starts inode sink p d e =
      after (ops.append sink (record { inode = inode; dirent_type = directory }) dot) refl
        (some-injective _ _ e)
    where
      first_pending : (m : Entries) → s.entries ≡ m → s.entries ≡ pending s (first_name ops m)
      first_pending [] q = q
      first_pending ((n, x) ∷ m) q = q ∙ sym (left_pending [] [] m n x q)

      after :
          (r : AppendResult S D)
          → ops.append sink (record { inode = inode; dirent_type = directory }) dot ≡ r
          → after_dot ops s.entries r ≡ (p, d)
          → (taken : Entries) × (first : S) × (last : S) × (s.entries ≡ taken ++ pending s p)
            × Feeds ops taken first last
            × ((taken ≡ [])
                ⊎ (ops.append sink (record { inode = inode; dirent_type = directory }) dot
                    ≡ ok_sink first))
      after (sealed done) refused q = (
        [],
        sink,
        sink,
        first_pending s.entries refl ∙ ap (λ t. pending s t.0) q,
        fed_none,
        inl refl,
      )
      after (ok_sink sink') took q =
          let read =
            stops_pending [] s.entries sink' (p, d) refl
              (subst (Reads ops s.entries sink') q (read_loop-Reads ops s.entries sink')) in
          (read.taken, sink', read.last, read.split, read.feeds, inr took)
