-- ===== src/Vfs/File/Connection/Laws.antt =====
-- What single requests on a file connection do:
-- src/lib/storage/vfs/rust/src/file/connection/io1.rs.
use fuchsia_storage.Shared.{
  ℕ, ◌+◌, ◌-◌, ◌%◌, ◌^◌, ◌≤◌, ◌<◌, Bool, true, false, not, List, ◌++◌, length, length-append,
  drop-drop, take, drop, length-take, take-add, le→ltb-false, if◌then◌else◌, ◌≡◌, refl, ap, sym,
  ◌∙◌, arith, ℤ,
}
use fuchsia_storage.Vfs.Status.{Result, ok, err, out_of_range, ◌>>=◌}
use fuchsia_storage.Vfs.Flags.{
  OpenFlags, intersects, only_right_readable, only_node_reference, only_truncate, FioConstants,
}
use fuchsia_storage.Vfs.File.Flags.{new_connection_validate_flags}
use fuchsia_storage.Vfs.File.Flags.Bounds.{IsAccepted, new_connection_validate_flags-IsAccepted}
use fuchsia_storage.Vfs.File.Connection.{
  File, FileConnection, SeekOrigin, start, current, end, handle_read_at, handle_read, handle_seek,
  advance, set_seek, seek_from_end, offset_from,
}
use fuchsia_storage.Vfs.File.Connection.Requests.{
  create_connection, open_validated, opened, truncated, describe_new, connect,
}
use fuchsia_storage.Vfs.File.Connection.Offsets.{
  pos_part, neg_part, offset_from_exact, offset_from_before, set_seek_lem, set_seek-none,
}

module _ {F Attrs Info Fs Vmo : Type 0} (file : File F Attrs Info Fs Vmo) (max_buf : ℕ) where
  -- A file whose reads return what `content` has at the offset, and change nothing.
  abbrev pub ReadsFrom : List ℕ → F → Type 0
  ReadsFrom content f =
      (offset size : ℕ) → file.read_at f offset size ≡ (f, ok (take size (drop offset content)))

  read_once :
      (c : FileConnection F) (content : List ℕ) (n : ℕ)
      → ReadsFrom content c.file
      → c.flags.right_readable ≡ true
      → n ≤ max_buf
      → c.seek + n < 2 ^ 64
      → handle_read file max_buf c n ≡ (
        record c { seek = c.seek + length (take n (drop c.seek content)) },
        ok (take n (drop c.seek content)),
      )
  unfolding handle_read handle_read_at advance
  read_once c content n r readable small low =
      let bytes = take n (drop c.seek content) in
      let short : length bytes ≤ n = omega (arith, length-take {0} n (drop c.seek content)) in
      let wrap : (c.seek + length bytes) % 2 ^ 64 ≡ c.seek + length bytes = omega arith in
      let allowed : not (intersects c.flags only_right_readable) ≡ false = ground arith in
      rw (allowed, le→ltb-false max_buf n small) (rw (r c.seek n) (rw wrap refl))

  -- On a file that reads from a fixed content, through a connection with RIGHT_READABLE and below 2
  -- ^ 64, a Read of n bytes and then one of m return together what one Read of n + m bytes returns,
  -- if that is at most MAX_BUF, and leave the same connection.
  pub handle_read_twice :
      (c : FileConnection F) (content : List ℕ) (n m : ℕ)
      → ReadsFrom content c.file
      → c.flags.right_readable ≡ true
      → n + m ≤ max_buf
      → c.seek + (n + m) < 2 ^ 64
      → ((handle_read file max_buf (handle_read file max_buf c n).0 m).0
          ≡ (handle_read file max_buf c (n + m)).0)
        × ((handle_read file max_buf c n).1 >>= (λ first.
              (handle_read file max_buf (handle_read file max_buf c n).0 m).1
              >>= (λ second. ok (first ++ second)))
            ≡ (handle_read file max_buf c (n + m)).1)
  handle_read_twice c content n m r readable small low =
      let rest = drop c.seek content in
      let first = take n rest in
      let c1 : FileConnection F = record c { seek = c.seek + length first } in
      let short : length first ≤ n = omega (arith, length-take {0} n rest) in
      let one = read_once c content n r readable (omega arith) (omega arith) in
      let two = read_once c1 content m r readable (omega arith) (omega arith) in
      let both = read_once c content (n + m) r readable small low in
      let at : drop (c.seek + length first) content ≡ drop (length first) rest =
        sym (drop-drop c.seek (length first) content) in
      let joined : first ++ take m (drop (c.seek + length first) content) ≡ take (n + m) rest =
        ap (λ (x : List ℕ). first ++ take m x) at ∙ take-add n m rest in
      let sum : c.seek + length first + length (take m (drop (c.seek + length first) content))
          ≡ c.seek + length (take (n + m) rest) =
        omega (
          arith,
          ap (λ (x : List ℕ). length x) joined,
          length-append {0} first (take m (drop (c.seek + length first) content)),
        ) in
      rw (one, both)
        (rw two (ap (λ (x : ℕ). record c { seek = x }) sum, ap (λ (x : List ℕ). ok x) joined))

  -- The position that a seek is relative to, where it is asked for.
  abbrev pub seek_base : FileConnection F → SeekOrigin → Result ℕ
  seek_base c start = ok 0
  seek_base c current = ok c.seek
  seek_base c end = (file.get_size c.file).1

  module _ (c : FileConnection F) (origin : SeekOrigin) (offset : ℤ) (base : ℕ)
      (not_reference : c.flags.node_reference ≡ false) (based : seek_base c origin ≡ ok base) where
    may_seek : intersects c.flags only_node_reference ≡ false
    may_seek = ground arith

    handle_seek-eq :
        ((handle_seek file max_buf c origin offset).1 ≡ (set_seek c (offset_from base offset)).1)
        × ((handle_seek file max_buf c origin offset).0.seek
            ≡ (set_seek c (offset_from base offset)).0.seek)
    unfolding handle_seek
    handle_seek-eq =
        elim origin
            as (λ o.
              (seek_base c o ≡ ok base)
              → ((handle_seek file max_buf c o offset).1 ≡ (set_seek c (offset_from base offset)).1)
                × ((handle_seek file max_buf c o offset).0.seek
                    ≡ (set_seek c (offset_from base offset)).0.seek)) [
                      | start ↦ λ e. let b : 0 ≡ base = cc in rw (may_seek, b) (refl, refl)
                      | current ↦ λ e.
                          let b : c.seek ≡ base = cc in
                          rw may_seek (
                            ap (λ (x : ℕ). (set_seek c (offset_from x offset)).1) b,
                            ap (λ (x : ℕ). (set_seek c (offset_from x offset)).0.seek) b,
                          )
                      | end ↦ λ e. rw may_seek (from_end (file.get_size c.file).1 e)
                    ]
          based
      where
        from_end :
            (r : Result ℕ)
            → r ≡ ok base
            → ((seek_from_end (record c { file = (file.get_size c.file).0 }) offset r).1
                ≡ (set_seek c (offset_from base offset)).1)
              × ((seek_from_end (record c { file = (file.get_size c.file).0 }) offset r).0.seek
                  ≡ (set_seek c (offset_from base offset)).0.seek)
        from_end r e = ground arith

    -- A seek on a connection that is not a node reference, to a position that is not negative and
    -- below 2 ^ 64, replies with that position and sets it.
    pub handle_seek_within :
        (x : ℕ)
        → x + neg_part offset ≡ base + pos_part offset
        → x < 2 ^ 64
        → ((handle_seek file max_buf c origin offset).1 ≡ ok x)
          × ((handle_seek file max_buf c origin offset).0.seek ≡ x)
    handle_seek_within x at low =
        let done =
          set_seek_lem c (offset_from base offset) x (offset_from_exact base offset x at) in
        let wrap : x % 2 ^ 64 ≡ x = omega arith in
        (handle_seek-eq.0 ∙ done.0 ∙ ap ok wrap, handle_seek-eq.1 ∙ done.1 ∙ wrap)

    -- A seek on a connection that is not a node reference, to a position from 2 ^ 64 on that fits
    -- 65 bits, succeeds, and the position that it sets is less by 2 ^ 64.
    pub handle_seek_wraps :
        (x : ℕ)
        → x + neg_part offset ≡ base + pos_part offset
        → 2 ^ 64 ≤ x
        → x < 2 ^ 65
        → ((handle_seek file max_buf c origin offset).1 ≡ ok (x - 2 ^ 64))
          × ((handle_seek file max_buf c origin offset).0.seek ≡ x - 2 ^ 64)
    handle_seek_wraps x at high low =
        let done =
          set_seek_lem c (offset_from base offset) x (offset_from_exact base offset x at) in
        let wrap : x % 2 ^ 64 ≡ x - 2 ^ 64 = omega arith in
        (handle_seek-eq.0 ∙ done.0 ∙ ap ok wrap, handle_seek-eq.1 ∙ done.1 ∙ wrap)

    -- A seek to before the start of the file is out of range and leaves the position.
    pub handle_seek_before :
        base + pos_part offset < neg_part offset
        → ((handle_seek file max_buf c origin offset).1 ≡ err out_of_range)
          × ((handle_seek file max_buf c origin offset).0.seek ≡ c.seek)
    handle_seek_before h =
        let done = set_seek-none c (offset_from base offset) (offset_from_before base offset h) in
        (handle_seek-eq.0 ∙ done.0, handle_seek-eq.1 ∙ done.1)

module _ {F Attrs Info Fs Vmo : Type 0} (file : File F Attrs Info Fs Vmo) (max_buf : ℕ)
    (k : FioConstants) where
  -- The file after the calls of a connection that is made.
  abbrev pub after_opening : F → OpenFlags → F
  after_opening f flags =
      if intersects flags only_truncate
      then (file.truncate (file.open_file f flags).0 0).0
      else (file.open_file f flags).0

  connect-flags : (f : F) (flags : OpenFlags) → (connect file max_buf k f flags).flags ≡ flags
  unfolding connect
  connect-flags f flags = refl

  connect_starts :
      (f : F) (flags : OpenFlags)
      → ((connect file max_buf k f flags).seek ≡ 0)
        × ((connect file max_buf k f flags).is_open ≡ true)
        × ((connect file max_buf k f flags).file ≡ f)
  unfolding connect
  connect_starts f flags = (refl, refl, refl)

  describe_new_lem :
      (f f' : F) (flags : OpenFlags) (r : Result Info) (c : FileConnection F)
      → describe_new file max_buf k f flags r ≡ (f', ok c)
      → (c ≡ connect file max_buf k f' flags) × (f' ≡ f)
  unfolding describe_new
  describe_new_lem f f' flags (ok info) c h = ground arith
  describe_new_lem f f' flags (err e) c h = cc

  truncated_lem :
      (f' : F) (flags : OpenFlags) (r : F × Result (Unit {0})) (c : FileConnection F)
      → truncated file max_buf k flags r ≡ (f', ok c)
      → (c ≡ connect file max_buf k f' flags) × (f' ≡ r.0)
  unfolding truncated
  truncated_lem f' flags (f, err e) c h = cc
  truncated_lem f' flags (f, ok res) c h =
      ground (arith, describe_new_lem f f' flags (file.describe f flags) c)

  opened_lem :
      (f' : F) (flags : OpenFlags) (r : F × Result (Unit {0})) (c : FileConnection F)
      → opened file max_buf k flags r ≡ (f', ok c)
      → (c ≡ connect file max_buf k f' flags)
        × (f' ≡ (if intersects flags only_truncate then (file.truncate r.0 0).0 else r.0))
  unfolding opened
  opened_lem f' flags (f, err e) c h = cc
  opened_lem f' flags (f, ok res) c h =
      let step =
        truncated_lem f' flags
          (if intersects flags only_truncate then file.truncate f 0 else (f, ok tt)) c h in
      (step.0, step.1 ∙ first (intersects flags only_truncate))
    where
      chosen : Bool → F × Result (Unit {0})
      chosen b = if b then file.truncate f 0 else (f, ok tt)

      first : (b : Bool) → ◌≡◌ {A = F} (chosen b).0 (if b then (file.truncate f 0).0 else f)
      first true = refl
      first false = refl

  validated_lem :
      (f f' : F) (r : Result OpenFlags) (c : FileConnection F)
      → open_validated file max_buf k f r ≡ (f', ok c)
      → (r ≡ ok c.flags) × (c ≡ connect file max_buf k f' c.flags) × (f' ≡ after_opening f c.flags)
  unfolding open_validated
  validated_lem f f' (err e) c h = cc
  validated_lem f f' (ok flags) c h =
      let step = opened_lem f' flags (file.open_file f flags) c h in
      let same : flags ≡ c.flags = made step.0 in
      (ap ok same, step.0 ∙ ap (connect file max_buf k f') same, step.1 ∙ ap (after_opening f) same)
    where
      made : c ≡ connect file max_buf k f' flags → flags ≡ c.flags
      made e = sym (ap (λ (x : FileConnection F). x.flags) e ∙ connect-flags f' flags)

  -- A connection that is made is open and stands at position 0, with flags that the file's access
  -- accepts, on the file that was opened with these flags, and truncated to nothing if TRUNCATE is
  -- among them.
  pub create_connection-IsAccepted :
      (f f' : F) (flags : OpenFlags) (readable writable executable : Bool) (c : FileConnection F)
      → create_connection file max_buf k f flags readable writable executable ≡ (f', ok c)
      → IsAccepted flags c.flags readable writable executable true
        × (c.seek ≡ 0)
        × (c.is_open ≡ true)
        × (c.file ≡ after_opening f c.flags)
        × (f' ≡ after_opening f c.flags)
  unfolding create_connection
  create_connection-IsAccepted f f' flags readable writable executable c h =
      let checked = new_connection_validate_flags k flags readable writable executable true in
      let (valid, made, opened) = validated_lem f f' checked c h in
      let starts = connect_starts f' c.flags in
      (
        new_connection_validate_flags-IsAccepted k flags c.flags readable writable executable true
            valid,
        ap (λ (x : FileConnection F). x.seek) made ∙ starts.0,
        ap (λ (x : FileConnection F). x.is_open) made ∙ starts.1,
        ap (λ (x : FileConnection F). x.file) made ∙ starts.2 ∙ opened,
        opened,
      )
