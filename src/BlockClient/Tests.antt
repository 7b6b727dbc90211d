-- ===== src/BlockClient/Tests.antt =====
-- Tests of src/lib/storage/block_client/rust/src.
use fuchsia_storage.Shared.{
  ℕ, ◌+◌, ◌*◌, ◌≡◌, refl, Bool, true, false, List, [], ◌∷◌, none, some, lookup, remove, arith,
  negsuc, zero, suc, ◌<◌, ◌%◌, sym, ap, ◌∙◌, Option, Bool-cases, inl, inr, ==_iff, ◌==◌, ◌&&◌, leb,
  le→leb, if◌then◌else◌,
}
use fuchsia_storage.BlockClient.Memory.{Memory, fill, contents, bytes_at}
use fuchsia_storage.BlockClient.Cache.{
  Device, DeviceLaws, Cache, CacheEntry, done, failed, device_error, exceeds_device_size, bad_delta,
  block_size, no_stats, put_back, make_room, get_block, read_at,
}
use fuchsia_storage.BlockClient.Cache.Write.{write_at}
use fuchsia_storage.BlockClient.Cache.Stream.{read, seek, flush, drop_cache, end, current}
use fuchsia_storage.BlockClient.Cache.Blocks.{SameBytes, IsValid, bytes_of}
use fuchsia_storage.BlockClient.Cache.Map.{
  Entries, HasDistinctKeys, lookup-put_back, put_back-HasDistinctKeys,
}
use fuchsia_storage.BlockClient.Cache.Sound.{IsSound}
use fuchsia_storage.BlockClient.Cache.Contract.{
  read_at_refines, write_at_refines, flush_refines, read_at_total, read_at-write_at,
  drop_cache-write_at, get_block_failed_evict, IsReliable, IsRequest,
}

-- A device of 40 blocks of 512 bytes that is its bytes and refuses, as the client does, what is not
-- whole blocks of it; and one that refuses every write.
abbrev serves : ℕ → ℕ → Bool
serves size offset = size % 512 == 0 && (offset % 512 == 0 && leb (offset + size) 20480)

abbrev disk : Device Memory
disk = record {
  device_size = 20480;
  write_at = λ d source size offset.
      if serves size offset then (fill d offset size source, true) else (d, false);
  read_at = λ d size offset.
      if serves size offset then (d, true, λ i. d (offset + i)) else (d, false, λ i. 0);
}

abbrev read_only : Device Memory
read_only = record {
  device_size = 300000;
  write_at = λ d source size offset. (d, false);
  read_at = λ d size offset. (d, true, λ i. d (offset + i));
}

disk-DeviceLaws : DeviceLaws disk
disk-DeviceLaws = record {
  bytes = λ d. d;
  write_done = λ d source size offset a h. elim (Bool-cases (serves size offset)) [
    | inl good ↦ rw good refl
    | inr bad ↦ absurd (let refused : false ≡ true = rw bad at h in cc)
  ];
  read_done = λ d size offset i h l. elim (Bool-cases (serves size offset)) [
    | inl good ↦ rw good refl
    | inr bad ↦ absurd (let refused : false ≡ true = rw bad at h in cc)
  ];
  read_keeps = λ d size offset a. elim (Bool-cases (serves size offset)) [
    | inl good ↦ rw good refl
    | inr bad ↦ rw bad refl
  ];
}

request_served : (size offset : ℕ) → IsRequest 512 disk size offset → serves size offset ≡ true
request_served size offset (a, b, _, _, l) =
    rw ((==_iff (size % 512) 0).1 a, (==_iff (offset % 512) 0).1 b, le→leb (offset + size) 20480 l)
      refl

disk-IsReliable : IsReliable 512 disk
disk-IsReliable = record {
  divides = refl;
  whole = refl;
  writes = λ d source size offset r. rw (request_served size offset r) refl;
  reads = λ d size offset r. rw (request_served size offset r) refl;
}

read_only-DeviceLaws : DeviceLaws read_only
read_only-DeviceLaws = record {
  bytes = λ d. d;
  write_done = λ d source size offset a h. cc;
  read_done = λ d size offset i h l. refl;
  read_keeps = λ d size offset a. refl;
}

-- A device whose byte `a` is `a`, and a cache that holds nothing of it yet.
abbrev cold : Cache Memory
cold = record { device = λ a. a; vmo = λ a. 0; map = []; offset = 0; stats = no_stats }

cold-IsValid : IsValid disk disk-DeviceLaws cold
unfolding lookup
cold-IsValid = (
  record { distinct = tt; placed = λ k e p. cc; apart = λ k j e f p. cc; clean = λ k e i p. cc },
  omega arith,
)

abbrev three : List ℕ
three = 1 ∷ 2 ∷ 3 ∷ []

-- Four bytes around the end of the first block: both blocks come in.
read_across : (read_at disk cold 4 8190).1 ≡ done (8190 ∷ 8191 ∷ 8192 ∷ 8193 ∷ [])
unfolding read_at lookup remove
read_across = refl

beyond : read_at disk cold 4 20477 ≡ (cold, failed exceeds_device_size)
unfolding read_at
beyond = refl

-- The write is in the cache, and not on the device before the flush.
write_across :
    bytes_at (write_at disk cold three 8191).0.device 8190 5 ≡ 8190 ∷ 8191 ∷ 8192 ∷ 8193 ∷ 8194 ∷ []
unfolding write_at lookup remove bytes_at
write_across = refl

write_flushed :
    bytes_at (flush disk (write_at disk cold three 8191).0).0.device 8190 5
    ≡ 8190 ∷ 1 ∷ 2 ∷ 3 ∷ 8194 ∷ []
unfolding write_at flush lookup remove bytes_at
write_flushed = refl

read_end : (read disk (seek disk cold (end (negsuc 1))).0 10).1 ≡ done (20478 ∷ 20479 ∷ [])
unfolding read seek lookup remove
read_end = refl

bad_seek : seek disk cold (current (negsuc 0)) ≡ (cold, failed bad_delta)
unfolding seek
bad_seek = refl

read_at_refines_example :
    8190 ∷ 8191 ∷ 8192 ∷ 8193 ∷ [] ≡ bytes_at (bytes_of disk disk-DeviceLaws cold) 8190 4
unfolding read_at lookup remove
read_at_refines_example =
    (read_at_refines disk disk-DeviceLaws cold (read_at disk cold 4 8190).0 4 8190
      (8190 ∷ 8191 ∷ 8192 ∷ 8193 ∷ []) cold-IsValid (omega arith) refl).2

abbrev written : Cache Memory
written = (write_at disk cold three 8191).0

write_at_refines_example :
    IsValid disk disk-DeviceLaws written
    × ((a : ℕ)
        → a < 20480
        → bytes_of disk disk-DeviceLaws written a
          ≡ fill (bytes_of disk disk-DeviceLaws cold) 8191 3 (contents three) a)
unfolding write_at lookup remove
write_at_refines_example =
    write_at_refines disk disk-DeviceLaws cold written three 8191 cold-IsValid (omega arith) refl

read_at-write_at_example : three ≡ three
unfolding write_at read_at lookup remove
read_at-write_at_example =
    read_at-write_at disk disk-DeviceLaws cold (write_at disk cold three 8191).0
      (read_at disk (write_at disk cold three 8191).0 3 8191).0 three three 8191 cold-IsValid
      (omega arith) refl refl

-- A cache whose first `n` blocks are the first ones of the device, and dirty.
blocks : ℕ → Entries
unfolding put_back remove
blocks zero = []
blocks (suc n) =
    put_back (n * block_size) (record { vmo_offset = n * block_size; dirty = true }) (blocks n)

lookup-blocks :
    (n j : ℕ) (f : CacheEntry)
    → lookup j (blocks n) ≡ some f
    → (f.vmo_offset ≡ j) × (f.dirty ≡ true) × (j % block_size ≡ 0) × (j < n * block_size)
unfolding blocks lookup
lookup-blocks zero j f h = cc
lookup-blocks (suc n) j f h =
    let e : CacheEntry = record { vmo_offset = n * block_size; dirty = true } in
    let law = sym (lookup-put_back (n * block_size) e j (blocks n)) ∙ h in
    elim (Bool-cases (n * block_size == j)) [
      | inl same ↦
          let at : n * block_size ≡ j = (==_iff (n * block_size) j).0 same in
          let found : some e ≡ some f = ground (arith, same, law) in
          let off : n * block_size ≡ f.vmo_offset =
            ap (λ (o : Option CacheEntry). offset_in o) found in
          let dirty : true ≡ f.dirty = ap (λ (o : Option CacheEntry). dirty_in o) found in
          (sym off ∙ at, sym dirty, omega arith, omega arith)
      | inr other ↦
          let (a, b, c, d) = lookup-blocks n j f (ground (arith, other, law)) in
          (a, b, c, omega arith)
    ]
  where
    offset_in : Option CacheEntry → ℕ
    offset_in none = 0
    offset_in (some e) = e.vmo_offset

    dirty_in : Option CacheEntry → Bool
    dirty_in none = true
    dirty_in (some e) = e.dirty

blocks-HasDistinctKeys : (n : ℕ) → HasDistinctKeys (blocks n)
unfolding blocks
blocks-HasDistinctKeys zero = tt
blocks-HasDistinctKeys (suc n) =
    put_back-HasDistinctKeys (n * block_size) (record { vmo_offset = n * block_size; dirty = true })
      (blocks n) (blocks-HasDistinctKeys n)

abbrev tail : Entries → Entries
tail [] = []
tail (x ∷ m) = m

abbrev full : Cache Memory
full = record { device = λ a. a; vmo = λ a. 0; map = blocks 32; offset = 0; stats = no_stats }

full-IsSound : IsSound 300000 32 (λ a. a) (λ a. 0) (blocks 32)
full-IsSound = record {
  distinct = blocks-HasDistinctKeys 32;
  placed = λ k e p.
      let (a, b, c, d) = lookup-blocks 32 k e p in (c, omega arith, omega arith, omega arith);
  apart = λ k j e f p q same.
      let (a, _, _, _) = lookup-blocks 32 k e p in
      let (b, _, _, _) = lookup-blocks 32 j f q in sym a ∙ same ∙ b;
  clean = λ k e i p c. let (a, b, _, _) = lookup-blocks 32 k e p in cc;
}

full-IsValid : IsValid read_only read_only-DeviceLaws full
unfolding blocks remove read_only-DeviceLaws
full-IsValid = (full-IsSound, omega arith)

abbrev others : Entries
others = tail (blocks 32)

get_block_failed_evict_example :
    ((get_block read_only full 262144 false).1 ≡ failed device_error)
    × (lookup 0 (get_block read_only full 262144 false).0.map ≡ none)
    × ((make_room read_only (get_block read_only full 262144 false).0).1 ≡ done (253952, false))
unfolding blocks remove lookup
get_block_failed_evict_example =
    get_block_failed_evict read_only read_only-DeviceLaws full 262144 0 false
      (record { vmo_offset = 0; dirty = true }) others full-IsValid refl refl refl refl refl

written-IsValid : IsValid disk disk-DeviceLaws (write_at disk cold three 8191).0
unfolding write_at lookup remove
written-IsValid =
    (write_at_refines disk disk-DeviceLaws cold (write_at disk cold three 8191).0 three 8191
      cold-IsValid (omega arith) refl).0

flush_refines_example :
    IsValid disk disk-DeviceLaws (flush disk written).0
    × SameBytes disk disk-DeviceLaws written (flush disk written).0
    × ((a : ℕ)
        → a < 20480
        → (flush disk written).0.device a ≡ bytes_of disk disk-DeviceLaws written a)
unfolding write_at flush lookup remove disk-DeviceLaws
flush_refines_example =
    flush_refines disk disk-DeviceLaws written (flush disk written).0 written-IsValid refl

read_at_total_example :
    (c' : Cache Memory) × (bytes : List ℕ) × (read_at disk cold 20480 0 ≡ (c', done bytes))
read_at_total_example =
    read_at_total disk disk-DeviceLaws 512 cold 20480 0 disk-IsReliable cold-IsValid (omega arith)

drop_cache-write_at_example :
    drop_cache disk (write_at disk cold three 8191).0 8192
    ≡ fill (bytes_of disk disk-DeviceLaws cold) 8191 3 (contents three) 8192
unfolding drop_cache disk-DeviceLaws
drop_cache-write_at_example =
    drop_cache-write_at disk disk-DeviceLaws 512 cold three 8191 disk-IsReliable cold-IsValid
      (omega arith) 8192 (omega arith)
