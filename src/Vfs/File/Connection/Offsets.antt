-- ===== src/Vfs/File/Connection/Offsets.antt =====
-- Where a seek leads: src/lib/storage/vfs/rust/src/file/connection/io1.rs and util.rs.
use fuchsia_storage.Shared.{
  ℕ, suc, ◌+◌, ◌-◌, ◌%◌, ◌^◌, ◌<◌, Option, none, some, le→leb, lt→leb-false, ◌≡◌, refl, arith, ℤ,
  pos, negsuc,
}
use fuchsia_storage.Vfs.Status.{ok, err, out_of_range}
use fuchsia_storage.Vfs.File.Connection.{FileConnection, set_seek, offset_from}

abbrev pub pos_part : ℤ → ℕ
pos_part (pos n) = n
pos_part (negsuc n) = 0

abbrev pub neg_part : ℤ → ℕ
neg_part (pos n) = 0
neg_part (negsuc n) = suc n

pub offset_from_exact :
    (base : ℕ) (offset : ℤ) (x : ℕ)
    → x + neg_part offset ≡ base + pos_part offset
    → offset_from base offset ≡ some x
unfolding offset_from
offset_from_exact base (pos n) x h = let e : base + n ≡ x = omega arith in rw e refl
offset_from_exact base (negsuc n) x h =
    let e : base - suc n ≡ x = omega arith in rw (le→leb (suc n) base (omega arith), e) refl

pub offset_from_before :
    (base : ℕ) (offset : ℤ)
    → base + pos_part offset < neg_part offset
    → offset_from base offset ≡ none
unfolding offset_from
offset_from_before base (pos n) h = absurd (omega arith)
offset_from_before base (negsuc n) h = rw (lt→leb-false (suc n) base (omega arith)) refl

module _ {F : Type 0} (c : FileConnection F) (o : Option ℕ) where
  pub set_seek_lem :
      (x : ℕ)
      → o ≡ some x
      → ((set_seek c o).1 ≡ ok (x % 2 ^ 64)) × ((set_seek c o).0.seek ≡ x % 2 ^ 64)
  unfolding set_seek
  set_seek_lem x e = rw (e, set_seek) (refl, refl)

  pub set_seek-none :
      o ≡ none → ((set_seek c o).1 ≡ err out_of_range) × ((set_seek c o).0.seek ≡ c.seek)
  unfolding set_seek
  set_seek-none e = rw (e, set_seek) (refl, refl)
