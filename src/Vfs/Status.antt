-- ===== src/Vfs/Status.antt =====
-- `zx::Status` values that src/lib/storage/vfs/rust/src returns, and `Result<T, Status>`.
use fuchsia_storage.Shared.{Bool, true, false, if◌then◌else◌, ◌≡◌, refl, ◌⊎◌, inl, inr}

pub data Status : Type 0 where
  access_denied already_exists bad_path bad_state buffer_too_small internal invalid_args : Status
  not_dir not_file not_found not_supported out_of_range unavailable bad_handle no_resources : Status
  other_status : Status

pub data Result {ℓ} (A : Type ℓ) : Type ℓ where
  ok : A → Result A
  err : Status → Result A

-- An early return, `if b { return Err(e) }`, before `m`.
unfoldable pub reject {ℓ} : {A : Type ℓ} → Bool → Status → Result A → Result A
reject b e m = if b then err e else m

pub reject-eq_ok {ℓ} :
    {A : Type ℓ} (b : Bool) (e : Status) (m : Result A) {a : A}
    → reject b e m ≡ ok a
    → (b ≡ false) × (m ≡ ok a)
unfolding reject
reject-eq_ok true e m h = cc
reject-eq_ok false e m h = (refl, h)

pub reject-pass {ℓ} :
    {A : Type ℓ} (b : Bool) (e : Status) (m : Result A) → b ≡ false → reject b e m ≡ m
unfolding reject
reject-pass b e m h = rw h

module _ {ℓ κ} {A : Type ℓ} {B : Type κ} where
  infixl 5 ◌>>=◌
  -- The operator `?`: an error ends the function.
  abbrev pub ◌>>=◌ : Result A → (A → Result B) → Result B
  err status >>= next = err status
  ok value >>= next = next value

  -- A chain that succeeds has got through its first step.
  pub >>=-eq-ok :
      (m : Result A) (next : A → Result B) {r : B}
      → (m >>= next) ≡ ok r
      → (value : A) × (m ≡ ok value) × (next value ≡ ok r)
  >>=-eq-ok (err status) next h = cc
  >>=-eq-ok (ok value) next h = (value, refl, h)

pub Result-cases {ℓ} :
    {A : Type ℓ} (r : Result A) → ((a : A) × (r ≡ ok a)) ⊎ ((e : Status) × (r ≡ err e))
Result-cases (ok a) = inl (a, refl)
Result-cases (err e) = inr (e, refl)
