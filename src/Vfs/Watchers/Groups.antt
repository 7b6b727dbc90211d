-- ===== src/Vfs/Watchers/Groups.antt =====
-- How the names of an event are put into buffers:
-- src/lib/storage/vfs/rust/src/directory/watchers/event_producers.rs.
use fuchsia_storage.Shared.{
  ℕ, ◌+◌, ◌≤◌, ◌<◌, List, [], ◌∷◌, ◌++◌, length, take, drop, ltb, ◌≡◌, ◌∙◌, sym, arith, tests,
  Bool-cases, inl, inr, length-append,
}
use mathlib.Core.List.{append-nil, append_assoc}
use fuchsia_storage.Vfs.Watchers.{Name, WatchEvent, encoded, encode_name, fill_names}

-- The names one after the other.
unfoldable pub encode_all : (WatchEvent → ℕ) → WatchEvent → List Name → List ℕ
encode_all code event [] = []
encode_all code event (name ∷ names) = encoded code event name ++ encode_all code event names

module _ (max_buf : ℕ) (code : WatchEvent → ℕ) where
  -- What `fill_names` takes: some first names, as many as fit.
  pub record Fills (event : WatchEvent) (old : List ℕ) (names : List Name) (r : List ℕ × ℕ)
      : Type 0 where
    pub few : r.1 ≤ length names
    pub filled : r.0 ≡ old ++ encode_all code event (take r.1 names)
    pub bounded : length old ≤ max_buf → length r.0 ≤ max_buf

  pub fill_names-Fills :
      (event : WatchEvent) (old : List ℕ) (names : List Name)
      → Fills event old names (fill_names max_buf code event old names)
  unfolding fill_names encode_all encode_name
  fill_names-Fills event old [] = record {
    few = omega arith;
    filled = sym (append-nil old);
    bounded = λ h. h;
  }
  fill_names-Fills event old (name ∷ names) =
      elim (Bool-cases (ltb max_buf (length old + (2 + length name)))) [
        | inl e ↦
            rw e (record { few = omega arith; filled = sym (append-nil old); bounded = λ h. h })
        | inr e ↦
            let one = encoded code event name in
            let rest = fill_names-Fills event (old ++ one) names in
            let grown = length-append {0} old one in
            rw e (record {
              few = omega (arith, rest.few);
              filled =
                  rest.filled
                  ∙ append_assoc old one (
                      encode_all code event
                        (take (fill_names max_buf code event (old ++ one) names).1 names));
              bounded = λ h. rest.bounded (omega (tests, grown));
            })
      ]

  -- A buffer that is empty takes at least one name, of up to 255 bytes.
  pub fill_names-takes :
      (event : WatchEvent) (name : Name) (names : List Name)
      → 2 + length name ≤ max_buf
      → 0 < (fill_names max_buf code event [] (name ∷ names)).1
  unfolding fill_names encode_name
  fill_names-takes event name names h = ground arith

  -- The names in groups, each of which fits a buffer and is not empty.
  pub data Groups (event : WatchEvent) : List Name → List (List ℕ) → Type 0 where
    no_group : Groups event [] []
    group :
        {names : List Name} {bufs : List (List ℕ)} (taken : ℕ)
        → 0 < taken
        → taken ≤ length names
        → length (encode_all code event (take taken names)) ≤ max_buf
        → Groups event (drop taken names) bufs
        → Groups event names (encode_all code event (take taken names) ∷ bufs)
