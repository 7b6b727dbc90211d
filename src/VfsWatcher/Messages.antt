-- ===== src/VfsWatcher/Messages.antt =====
-- The messages that a client reads from what a directory sends its watchers:
-- src/lib/storage/fuchsia-vfs-watcher/src/lib.rs and
-- src/lib/storage/vfs/rust/src/directory/watchers/event_producers.rs.
use fuchsia_storage.Shared.{
  ℕ, zero, suc, ◌+◌, ◌%◌, ◌≤◌, ◌<◌, true, false, List, [], ◌∷◌, ◌++◌, map, some, length, take, drop,
  ltb, leb, ◌==◌, ◌≡◌, ◌∙◌, refl, sym, ap, arith, inl, inr, length-append, length-drop, drop-drop,
  Bool-cases, ==_iff, length-take, lt→ltb, le→ltb-false, le→leb, lt→leb-false,
}
use mathlib.Core.List.{append_assoc}
use fuchsia_storage.Vfs.Watchers.{Name, WatchEvent, encoded}
use fuchsia_storage.Vfs.Watchers.Groups.{encode_all, Groups, no_group, group}
use fuchsia_storage.Vfs.Watchers.Events.{AreShort, drop-AreShort}
use fuchsia_storage.VfsWatcher.{
  Watcher, Incoming, message, Polled, pending, item, from_raw, new_watcher, reset_buf, read_msg,
  get_next_msg, receive, read_or_receive, poll_next, poll_times,
}

take_append : (xs ys : List ℕ) → take (length xs) (xs ++ ys) ≡ xs
take_append [] ys = refl
take_append (x ∷ xs) ys = ap (λ (l : List ℕ). x ∷ l) (take_append xs ys)

drop_append : (xs ys : List ℕ) → drop (length xs) (xs ++ ys) ≡ ys
drop_append [] ys = refl
drop_append (x ∷ xs) ys = drop_append xs ys

module _ (code : WatchEvent → ℕ) (event : WatchEvent) where
  -- The message about a name.
  abbrev pub about : Name → Polled
  about name = item (record { event = code event; filename = name })

  from_raw-encoded :
      (name : Name) (rest : List ℕ)
      → length name ≤ 255
      → from_raw (encoded code event name ++ rest)
        ≡ some (record { event = code event; namelen = length name; name = name })
  unfolding from_raw
  from_raw-encoded name rest short =
      let m : length name % 256 ≡ length name = omega arith in
      let fits : ltb (2 + length (name ++ rest)) (2 + length name) ≡ false =
        le→ltb-false _ _ (omega (arith, length-append {0} name rest)) in
      rw (m, fits, take_append name rest) refl

  -- A watcher with the messages about `names` left in its buffer.
  pub record Holds (w : Watcher) (names : List Name) : Type 0 where
    pub left : drop w.idx w.buf ≡ encode_all code event names
    pub started : (w.idx ≡ 0) → names ≡ []

  abbrev past : Watcher → Name → Watcher
  past w name = record w { idx = w.idx + (2 + length name) }

  get_next_msg-encoded :
      (w : Watcher) (name : Name) (names : List Name)
      → length name ≤ 255
      → drop w.idx w.buf ≡ encode_all code event (name ∷ names)
      → (get_next_msg w ≡ (past w name, about name)) × Holds (past w name) names
  unfolding get_next_msg read_msg encode_all
  get_next_msg-encoded w name names short left =
      let l = length-drop {0} w.idx w.buf in
      let two : 2 + length name ≡ suc (suc (length name)) = omega arith in
      let k : length (drop w.idx w.buf) ≡ suc (suc (length (name ++ encode_all code event names))) =
        ap length left in
      let inside : ltb w.idx (length w.buf) ≡ true = lt→ltb _ _ (omega arith) in
      (
        rw (inside, left, from_raw-encoded name (encode_all code event names) short) refl,
        record {
          left =
              sym (drop-drop w.idx (2 + length name) w.buf)
              ∙ ap (λ (b : List ℕ). drop (2 + length name) b) left
              ∙ (rw two (drop_append name (encode_all code event names)));
          started = λ z. absurd (omega arith);
        },
      )

  -- A watcher that has messages left reads the next one.
  poll_next-left :
      (w : Watcher) (channel : List Incoming) (name : Name) (names : List Name)
      → length name ≤ 255
      → Holds w (name ∷ names)
      → (poll_next w channel ≡ (past w name, channel, about name)) × Holds (past w name) names
  unfolding poll_next read_or_receive encode_all
  poll_next-left w channel name names short h =
      let l = length-drop {0} w.idx w.buf in
      let k : length (drop w.idx w.buf) ≡ suc (suc (length (name ++ encode_all code event names))) =
        ap length h.left in
      let inside : leb (length w.buf) w.idx ≡ false = lt→leb-false _ _ (omega arith) in
      let (next, holds) = get_next_msg-encoded w name names short h.left in
      elim (Bool-cases (w.idx == 0)) [
        | inl z ↦ let none_left : name ∷ names ≡ [] = h.started ((==_iff w.idx 0).0 z) in cc
        | inr z ↦ (rw (inside, z, next) refl, holds)
      ]

  -- One that has none left takes the next message of the channel.
  poll_next-message :
      (w : Watcher) (channel : List Incoming) (name : Name) (names : List Name)
      → length name ≤ 255
      → Holds w []
      → (w' : Watcher) × (poll_next w (message (encode_all code event (name ∷ names)) ∷ channel)
          ≡ (w', channel, about name))
        × Holds w' names
  unfolding poll_next read_or_receive receive reset_buf encode_all
  poll_next-message w channel name names short h =
      let l = length-drop {0} w.idx w.buf in
      let k : length (drop w.idx w.buf) ≡ 0 = ap length h.left in
      let outside : leb (length w.buf) w.idx ≡ true = le→leb _ _ (omega arith) in
      let loaded : Watcher = record { buf = encode_all code event (name ∷ names); idx = 0 } in
      let (next, holds) = get_next_msg-encoded loaded name names short refl in
      (past loaded name, rw (outside, next) refl, holds)

  poll_next-empty : (w : Watcher) → Holds w [] → poll_next w [] ≡ (new_watcher, [], pending)
  unfolding poll_next read_or_receive receive reset_buf new_watcher encode_all
  poll_next-empty w h =
      let l = length-drop {0} w.idx w.buf in
      let k : length (drop w.idx w.buf) ≡ 0 = ap length h.left in
      let outside : leb (length w.buf) w.idx ≡ true = le→leb _ _ (omega arith) in rw outside refl

  -- What is left in the buffer is read first, message by message.
  poll_times-left :
      (names : List Name) (w : Watcher) (channel : List Incoming) (n : ℕ)
      → AreShort names
      → Holds w names
      → (w' : Watcher) × (poll_times (length names + n) w channel
          ≡ map about names ++ poll_times n w' channel)
        × Holds w' []
  unfolding poll_times
  poll_times-left [] w channel n short h = let z : 0 + n ≡ n = omega arith in (w, rw z refl, h)
  poll_times-left (name ∷ names) w channel n short h =
      let (next, holds) = poll_next-left w channel name names short.0 h in
      let (w', rest, done) = poll_times-left names (past w name) channel n short.1 holds in
      let e : suc (length names) + n ≡ suc (length names + n) = omega arith in
      (w', rw (e, next) (ap (λ (l : List Polled). about name ∷ l) rest), done)

  poll_times-group :
      (names : List Name) (w : Watcher) (channel : List Incoming) (n : ℕ)
      → AreShort names
      → 0 < length names
      → Holds w []
      → (w' : Watcher) × (poll_times
            (length names + n)
            w
            (message (encode_all code event names) ∷ channel)
          ≡ map about names ++ poll_times n w' channel)
        × Holds w' []
  unfolding poll_times
  poll_times-group [] w channel n short some_name h = elim some_name [ ]
  poll_times-group (name ∷ names) w channel n short some_name h =
      let (w', next, holds) = poll_next-message w channel name names short.0 h in
      let (w'', rest, done) = poll_times-left names w' channel n short.1 holds in
      let e : suc (length names) + n ≡ suc (length names + n) = omega arith in
      (w'', rw (e, next) (ap (λ (l : List Polled). about name ∷ l) rest), done)

  take-drop :
      (n : ℕ) (names : List Name)
      → map about (take n names) ++ map about (drop n names) ≡ map about names
  take-drop zero names = refl
  take-drop (suc n) [] = refl
  take-drop (suc n) (name ∷ names) = ap (λ (l : List Polled). about name ∷ l) (take-drop n names)

  take-AreShort : (n : ℕ) (names : List Name) → AreShort names → AreShort (take n names)
  take-AreShort zero names h = tt
  take-AreShort (suc n) [] h = h
  take-AreShort (suc n) (name ∷ names) h = (h.0, take-AreShort n names h.1)

  pub poll_times-Groups :
      (max_buf : ℕ) {names : List Name} {bufs : List (List ℕ)} (w : Watcher)
      → Groups max_buf code event names bufs
      → AreShort names
      → Holds w []
      → poll_times (length names + 1) w (map message bufs) ≡ map about names ++ pending ∷ []
  unfolding poll_times
  poll_times-Groups max_buf w no_group short h = rw (poll_next-empty w h) refl
  poll_times-Groups max_buf {names} w (group {bufs = rest} taken some_name few fits groups) short
        h =
      let front = take taken names in
      let back = drop taken names in
      let lt = length-take {0} taken names in
      let ld = length-drop {0} taken names in
      let (w', read, done) =
        poll_times-group front w (map message rest) (length back + 1)
          (take-AreShort taken names short) (omega arith) h in
      let later = poll_times-Groups max_buf w' groups (drop-AreShort taken names short) done in
      let e : length names + 1 ≡ length front + (length back + 1) = omega arith in
      rw e (
        read
        ∙ ap (λ (l : List Polled). map about front ++ l) later
        ∙ sym (append_assoc (map about front) (map about back) (pending ∷ []))
        ∙ ap (λ (l : List Polled). l ++ pending ∷ []) (take-drop taken names))
