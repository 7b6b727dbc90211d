-- ===== src/Vfs/Watchers/Events.antt =====
-- An event with all its names, as the watchers of a directory are sent it:
-- src/lib/storage/vfs/rust/src/directory/watchers.rs and event_producers.rs.
use fuchsia_storage.Shared.{
  ℕ, zero, suc, ◌+◌, ◌-◌, ◌≤◌, ◌<◌, Bool, true, false, List, [], ◌∷◌, map, length, drop, Option,
  none, some, if◌then◌else◌, ltb, ◌≡◌, ◌∙◌, ◌⊎◌, refl, sym, subst, arith, tests, Bool-cases, inl,
  inr, length-drop, drop-drop,
}
use fuchsia_storage.Vfs.Watchers.{
  Name, WatchEvent, StaticVecEventProducer, EventProducer, static_vec, Controller, new_static,
  prepare_for_next_buffer, fill_names, fill_buffer, send_to_all, send_event,
}
use fuchsia_storage.Vfs.Watchers.Groups.{
  fill_names-Fills, fill_names-takes, Groups, no_group, group,
}
use fuchsia_storage.Vfs.Watchers.Delivery.{
  give, any_wants, map-give_none, map-give_cons, any_wants-give, Sent, send_to_all_fresh,
}

-- Names of up to 255 bytes.
abbrev pub AreShort : List Name → Type 0
AreShort [] = Unit {0}
AreShort (name ∷ names) = (length name ≤ 255) × AreShort names

pub drop-AreShort : (n : ℕ) (names : List Name) → AreShort names → AreShort (drop n names)
drop-AreShort zero names h = h
drop-AreShort (suc n) [] h = h
drop-AreShort (suc n) (name ∷ names) h = drop-AreShort n names h.1

module _ (max_buf : ℕ) (code : WatchEvent → ℕ) where
  -- No controller is for the event and nothing is sent, or the names go out in groups, each to
  -- every controller of the event.
  abbrev pub Delivered : WatchEvent → List Name → List Controller → List Controller → Type 0
  Delivered event names cs out =
      ((any_wants event cs ≡ false) × (out ≡ cs))
      ⊎ ((bufs : List (List ℕ)) × Groups max_buf code event names bufs
          × (out ≡ map (give event bufs) cs))

  fills_some :
      (event : WatchEvent) (names : List Name)
      → 257 ≤ max_buf
      → AreShort names
      → 0 < length names
      → 0 < (fill_names max_buf code event [] names).1
  fills_some event [] big short h = elim h [ ]
  fills_some event (name ∷ names) big short h =
      fill_names-takes max_buf code event name names (omega (arith, short.0))

  next_group :
      (event : WatchEvent) (names : List Name) (bufs : List (List ℕ))
      → 257 ≤ max_buf
      → AreShort names
      → 0 < length names
      → Groups max_buf code event (drop (fill_names max_buf code event [] names).1 names) bufs
      → Groups max_buf code event names ((fill_names max_buf code event [] names).0 ∷ bufs)
  next_group event names bufs big short h rest =
      let filled = fill_names-Fills max_buf code event [] names in
      let taken = (fill_names max_buf code event [] names).1 in
      let fits = filled.bounded (omega arith) in
      subst (λ (b : List ℕ). Groups max_buf code event names (b ∷ bufs)) (sym filled.filled)
        (group taken (fills_some event names big short h) filled.few
          (subst (λ (b : List ℕ). length b ≤ max_buf) filled.filled fits) rest)

  Delivered-round :
      (event : WatchEvent) (names : List Name) (cs out : List Controller)
      → 257 ≤ max_buf
      → AreShort names
      → 0 < length names
      → any_wants event cs ≡ true
      → Delivered event
          (drop (fill_names max_buf code event [] names).1 names)
          (map (give event ((fill_names max_buf code event [] names).0 ∷ [])) cs)
          out
      → Delivered event names cs out
  Delivered-round event names cs out big short h w (inl (n, e)) =
      let same = any_wants-give event ((fill_names max_buf code event [] names).0 ∷ []) cs in
      absurd (let t : true ≡ false = sym w ∙ sym same ∙ n in cc)
  Delivered-round event names cs out big short h w (inr (bufs, g, e)) =
      let buf = (fill_names max_buf code event [] names).0 in
      inr (
        buf ∷ bufs,
        next_group event names bufs big short h g,
        e ∙ sym (map-give_cons event buf bufs cs),
      )

  no_names :
      (event : WatchEvent) (names : List Name) (cs : List Controller)
      → length names ≡ 0
      → Delivered event names cs cs
  no_names event [] cs h = inr ([], no_group, sym (map-give_none event cs))
  no_names event (name ∷ names) cs h = absurd (omega arith)

  abbrev pub EndsWith :
      Option (EventProducer × List Controller) → WatchEvent → List Name → List Controller → Type 0
  EndsWith result event names cs =
      (q : EventProducer) × (out : List Controller) × (result ≡ some (q, out))
      × Delivered event names cs out

  abbrev cleared : StaticVecEventProducer → StaticVecEventProducer
  cleared p = record p { current_buffer = none }

  abbrev filled : StaticVecEventProducer → StaticVecEventProducer × List ℕ
  filled p = fill_buffer max_buf code (cleared p)

  send_round :
      (fuel : ℕ) (p : StaticVecEventProducer) (cs : List Controller)
      (r : EventProducer × List Controller × Bool)
      → 257 ≤ max_buf
      → AreShort p.names
      → p.next < length p.names
      → Sent max_buf code (cleared p) cs r
      → EndsWith
          (send_event max_buf code fuel
            (static_vec (filled p).0)
            (map (give p.event ((filled p).1 ∷ [])) cs))
          p.event
          (drop (p.next + (fill_names max_buf code p.event [] (drop p.next p.names)).1) p.names)
          (map (give p.event ((filled p).1 ∷ [])) cs)
      → EndsWith
          (if r.2 then send_event max_buf code fuel r.0 r.1 else some (r.0, r.1))
          p.event
          (drop p.next p.names)
          cs
  unfolding fill_buffer
  send_round fuel p cs r big short lt (inl (n, e)) rec =
      rw e (static_vec (cleared p), cs, refl, inl (n, refl))
  send_round fuel p cs r big short lt (inr (n, e)) (q, out, done, delivered) =
      let left = drop p.next p.names in
      let taken = (fill_names max_buf code p.event [] left).1 in
      let rest = drop-drop p.next taken p.names in
      rw e (
        q,
        out,
        done,
        Delivered-round p.event left cs out big (drop-AreShort p.next p.names short)
            (omega (arith, length-drop {0} p.next p.names)) n
            (subst
              (λ (l : List Name).
                Delivered p.event l
                  (map (give p.event ((fill_names max_buf code p.event [] left).0 ∷ [])) cs) out)
              (sym rest) delivered),
      )

  send_event-Ends :
      (fuel : ℕ) (p : StaticVecEventProducer) (cs : List Controller)
      → 257 ≤ max_buf
      → AreShort p.names
      → length p.names - p.next < fuel
      → EndsWith (send_event max_buf code fuel (static_vec p) cs) p.event (drop p.next p.names) cs
  unfolding send_event fill_buffer prepare_for_next_buffer
  send_event-Ends zero p cs big short h = elim h [ ]
  send_event-Ends (suc fuel) p cs big short h =
      let rest = length-drop {0} p.next p.names in
      elim (Bool-cases (ltb p.next (length p.names))) [
        | inr e ↦ rw e (
          static_vec (cleared p),
          cs,
          refl,
          no_names p.event (drop p.next p.names) cs (omega (tests, rest)),
        )
        | inl e ↦
            let left = drop p.next p.names in
            let lt : p.next < length p.names = omega tests in
            let some_taken =
              fills_some p.event left big (drop-AreShort p.next p.names short)
                (omega (arith, rest)) in
            rw e (
              send_round fuel p cs (send_to_all max_buf code (static_vec (cleared p)) cs) big short
                lt (send_to_all_fresh max_buf code (cleared p) cs refl)
                (send_event-Ends fuel (filled p).0 (map (give p.event ((filled p).1 ∷ [])) cs) big
                  short (omega (arith, some_taken))))
      ]

  -- With a buffer of at least 257 bytes and names of up to 255, an event with n names ends within
  -- n + 1 rounds: no watcher is for it and nothing is sent, or the names are cut, in order and with
  -- none left out or repeated, into groups that fit a buffer, and every watcher of the event whose
  -- task takes them is sent the buffers of all groups, every other watcher nothing.
  pub send_event-Delivered :
      (event : WatchEvent) (names : List Name) (cs : List Controller)
      → 257 ≤ max_buf
      → AreShort names
      → EndsWith
          (send_event max_buf code (suc (length names)) (new_static event names) cs)
          event
          names
          cs
  unfolding new_static
  send_event-Delivered event names cs big short =
      send_event-Ends (suc (length names))
        (record { event = event; current_buffer = none; names = names; next = 0 }) cs big short
        (omega arith)
