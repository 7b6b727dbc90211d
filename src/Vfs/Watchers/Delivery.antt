-- ===== src/Vfs/Watchers/Delivery.antt =====
-- What the watchers of a directory are sent:
-- src/lib/storage/vfs/rust/src/directory/watchers.rs and event_producers.rs.
use fuchsia_storage.Shared.{
  ℕ, ◌+◌, Bool, true, false, ◌&&◌, ◌||◌, List, [], ◌∷◌, ◌++◌, map, drop, none, some, ◌≡◌, ◌⊎◌, refl,
  Bool-cases, inl, inr,
}
use mathlib.Core.List.{append-nil, append_assoc}
use fuchsia_storage.Vfs.Watchers.{
  WatchEvent, intersects, mask_of, StaticVecEventProducer, EventProducer, static_vec, send,
  Controller, unbounded_send, producer_event, fill_names, fill_buffer, cached_buffer, buffer,
  send_buffer, send_to_all,
}

-- Whether a controller is for the event.
abbrev pub wants : WatchEvent → Controller → Bool
wants event c = intersects c.mask (mask_of event)

-- A controller with the buffers sent, where it is for the event and its task takes them.
unfoldable pub give_if : Bool → List (List ℕ) → Controller → Controller
give_if true bufs c = record c { commands = c.commands ++ map send bufs }
give_if false bufs c = c

unfoldable pub give : WatchEvent → List (List ℕ) → Controller → Controller
unfolding give_if
give event bufs c = give_if (wants event c && c.connected) bufs c

unfoldable pub any_wants : WatchEvent → List Controller → Bool
any_wants event [] = false
any_wants event (c ∷ controllers) = wants event c || any_wants event controllers

give_if_none : (b : Bool) (c : Controller) → give_if b [] c ≡ c
unfolding give_if
give_if_none true c = rw (append-nil c.commands) refl
give_if_none false c = refl

give_none : (event : WatchEvent) (c : Controller) → give event [] c ≡ c
unfolding give
give_none event c = give_if_none (wants event c && c.connected) c

give_if-mask :
    (event : WatchEvent) (b : Bool) (bufs : List (List ℕ)) (c : Controller)
    → (wants event (give_if b bufs c) ≡ wants event c)
      × ((give_if b bufs c).connected ≡ c.connected)
unfolding give_if
give_if-mask event true bufs c = (refl, refl)
give_if-mask event false bufs c = (refl, refl)

give_if_cons :
    (b : Bool) (buf : List ℕ) (bufs : List (List ℕ)) (c : Controller)
    → give_if b (buf ∷ bufs) c ≡ give_if b bufs (give_if b (buf ∷ []) c)
unfolding give_if
give_if_cons true buf bufs c = rw (append_assoc c.commands (send buf ∷ []) (map send bufs)) refl
give_if_cons false buf bufs c = refl

give_cons :
    (event : WatchEvent) (buf : List ℕ) (bufs : List (List ℕ)) (c : Controller)
    → give event (buf ∷ bufs) c ≡ give event bufs (give event (buf ∷ []) c)
unfolding give
give_cons event buf bufs c =
    let b = wants event c && c.connected in
    let same = give_if-mask event b (buf ∷ []) c in rw (same.0, same.1) (give_if_cons b buf bufs c)

wants-give :
    (event : WatchEvent) (bufs : List (List ℕ)) (c : Controller)
    → wants event (give event bufs c) ≡ wants event c
unfolding give
wants-give event bufs c = (give_if-mask event (wants event c && c.connected) bufs c).0

pub map-give_none : (event : WatchEvent) (cs : List Controller) → map (give event []) cs ≡ cs
map-give_none event [] = refl
map-give_none event (c ∷ cs) = rw (give_none event c, map-give_none event cs)

pub map-give_cons :
    (event : WatchEvent) (buf : List ℕ) (bufs : List (List ℕ)) (cs : List Controller)
    → map (give event (buf ∷ bufs)) cs ≡ map (give event bufs) (map (give event (buf ∷ [])) cs)
map-give_cons event buf bufs [] = refl
map-give_cons event buf bufs (c ∷ cs) =
    rw (give_cons event buf bufs c, map-give_cons event buf bufs cs)

pub any_wants-give :
    (event : WatchEvent) (bufs : List (List ℕ)) (cs : List Controller)
    → any_wants event (map (give event bufs) cs) ≡ any_wants event cs
unfolding any_wants
any_wants-give event bufs [] = refl
any_wants-give event bufs (c ∷ cs) = rw (wants-give event bufs c, any_wants-give event bufs cs)

give-send :
    (event : WatchEvent) (buf : List ℕ) (c : Controller)
    → wants event c ≡ true
    → unbounded_send c (send buf) ≡ give event (buf ∷ []) c
unfolding give give_if unbounded_send
give-send event buf c w = elim (Bool-cases c.connected) [
  | inl e ↦ simp (w, e)
  | inr e ↦ simp (w, e)
]

give-unwanted :
    (event : WatchEvent) (bufs : List (List ℕ)) (c : Controller)
    → wants event c ≡ false
    → give event bufs c ≡ c
unfolding give give_if
give-unwanted event bufs c w = rw (w, give_if) refl

module _ (max_buf : ℕ) (code : WatchEvent → ℕ) where
  abbrev cached : StaticVecEventProducer → List ℕ → EventProducer
  cached p buf = static_vec (record p { current_buffer = some buf })

  send_buffer-cached :
      (p : StaticVecEventProducer) (buf : List ℕ) (c : Controller)
      → send_buffer max_buf code (cached p buf) c
        ≡ (cached p buf, give p.event (buf ∷ []) c, wants p.event c)
  unfolding send_buffer buffer cached_buffer producer_event
  send_buffer-cached p buf c = elim (Bool-cases (wants p.event c)) [
    | inl w ↦ rw (w, give-send p.event buf c w) refl
    | inr w ↦ rw (w, give-unwanted p.event (buf ∷ []) c w) refl
  ]

  -- Once the buffer is there, every controller of the event is sent it.
  send_to_all-cached :
      (p : StaticVecEventProducer) (buf : List ℕ) (cs : List Controller)
      → send_to_all max_buf code (cached p buf) cs
        ≡ (cached p buf, map (give p.event (buf ∷ [])) cs, any_wants p.event cs)
  unfolding send_to_all any_wants
  send_to_all-cached p buf [] = refl
  send_to_all-cached p buf (c ∷ cs) =
      rw (send_buffer-cached p buf c, send_to_all-cached p buf cs) refl

  abbrev pub Sent :
      StaticVecEventProducer → List Controller → EventProducer × List Controller × Bool → Type 0
  Sent p cs r =
      ((any_wants p.event cs ≡ false) × (r ≡ (static_vec p, cs, false)))
      ⊎ ((any_wants p.event cs ≡ true)
          × (r ≡ (
            static_vec (fill_buffer max_buf code p).0,
            map (give p.event ((fill_buffer max_buf code p).1 ∷ [])) cs,
            true,
          )))

  send_buffer_wanted :
      (p : StaticVecEventProducer) (c : Controller)
      → p.current_buffer ≡ none
      → wants p.event c ≡ true
      → send_buffer max_buf code (static_vec p) c ≡ (
        static_vec (fill_buffer max_buf code p).0,
        give p.event ((fill_buffer max_buf code p).1 ∷ []) c,
        true,
      )
  unfolding send_buffer buffer cached_buffer producer_event
  send_buffer_wanted p c h w =
      rw (w, h, cached_buffer, give-send p.event (fill_buffer max_buf code p).1 c w) refl

  send_buffer_unwanted :
      (p : StaticVecEventProducer) (c : Controller)
      → wants p.event c ≡ false
      → send_buffer max_buf code (static_vec p) c ≡ (static_vec p, c, false)
  unfolding send_buffer producer_event
  send_buffer_unwanted p c w = rw w refl

  send_to_all_filled :
      (p : StaticVecEventProducer) (cs : List Controller)
      → send_to_all max_buf code (static_vec (fill_buffer max_buf code p).0) cs ≡ (
        static_vec (fill_buffer max_buf code p).0,
        map (give p.event ((fill_buffer max_buf code p).1 ∷ [])) cs,
        any_wants p.event cs,
      )
  unfolding fill_buffer
  send_to_all_filled p cs =
      let filled = fill_names max_buf code p.event [] (drop p.next p.names) in
      send_to_all-cached (record p { next = p.next + filled.1 }) filled.0 cs

  Sent-skip :
      (p : StaticVecEventProducer) (c : Controller) (cs : List Controller)
      (r : EventProducer × List Controller × Bool)
      → wants p.event c ≡ false
      → Sent p cs r
      → Sent p (c ∷ cs) (r.0, c ∷ r.1, r.2)
  unfolding any_wants
  Sent-skip p c cs r w (inl (n, e)) = inl (rw w n, rw e refl)
  Sent-skip p c cs r w (inr (n, e)) =
      let same = give-unwanted p.event ((fill_buffer max_buf code p).1 ∷ []) c w in
      inr (rw w n, rw (e, same) refl)

  -- A round with no buffer yet makes one where a controller is for the event.
  pub send_to_all_fresh :
      (p : StaticVecEventProducer) (cs : List Controller)
      → p.current_buffer ≡ none
      → Sent p cs (send_to_all max_buf code (static_vec p) cs)
  unfolding send_to_all any_wants
  send_to_all_fresh p [] h = inl (refl, refl)
  send_to_all_fresh p (c ∷ cs) h = elim (Bool-cases (wants p.event c)) [
    | inl w ↦ rw (send_buffer_wanted p c h w, send_to_all_filled p cs) (inr (rw w refl, refl))
    | inr w ↦
        rw (send_buffer_unwanted p c w) (
          Sent-skip p c cs (send_to_all max_buf code (static_vec p) cs) w
            (send_to_all_fresh p cs h))
  ]
