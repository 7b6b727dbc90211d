-- ===== src/Vfs/Watchers.antt =====
-- Watchers of directories: src/lib/storage/vfs/rust/src/directory/watchers.rs, event_producers.rs
-- and watcher.rs, as a release build runs them (a `debug_assert!` does nothing). The task of a
-- watcher is its queue of commands.
pub mod Groups
pub mod Delivery
pub mod Events
use fuchsia_storage.Shared.{
  ℕ, zero, suc, ◌+◌, ◌%◌, Bool, true, false, ◌&&◌, ◌||◌, List, [], ◌∷◌, ◌++◌, length, drop, Option,
  none, some, ltb, if◌then◌else◌,
}

abbrev pub Name : Type 0
Name = List ℕ

-- `fio::WatchEvent`
pub data WatchEvent : Type 0 where
  deleted added removed existing idle : WatchEvent

-- `fio::WatchMask`
pub record WatchMask : Type 0 where
  pub deleted : Bool
  pub added : Bool
  pub removed : Bool
  pub existing : Bool
  pub idle : Bool

unfoldable pub intersects : WatchMask → WatchMask → Bool
intersects a b =
    a.deleted && b.deleted
    || a.added && b.added
    || a.removed && b.removed
    || a.existing && b.existing
    || a.idle && b.idle

unfoldable pub mask_of : WatchEvent → WatchMask
mask_of WatchEvent.deleted = record {
  deleted = true;
  added = false;
  removed = false;
  existing = false;
  idle = false;
}
mask_of WatchEvent.added = record {
  deleted = false;
  added = true;
  removed = false;
  existing = false;
  idle = false;
}
mask_of WatchEvent.removed = record {
  deleted = false;
  added = false;
  removed = true;
  existing = false;
  idle = false;
}
mask_of WatchEvent.existing = record {
  deleted = false;
  added = false;
  removed = false;
  existing = true;
  idle = false;
}
mask_of WatchEvent.idle = record {
  deleted = false;
  added = false;
  removed = false;
  existing = false;
  idle = true;
}

-- `StaticVecEventProducer`, with the buffer that its `CachingEventProducer` keeps. The mask is that
-- of the event.
pub record StaticVecEventProducer : Type 0 where
  pub event : WatchEvent
  pub current_buffer : Option (List ℕ)
  pub names : List Name
  pub next : ℕ

pub data SingleBufferEventProducerState : Type 0 where
  start first_event done : SingleBufferEventProducerState

-- `SingleBufferEventProducer`; a `SingleNameEventProducer` wraps one.
pub record SingleBufferEventProducer : Type 0 where
  pub event : WatchEvent
  pub content : List ℕ
  pub state : SingleBufferEventProducerState

-- `dyn EventProducer`
pub data EventProducer : Type 0 where
  static_vec : StaticVecEventProducer → EventProducer
  single_buffer : SingleBufferEventProducer → EventProducer

pub data Command : Type 0 where
  send : List ℕ → Command
  disconnect : Command

-- `Controller`, with the commands in its channel and whether the task still takes them.
pub record Controller : Type 0 where
  pub mask : WatchMask
  pub commands : List Command
  pub connected : Bool

unfoldable pub new_static : WatchEvent → List Name → EventProducer
new_static event names =
    static_vec (record { event = event; current_buffer = none; names = names; next = 0 })

unfoldable pub new_single : WatchEvent → List ℕ → EventProducer
new_single event buffer = single_buffer (record { event = event; content = buffer; state = start })

-- `unbounded_send`
unfoldable pub unbounded_send : Controller → Command → Controller
unbounded_send c command =
    if c.connected then record c { commands = c.commands ++ command ∷ [] } else c

unfoldable pub producer_event : EventProducer → WatchEvent
producer_event (static_vec p) = p.event
producer_event (single_buffer p) = p.event

unfoldable pub prepare_single :
    SingleBufferEventProducer → SingleBufferEventProducerState → EventProducer × Bool
prepare_single p start = (single_buffer (record p { state = first_event }), true)
prepare_single p first_event = (single_buffer (record p { state = done }), false)
prepare_single p done = (single_buffer p, false)

unfoldable pub prepare_for_next_buffer : EventProducer → EventProducer × Bool
unfolding prepare_single
prepare_for_next_buffer (static_vec p) =
    (static_vec (record p { current_buffer = none }), ltb p.next (length p.names))
prepare_for_next_buffer (single_buffer p) = prepare_single p p.state

-- What `encode_name` appends, where `code` is the number of an event.
abbrev pub encoded : (WatchEvent → ℕ) → WatchEvent → Name → List ℕ
encoded code event name = code event ∷ length name % 256 ∷ name

-- `MAX_BUF` and the numbers of the events are those that fuchsia.io generates.
module _ (max_buf : ℕ) (code : WatchEvent → ℕ) where
  unfoldable pub encode_name : List ℕ → WatchEvent → Name → List ℕ × Bool
  encode_name buffer event name =
      if ltb max_buf (length buffer + (2 + length name))
      then (buffer, false)
      else (buffer ++ encoded code event name, true)

  -- The loop of `fill_buffer` over the names that are left: the buffer, and how many went into it.
  unfoldable pub fill_names : WatchEvent → List ℕ → List Name → List ℕ × ℕ
  fill_names event buffer [] = (buffer, 0)
  fill_names event buffer (name ∷ names) =
      let (buffer', fits) = encode_name buffer event name in
      let rest = fill_names event buffer' names in
      if fits then (rest.0, suc rest.1) else (buffer', 0)

  unfoldable pub fill_buffer : StaticVecEventProducer → StaticVecEventProducer × List ℕ
  unfolding fill_names
  fill_buffer p =
      let (buffer, taken) = fill_names p.event [] (drop p.next p.names) in
      (record p { current_buffer = some buffer; next = p.next + taken }, buffer)

  unfoldable pub cached_buffer :
      StaticVecEventProducer → Option (List ℕ) → StaticVecEventProducer × List ℕ
  unfolding fill_buffer
  cached_buffer p (some buffer) = (p, buffer)
  cached_buffer p none = fill_buffer p

  unfoldable pub buffer : EventProducer → EventProducer × List ℕ
  unfolding cached_buffer
  buffer (static_vec p) = let (p', buf) = cached_buffer p p.current_buffer in (static_vec p', buf)
  buffer (single_buffer p) = (single_buffer p, p.content)

  -- `SingleNameEventProducer::new`
  unfoldable pub new_name : WatchEvent → Name → EventProducer
  unfolding encode_name new_single
  new_name event name = new_single event (encode_name [] event name).0

  -- `Controller::send_buffer`, and whether the buffer was asked for.
  unfoldable pub send_buffer : EventProducer → Controller → EventProducer × Controller × Bool
  unfolding buffer unbounded_send producer_event
  send_buffer p c =
      if intersects c.mask (mask_of (producer_event p))
      then (let (p', buf) = buffer p in (p', unbounded_send c (send buf), true))
      else (p, c, false)

  -- The round over the controllers, with `consumed_any`.
  unfoldable pub send_to_all :
      EventProducer → List Controller → EventProducer × List Controller × Bool
  unfolding send_buffer
  send_to_all p [] = (p, [], false)
  send_to_all p (c ∷ controllers) =
      let (p', c', consumed) = send_buffer p c in
      let (p'', rest, consumed_any) = send_to_all p' controllers in
      (p'', c' ∷ rest, consumed || consumed_any)

  -- `Watchers::send_event`, on fuel.
  unfoldable pub send_event :
      ℕ → EventProducer → List Controller → Option (EventProducer × List Controller)
  unfolding send_to_all prepare_for_next_buffer
  send_event zero p controllers = none
  send_event (suc fuel) p controllers =
      let (p', more) = prepare_for_next_buffer p in
      let (p'', controllers', consumed_any) = send_to_all p' controllers in
      let rest = send_event fuel p'' controllers' in
      if more
      then (if consumed_any then rest else some (p'', controllers'))
      else some (p', controllers)

  -- The loop of `Controller::send_event`, on fuel.
  unfoldable pub send_all_buffers :
      ℕ → EventProducer → Controller → Option (EventProducer × Controller)
  unfolding buffer unbounded_send prepare_for_next_buffer
  send_all_buffers zero p c = none
  send_all_buffers (suc fuel) p c =
      let (p', more) = prepare_for_next_buffer p in
      let (p'', buf) = buffer p' in
      let rest = send_all_buffers fuel p'' (unbounded_send c (send buf)) in
      if more then rest else some (p', c)

  unfoldable pub send_event_to :
      ℕ → EventProducer → Controller → Option (EventProducer × Controller × Bool)
  unfolding send_all_buffers producer_event
  send_event_to fuel p c =
      if intersects c.mask (mask_of (producer_event p))
      then (elim (send_all_buffers fuel p c) [ none ↦ none | some (p', c') ↦ some (p', c', true) ])
      else some (p, c, false)

unfoldable pub disconnect_controller : Controller → Controller
unfolding unbounded_send
disconnect_controller c = unbounded_send c disconnect
