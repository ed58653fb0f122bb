-- ===== src/Wire/Queue.antt =====
-- `BoundedWireEventQueue` of wire_protocol.cpp: a queue that drops its oldest event when full.
pub mod Bounds
use fast_livo_ug.Base.{
  ℕ, ◌+◌, ◌≤◌, List, [], ◌∷◌, ◌++◌, Option, none, some, Bool, max, leb, ltb, if◌then◌else◌, length,
}
use fast_livo_ug.Wire.Types.{QueuedWireEvent}

pub record BoundedWireEventQueue : Type 0 where
  pub capacity : ℕ
  pub events : List QueuedWireEvent

unfoldable pub new_queue : ℕ → BoundedWireEventQueue
new_queue capacity = record { capacity = max 1 capacity; events = [] }

-- `while (events_.size() > capacity_) events_.pop_front();`
unfoldable pub pop_excess : ℕ → List QueuedWireEvent → List QueuedWireEvent
pop_excess capacity [] = []
pop_excess capacity (e ∷ events) =
    let rest = pop_excess capacity events in
    if ltb capacity (length (e ∷ events)) then rest else e ∷ events

unfoldable pub set_capacity : BoundedWireEventQueue → ℕ → BoundedWireEventQueue
unfolding pop_excess
set_capacity q capacity = record {
  capacity = max 1 capacity;
  events = pop_excess (max 1 capacity) q.events;
}

-- `pop_front` of a deque that is not empty.
abbrev pub pop_front {ℓ} : {A : Type ℓ} → List A → List A
pop_front [] = []
pop_front (e ∷ events) = events

-- The queue, and whether an event was dropped.
unfoldable pub push : BoundedWireEventQueue → QueuedWireEvent → BoundedWireEventQueue × Bool
push q event =
    let dropped = leb q.capacity (length q.events) in
    let kept = if dropped then pop_front q.events else q.events in
    (record q { events = kept ++ (event ∷ []) }, dropped)

-- The queue, and the event that is moved out; `none` is `return false`.
pop_events : ℕ → List QueuedWireEvent → BoundedWireEventQueue × Option QueuedWireEvent
pop_events capacity [] = (record { capacity = capacity; events = [] }, none)
pop_events capacity (e ∷ events) = (record { capacity = capacity; events = events }, some e)

unfoldable pub pop : BoundedWireEventQueue → BoundedWireEventQueue × Option QueuedWireEvent
unfolding pop_events
pop q = pop_events q.capacity q.events

-- The loop of `feedBytes` in bridge_node.cpp over the decoded events, with its overflow counter.
unfoldable pub push_all :
    BoundedWireEventQueue → ℕ → List QueuedWireEvent → BoundedWireEventQueue × ℕ
push_all q overflow_count [] = (q, overflow_count)
push_all q overflow_count (e ∷ events) =
    let (q', dropped) = push q e in
    push_all q' (if dropped then overflow_count + 1 else overflow_count) events
