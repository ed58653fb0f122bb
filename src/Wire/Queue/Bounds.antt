-- ===== src/Wire/Queue/Bounds.antt =====
-- `BoundedWireEventQueue` as the newest events of a stream.
use fast_livo_ug.Base.{
  ℕ, suc, ◌-◌, ◌≤◌, ◌≡◌, refl, sym, ap, ◌∙◌, List, [], ◌∷◌, ◌++◌, true, false, arith, max, leb, ltb,
  ◌==◌, length, drop, Bool-cases, inl, inr, length-append, length-drop, drop-append_front,
}
use fast_livo_ug.Wire.Types.{QueuedWireEvent}
use fast_livo_ug.Wire.Queue.{
  BoundedWireEventQueue, new_queue, pop_excess, set_capacity, pop_front, push,
}

pub record IsValid (q : BoundedWireEventQueue) : Type 0 where
  pub positive : 1 ≤ q.capacity
  pub bounded : length q.events ≤ q.capacity

pub new_queue-IsValid : (capacity : ℕ) → IsValid (new_queue capacity)
unfolding new_queue
new_queue-IsValid capacity = omega arith

-- The loop drops the oldest events, down to the capacity.
pub pop_excess-drop :
    (capacity : ℕ) (events : List QueuedWireEvent)
    → pop_excess capacity events ≡ drop (length events - capacity) events
unfolding pop_excess
pop_excess-drop capacity [] = let e : 0 - capacity ≡ 0 = omega arith in rw e
pop_excess-drop capacity (e ∷ events) = elim (Bool-cases (ltb capacity (suc (length events)))) [
  | inl over ↦ rw (over, more over) (pop_excess-drop capacity events)
  | inr fits ↦ rw (fits, none_over fits)
]
  where
    more :
        ltb capacity (suc (length events)) ≡ true
        → suc (length events) - capacity ≡ suc (length events - capacity)
    more over = ground arith

    none_over : ltb capacity (suc (length events)) ≡ false → suc (length events) - capacity ≡ 0
    none_over fits = ground arith

-- What a queue of this capacity keeps of a stream of events: the newest ones.
abbrev pub newest : ℕ → List QueuedWireEvent → List QueuedWireEvent
newest capacity events = drop (length events - capacity) events

-- setCapacity leaves a valid queue with the newest events, at most the new capacity of them.
pub set_capacity_lem :
    (q : BoundedWireEventQueue) (capacity : ℕ)
    → IsValid (set_capacity q capacity)
      × ((set_capacity q capacity).events ≡ newest (max 1 capacity) q.events)
unfolding set_capacity
set_capacity_lem q capacity = (
  record {
    positive = omega arith;
    bounded = rw kept (omega (arith, length-drop (length q.events - max 1 capacity) q.events));
  },
  kept,
)
  where
    kept : pop_excess (max 1 capacity) q.events ≡ newest (max 1 capacity) q.events
    kept = pop_excess-drop (max 1 capacity) q.events

drop-one : (events : List QueuedWireEvent) → drop 1 events ≡ pop_front events
drop-one [] = refl
drop-one (e ∷ events) = refl

push-events :
    (q : BoundedWireEventQueue) (e : QueuedWireEvent)
    → IsValid q
    → (push q e).0.events ≡ newest q.capacity (q.events ++ (e ∷ []))
unfolding push
push-events q e v = elim (Bool-cases (leb q.capacity (length q.events))) [
  | inl full ↦
      rw (full, ← drop-one q.events)
        (sym (drop-append_front 1 q.events (e ∷ []) (one full))
          ∙ ap (λ (n : ℕ). drop n (q.events ++ (e ∷ []))) (over full))
  | inr room ↦ rw room (ap (λ (n : ℕ). drop n (q.events ++ (e ∷ []))) (under room))
]
  where
    one : leb q.capacity (length q.events) ≡ true → 1 ≤ length q.events
    one full = ground arith

    over : leb q.capacity (length q.events) ≡ true → 1 ≡ length (q.events ++ (e ∷ [])) - q.capacity
    over full = ground (arith, length-append q.events (e ∷ []))

    under :
        leb q.capacity (length q.events) ≡ false → 0 ≡ length (q.events ++ (e ∷ [])) - q.capacity
    under room = ground (arith, length-append q.events (e ∷ []))

-- A push onto a valid queue keeps it valid, holds the newest events, and reports a drop exactly if
-- the queue was full.
pub push_lem :
    (q : BoundedWireEventQueue) (e : QueuedWireEvent)
    → IsValid q
    → IsValid (push q e).0
      × ((push q e).0.events ≡ newest q.capacity (q.events ++ (e ∷ [])))
      × ((push q e).1 ≡ (length q.events == q.capacity))
unfolding push
push_lem q e v = (record { positive = v.positive; bounded = short }, kept, ground arith)
  where
    kept : (push q e).0.events ≡ newest q.capacity (q.events ++ (e ∷ []))
    kept = push-events q e v

    short : length (push q e).0.events ≤ q.capacity
    short = rw kept (
        omega
          (arith, length-drop (length (q.events ++ (e ∷ [])) - q.capacity) (q.events ++ (e ∷ []))))
