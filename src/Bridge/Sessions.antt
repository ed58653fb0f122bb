-- ===== src/Bridge/Sessions.antt =====
-- The boots of the microcontroller in `processEvent`: which is current, and which are retired.
use fast_livo_ug.Base.{
  ℕ, ◌≡◌, refl, ◌∙◌, List, [], ◌∷◌, Bool, true, false, ◌||◌, ◌==◌, ==_refl, Bool-cases, inl, inr,
  ◌⊎◌,
}
use mathlib.Core.Path.{subst}
use fast_livo_ug.Float.{Float}
use fast_livo_ug.Wire.Types.{QueuedWireEvent}
use fast_livo_ug.Bridge.{
  contains, BridgeNode, begin_session, Checked, check_boot, process_event, process_all,
}
use fast_livo_ug.Bridge.Boots.{
  IsFresh, SameBoots-IsFresh, Passed, stopped, continued, started, replaced, check_boot-Passed,
  node_of, Passed-IsFresh, process_event_node, absurd_bool,
}

or_true : (b : Bool) → (b || true) ≡ true
or_true true = refl
or_true false = refl

module _ (F : Float) where
  -- Processing any event keeps the current boot apart from the retired ones.
  pub process_event-IsFresh :
      (n : BridgeNode F) (q : QueuedWireEvent) → IsFresh n → IsFresh (process_event F n q).0
  unfolding process_event
  process_event-IsFresh n q v =
      SameBoots-IsFresh (node_of (check_boot F n q.event)) _
        (process_event_node n q (check_boot F n q.event))
        (Passed-IsFresh n q.event.mcu_boot_id _ (check_boot-Passed n q.event) v)

  Passed-contains :
      (n : BridgeNode F) (id old : ℕ) (c : Checked F)
      → Passed n id c
      → contains n.retired_boot_ids old ≡ true
      → contains (node_of c).retired_boot_ids old ≡ true
  unfolding node_of begin_session contains
  Passed-contains n id old c (stopped m r) h = rw r.retired h
  Passed-contains n id old c (continued e f) h = h
  Passed-contains n id old c (started e) h = h
  Passed-contains n id old c (replaced e f g) h = rw h (or_true (n.mcu_boot_id == old))

  kept :
      (n : BridgeNode F) (q : QueuedWireEvent) (old : ℕ)
      → contains n.retired_boot_ids old ≡ true
      → contains (process_event F n q).0.retired_boot_ids old ≡ true
  unfolding process_event
  kept n q old h =
      let r = process_event_node n q (check_boot F n q.event) in
      rw r.retired (Passed-contains n q.event.mcu_boot_id old _ (check_boot-Passed n q.event) h)

  -- An event keeps the boot, or retires it; there is a boot behind it, if there was one.
  Passed-current :
      (n : BridgeNode F) (id : ℕ) (c : Checked F)
      → Passed n id c
      → n.have_boot ≡ true
      → ((node_of c).have_boot ≡ true)
        × (((node_of c).mcu_boot_id ≡ n.mcu_boot_id)
            ⊎ (contains (node_of c).retired_boot_ids n.mcu_boot_id ≡ true))
  unfolding node_of begin_session contains
  Passed-current n id c (stopped m r) h = (r.have ∙ h, inl r.current)
  Passed-current n id c (continued e f) h = (h, inl refl)
  Passed-current n id c (started e) h = absurd_bool n.have_boot h e
  Passed-current n id c (replaced e f g) h = (refl, inr (rw (==_refl n.mcu_boot_id) refl))

  current :
      (n : BridgeNode F) (q : QueuedWireEvent)
      → n.have_boot ≡ true
      → ((process_event F n q).0.have_boot ≡ true)
        × (((process_event F n q).0.mcu_boot_id ≡ n.mcu_boot_id)
            ⊎ (contains (process_event F n q).0.retired_boot_ids n.mcu_boot_id ≡ true))
  unfolding process_event
  current n q h =
      let r = process_event_node n q (check_boot F n q.event) in
      let p = Passed-current n q.event.mcu_boot_id _ (check_boot-Passed n q.event) h in
      rw (r.have, r.current, r.retired) p

  -- A boot that is current or retired.
  IsKnown : BridgeNode F → ℕ → Type 0
  IsKnown n id =
      ((n.have_boot ≡ true) × (n.mcu_boot_id ≡ id)) ⊎ (contains n.retired_boot_ids id ≡ true)

  process_event-IsKnown :
      (n : BridgeNode F) (q : QueuedWireEvent) (id : ℕ)
      → IsKnown n id
      → IsKnown (process_event F n q).0 id
  unfolding IsKnown
  process_event-IsKnown n q id (inl (h, e)) =
      let (k, r) = current n q h in
      elim r [
        | inl same_boot ↦ inl (k, same_boot ∙ e)
        | inr gone ↦
            inr (subst (λ b. contains (process_event F n q).0.retired_boot_ids b ≡ true) e gone)
      ]
  process_event-IsKnown n q id (inr h) = inr (kept n q id h)

  process_all-IsKnown :
      (events : List QueuedWireEvent) (n : BridgeNode F) (id : ℕ)
      → IsKnown n id
      → IsKnown (process_all F n events) id
  unfolding process_all
  process_all-IsKnown [] n id h = h
  process_all-IsKnown (q ∷ events) n id h =
      process_all-IsKnown events (process_event F n q).0 id (process_event-IsKnown n q id h)

  process_all-contains :
      (events : List QueuedWireEvent) (n : BridgeNode F) (old : ℕ)
      → contains n.retired_boot_ids old ≡ true
      → contains (process_all F n events).retired_boot_ids old ≡ true
  unfolding process_all
  process_all-contains [] n old h = h
  process_all-contains (q ∷ events) n old h =
      process_all-contains events (process_event F n q).0 old (kept n q old h)

  process_all-IsFresh :
      (events : List QueuedWireEvent) (n : BridgeNode F)
      → IsFresh n
      → IsFresh (process_all F n events)
  unfolding process_all
  process_all-IsFresh [] n v = v
  process_all-IsFresh (q ∷ events) n v =
      process_all-IsFresh events (process_event F n q).0 (process_event-IsFresh n q v)

  -- Over any events of a bridge that is fresh (no boot and none retired, or a boot that is not a
  -- retired one), the bridge stays fresh, a boot id that was retired stays retired, and the boot
  -- that was current, if there was one, is still the current one or is retired.
  pub process_all-retired :
      (events : List QueuedWireEvent) (n : BridgeNode F) (id : ℕ)
      → IsFresh n
      → IsFresh (process_all F n events)
        × ((contains n.retired_boot_ids id ≡ false)
            ⊎ (contains (process_all F n events).retired_boot_ids id ≡ true))
        × ((n.have_boot ≡ false)
            ⊎ ((process_all F n events).mcu_boot_id ≡ n.mcu_boot_id)
            ⊎ (contains (process_all F n events).retired_boot_ids n.mcu_boot_id ≡ true))
  unfolding IsKnown
  process_all-retired events n id v = (process_all-IsFresh events n v, stays, ends)
    where
      stays :
          (contains n.retired_boot_ids id ≡ false)
          ⊎ (contains (process_all F n events).retired_boot_ids id ≡ true)
      stays = elim (Bool-cases (contains n.retired_boot_ids id)) [
        | inl old ↦ inr (process_all-contains events n id old)
        | inr new ↦ inl new
      ]

      known :
          IsKnown (process_all F n events) n.mcu_boot_id
          → ((process_all F n events).mcu_boot_id ≡ n.mcu_boot_id)
            ⊎ (contains (process_all F n events).retired_boot_ids n.mcu_boot_id ≡ true)
      known (inl k) = inl k.1
      known (inr k) = inr k

      ends :
          (n.have_boot ≡ false)
          ⊎ ((process_all F n events).mcu_boot_id ≡ n.mcu_boot_id)
          ⊎ (contains (process_all F n events).retired_boot_ids n.mcu_boot_id ≡ true)
      ends = elim (Bool-cases n.have_boot) [
        | inl h ↦ inr (known (process_all-IsKnown events n n.mcu_boot_id (inl (h, refl))))
        | inr h ↦ inl h
      ]
