-- ===== src/Bridge/Boots.antt =====
-- The first part of `processEvent`: what it does with the boot of an event.
use fast_livo_ug.Base.{
  ℕ, ◌+◌, ◌%◌, ◌^◌, ◌≡◌, refl, ◌∙◌, [], ◌∷◌, Option, none, some, Bool, true, false, arith, not,
  ◌&&◌, ◌||◌, ◌==◌, if◌then◌else◌, Bool-cases, inl, inr, ◌⊎◌, ==_iff,
}
use fast_livo_ug.Float.{Float}
use fast_livo_ug.Wire.Types.{boot, type_code, WireEvent, QueuedWireEvent}
use fast_livo_ug.Wire.Sequence.{observe}
use fast_livo_ug.LocalTime.{accept}
use fast_livo_ug.Bridge.{
  contains, BridgeNode, McuEvent, begin_session, Checked, stop, go, check_boot, check_stamp,
  note_event, accept_stream, accept_sequence, process_checked,
}

pub absurd_bool {ℓ} : {A : Type ℓ} (b : Bool) → b ≡ true → b ≡ false → A
absurd_bool true h k = cc
absurd_bool false h k = cc

or_true : (b : Bool) → (b || true) ≡ true
or_true true = refl
or_true false = refl

module _ {F : Float} where
  -- Whether the bridge has a boot, which it is, and which are retired.
  pub record SameBoots (n m : BridgeNode F) : Type 0 where
    pub have : m.have_boot ≡ n.have_boot
    pub current : m.mcu_boot_id ≡ n.mcu_boot_id
    pub retired : m.retired_boot_ids ≡ n.retired_boot_ids

  same : (n : BridgeNode F) → SameBoots n n
  same n = record { have = refl; current = refl; retired = refl }

  accept_stream_lem :
      (n : BridgeNode F) (q : QueuedWireEvent) (t : ℕ) → SameBoots n (accept_stream F n q t).0
  unfolding accept_stream note_event
  accept_stream_lem n q t =
      elim (Bool-cases
        (not (accept n.monotonic_gate n.session_id (type_code q.event.message_type) t).1)) [
          | inl old ↦ rw old (record { have = refl; current = refl; retired = refl })
          | inr fresh ↦ rw fresh (record { have = refl; current = refl; retired = refl })
        ]

  accept_sequence_lem :
      (n : BridgeNode F) (q : QueuedWireEvent) (t : ℕ) → SameBoots n (accept_sequence F n q t).0
  unfolding accept_sequence
  accept_sequence_lem n q t =
      elim (Bool-cases
        (not (observe n.sequence_tracker q.event.mcu_boot_id q.event.event_sequence).1.accept)) [
          | inl no_more ↦ rw no_more (record { have = refl; current = refl; retired = refl })
          | inr new ↦ rw new (
              let r = accept_stream_lem _ q t in
              record { have = r.have; current = r.current; retired = r.retired })
        ]

  process_checked_lem :
      (n : BridgeNode F) (q : QueuedWireEvent) → SameBoots n (process_checked F n q).0
  unfolding process_checked
  process_checked_lem n q =
      elim (check_stamp F q.event)
        as (λ o.
          SameBoots n
            (elim o as (λ _. BridgeNode F × Option McuEvent) [
              | none ↦ (record n { frame_error_count = (n.frame_error_count + 1) % 2 ^ 64 }, none)
              | some t ↦ accept_sequence F n q t
            ]).0) [
              | none ↦ record { have = refl; current = refl; retired = refl }
              | some t ↦ accept_sequence_lem n q t
            ]

  -- There is no boot yet, and none is retired; or the current boot is not retired.
  abbrev pub IsFresh : BridgeNode F → Type 0
  IsFresh n =
      ((n.have_boot ≡ false) × (n.retired_boot_ids ≡ []))
      ⊎ ((n.have_boot ≡ true) × (contains n.retired_boot_ids n.mcu_boot_id ≡ false))

  pub SameBoots-IsFresh : (n m : BridgeNode F) → SameBoots n m → IsFresh n → IsFresh m
  SameBoots-IsFresh n m r (inl (a, b)) = inl (r.have ∙ a, r.retired ∙ b)
  SameBoots-IsFresh n m r (inr (a, b)) = inr (r.have ∙ a, rw (r.retired, r.current) b)

  -- What the first part of `processEvent` keeps of a fresh node, for an event of boot `id`.
  pub data Passed (n : BridgeNode F) (id : ℕ) : Checked F → Type 0 where
    stopped : (m : BridgeNode F) → SameBoots n m → Passed n id (stop m)
    continued : (n.have_boot ≡ true) → (id ≡ n.mcu_boot_id) → Passed n id (go n)
    started : (n.have_boot ≡ false) → Passed n id (go (begin_session F n id))
    replaced :
        (n.have_boot ≡ true)
        → ((n.mcu_boot_id == id) ≡ false)
        → (contains n.retired_boot_ids id ≡ false)
        → Passed n id (
            go (
              begin_session F
                (record n { retired_boot_ids = n.mcu_boot_id ∷ n.retired_boot_ids })
                id))

  duplicate : BridgeNode F → BridgeNode F
  duplicate n = record n { duplicate_event_count = (n.duplicate_event_count + 1) % 2 ^ 64 }

  bad_frame : BridgeNode F → BridgeNode F
  bad_frame n = record n { frame_error_count = (n.frame_error_count + 1) % 2 ^ 64 }

  branches :
      (n : BridgeNode F) (id : ℕ) (have equal is_boot retired : Bool)
      → n.have_boot ≡ have
      → (id == n.mcu_boot_id) ≡ equal
      → contains n.retired_boot_ids id ≡ retired
      → Passed n id (
          if have && not equal
          then (if not is_boot || retired
              then stop (duplicate n)
              else go (
                  begin_session F
                    (record n { retired_boot_ids = n.mcu_boot_id ∷ n.retired_boot_ids })
                    id))
          else if not have
          then (if not is_boot then stop (bad_frame n) else go (begin_session F n id))
          else go n)
  unfolding duplicate bad_frame
  branches n id false equal true retired h e r = started h
  branches n id false equal false retired h e r =
      stopped (bad_frame n) (record { have = refl; current = refl; retired = refl })
  branches n id true true is_boot retired h e r = continued h ((==_iff id n.mcu_boot_id).0 e)
  branches n id true false true false h e r = replaced h (ground (arith, e)) r
  branches n id true false true true h e r =
      stopped (duplicate n) (record { have = refl; current = refl; retired = refl })
  branches n id true false false retired h e r =
      stopped (duplicate n) (record { have = refl; current = refl; retired = refl })

  pub check_boot-Passed :
      (n : BridgeNode F) (wire : WireEvent) → Passed n wire.mcu_boot_id (check_boot F n wire)
  unfolding check_boot duplicate bad_frame
  check_boot-Passed n wire =
      branches n wire.mcu_boot_id n.have_boot (wire.mcu_boot_id == n.mcu_boot_id)
        (type_code wire.message_type == type_code boot)
        (contains n.retired_boot_ids wire.mcu_boot_id) refl refl refl

  unfoldable pub node_of : Checked F → BridgeNode F
  node_of (stop m) = m
  node_of (go m) = m

  pub Passed-IsFresh :
      (n : BridgeNode F) (id : ℕ) (c : Checked F) → Passed n id c → IsFresh n → IsFresh (node_of c)
  unfolding node_of begin_session contains
  Passed-IsFresh n id c (stopped m r) v = SameBoots-IsFresh n m r v
  Passed-IsFresh n id c (continued h e) v = v
  Passed-IsFresh n id c (started h) (inl (a, b)) = inr (refl, rw b refl)
  Passed-IsFresh n id c (started h) (inr (a, b)) = absurd_bool n.have_boot a h
  Passed-IsFresh n id c (replaced h e r) v = inr (refl, rw (e, r) refl)

  pub process_event_node :
      (n : BridgeNode F) (q : QueuedWireEvent) (c : Checked F)
      → SameBoots
          (node_of c)
          (elim c as (λ _. BridgeNode F × Option McuEvent) [
            | stop m ↦ (m, none)
            | go m ↦ process_checked F m q
          ]).0
  unfolding node_of
  process_event_node n q (stop m) = same m
  process_event_node n q (go m) = process_checked_lem m q
