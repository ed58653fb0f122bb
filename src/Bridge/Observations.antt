-- ===== src/Bridge/Observations.antt =====
-- The UTC side of the bridge: `utcObservationCallback`, the update in `publishStatus`, and the two
-- services of bridge_node.cpp. The responses' texts are left out.
use fast_livo_ug.Base.{
  ℕ, ◌+◌, ◌%◌, ◌^◌, ◌≡◌, refl, ap, ◌∙◌, arith, List, [], ◌∷◌, true, false, Option, none, Bool, not,
  ◌&&◌, ◌||◌, ◌==◌, if◌then◌else◌, Bool-cases, inl, inr,
}
use fast_livo_ug.Float.{Float}
use fast_livo_ug.Mapping.Types.{TimePair}
use fast_livo_ug.Mapping.Convert.{local_to_utc, utc_to_local}
use fast_livo_ug.Mapping.Machine.{MappingStateMachine, add_pair, update, mapping_usable}
use fast_livo_ug.Mapping.Machine.Invariant.{IsValid}
use fast_livo_ug.Mapping.Machine.Preserve.{add_pair-IsValid, update-IsValid}
use fast_livo_ug.Mapping.Machine.Relock.{add_pairs}
use fast_livo_ug.Mapping.Host.{to_local}
use fast_livo_ug.Bridge.{BridgeNode}

-- The fields of the message that the callback reads.
pub record UtcObservation : Type 0 where
  pub valid : Bool
  pub session_id : ℕ
  pub association_type : ℕ
  pub local_stamp_ns : ℕ
  pub utc_stamp_ns : ℕ
  pub time_uncertainty_ns : ℕ

abbrev hardware_pps_associated : ℕ
hardware_pps_associated = 2

abbrev replay_preserved : ℕ
replay_preserved = 3

abbrev local_to_utc_direction : ℕ
local_to_utc_direction = 1

abbrev utc_to_local_direction : ℕ
utc_to_local_direction = 2

abbrev pub pair_of : UtcObservation → TimePair
pair_of o = record {
  local_ns = o.local_stamp_ns;
  utc_ns = o.utc_stamp_ns;
  uncertainty_ns = o.time_uncertainty_ns;
}

-- The observations of this session that are valid, and of them those that stand for a pulse.
abbrev of_session : ℕ → UtcObservation → Bool
of_session session_id o = o.valid && o.session_id == session_id

abbrev associated : UtcObservation → Bool
associated o =
    o.association_type == hardware_pps_associated || o.association_type == replay_preserved

-- The pairs of the observations that count, in order.
unfoldable pub used_pairs : ℕ → List UtcObservation → List TimePair
used_pairs session_id [] = []
used_pairs session_id (o ∷ observations) =
    let rest = used_pairs session_id observations in
    if of_session session_id o && associated o then pair_of o ∷ rest else rest

-- How many are of the session, but stand for no pulse.
unfoldable pub count_unassociated : ℕ → List UtcObservation → ℕ
count_unassociated session_id [] = 0
count_unassociated session_id (o ∷ observations) =
    let rest = count_unassociated session_id observations in
    if of_session session_id o && not (associated o) then rest + 1 else rest

count_if :
    (b : Bool) (rejected rest final : ℕ)
    → final % 2 ^ 32 ≡ ((if b then (rejected + 1) % 2 ^ 32 else rejected) + rest) % 2 ^ 32
    → final % 2 ^ 32 ≡ (rejected + (if b then rest + 1 else rest)) % 2 ^ 32
count_if true rejected rest final h = omega (arith, h)
count_if false rejected rest final h = h

module _ (F : Float) where
  unfoldable pub observe_utc : BridgeNode F → UtcObservation → BridgeNode F
  observe_utc n o =
      if not o.valid || not (o.session_id == n.session_id)
      then n
      else if not (o.association_type == hardware_pps_associated)
          && not (o.association_type == replay_preserved)
      then record n { rejected_observation_count = (n.rejected_observation_count + 1) % 2 ^ 32 }
      else record n { mapping = (add_pair F n.mapping (pair_of o)).0 }

  -- The first line of `publishStatus`.
  unfoldable pub update_status : BridgeNode F → BridgeNode F
  update_status n =
      if not (n.latest_local_ns == 0)
      then record n { mapping = update F n.mapping n.latest_local_ns }
      else n

  -- `none` is a response without success.
  unfoldable pub host_time : BridgeNode F → ℕ → Option (ℕ × ℕ)
  host_time n host_monotonic_ns =
      if n.local_ready then to_local F n.host_mapper host_monotonic_ns else none

  unfoldable pub convert_time : BridgeNode F → ℕ → ℕ → Option ℕ
  convert_time n direction input_ns =
      if not (mapping_usable F n.mapping)
      then none
      else if direction == local_to_utc_direction
      then local_to_utc F n.mapping.active input_ns
      else if direction == utc_to_local_direction
      then utc_to_local F n.mapping.active input_ns
      else none

  observe_utc-IsValid :
      (n : BridgeNode F) (o : UtcObservation)
      → IsValid F n.mapping
      → IsValid F (observe_utc n o).mapping
  unfolding observe_utc
  observe_utc-IsValid n o v =
      elim (Bool-cases (not o.valid || not (o.session_id == n.session_id))) [
        | inl foreign ↦ rw foreign v
        | inr ours ↦
            rw ours
              (elim (Bool-cases (
                not (o.association_type == hardware_pps_associated)
                && not (o.association_type == replay_preserved))) [
                  | inl unassociated ↦ rw unassociated v
                  | inr fine ↦ rw fine (add_pair-IsValid F n.mapping (pair_of o) v)
                ])
      ]

  -- The update that publishStatus makes keeps the invariant of the mapping state machine of the
  -- bridge.
  pub update_status-IsValid :
      (n : BridgeNode F) → IsValid F n.mapping → IsValid F (update_status n).mapping
  unfolding update_status
  update_status-IsValid n v = elim (Bool-cases (not (n.latest_local_ns == 0))) [
    | inl started ↦ rw started (update-IsValid F n.mapping n.latest_local_ns v)
    | inr waiting ↦ rw waiting v
  ]

  -- The callback on each observation in order.
  unfoldable pub observe_all : BridgeNode F → List UtcObservation → BridgeNode F
  observe_all n [] = n
  observe_all n (o ∷ observations) = observe_all (observe_utc n o) observations

  observe_utc-session :
      (n : BridgeNode F) (o : UtcObservation) → (observe_utc n o).session_id ≡ n.session_id
  unfolding observe_utc
  observe_utc-session n o = ground arith

  observe_utc-mapping :
      (n : BridgeNode F) (o : UtcObservation)
      → (observe_utc n o).mapping ≡ (
          if of_session n.session_id o && associated o
          then (add_pair F n.mapping (pair_of o)).0
          else n.mapping)
  unfolding observe_utc
  observe_utc-mapping n o = ground arith

  observe_utc-rejected :
      (n : BridgeNode F) (o : UtcObservation)
      → (observe_utc n o).rejected_observation_count ≡ (
          if of_session n.session_id o && not (associated o)
          then (n.rejected_observation_count + 1) % 2 ^ 32
          else n.rejected_observation_count)
  unfolding observe_utc
  observe_utc-rejected n o = ground arith

  add_pairs_if :
      (b : Bool) (m : MappingStateMachine F) (p : TimePair) (pairs : List TimePair)
      → add_pairs F (if b then (add_pair F m p).0 else m) pairs
        ≡ add_pairs F m (if b then p ∷ pairs else pairs)
  unfolding add_pairs
  add_pairs_if true m p pairs = refl
  add_pairs_if false m p pairs = refl

  -- Over any UTC observations of a bridge whose mapping state machine satisfies its invariant, the
  -- machine is the one after addPair on exactly the pairs of those that are valid, of the session
  -- of the bridge and associated with a pulse, in order; modulo 2^32, the count of rejected
  -- observations has grown by those that are valid and of the session, but not associated; and the
  -- machine still satisfies its invariant.
  pub observe_all-add_pairs :
      (observations : List UtcObservation) (n : BridgeNode F)
      → IsValid F n.mapping
      → ((observe_all n observations).mapping
          ≡ add_pairs F n.mapping (used_pairs n.session_id observations))
        × ((observe_all n observations).rejected_observation_count % 2 ^ 32
            ≡ (n.rejected_observation_count + count_unassociated n.session_id observations)
              % 2 ^ 32)
        × IsValid F (observe_all n observations).mapping
  unfolding observe_all add_pairs used_pairs count_unassociated
  observe_all-add_pairs [] n v = (refl, omega arith, v)
  observe_all-add_pairs (o ∷ observations) n v =
      let r = observe_all-add_pairs observations (observe_utc n o) (observe_utc-IsValid n o v) in
      let used = used_pairs n.session_id observations in
      let rest = count_unassociated n.session_id observations in
      let session = observe_utc-session n o in
      (
        r.0
            ∙ ap (λ s. add_pairs F (observe_utc n o).mapping (used_pairs s observations)) session
            ∙ ap (λ m. add_pairs F m used) (observe_utc-mapping n o)
            ∙ add_pairs_if _ n.mapping (pair_of o) used,
        count_if _ n.rejected_observation_count rest _ (
            r.1
            ∙ ap
                (λ s.
                  ((observe_utc n o).rejected_observation_count + count_unassociated s observations)
                  % 2 ^ 32)
                session
            ∙ ap (λ k. (k + rest) % 2 ^ 32) (observe_utc-rejected n o)),
        r.2,
      )
