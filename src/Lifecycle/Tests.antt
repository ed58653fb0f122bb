-- ===== src/Lifecycle/Tests.antt =====
-- Runs of the lifecycle: two scans as they should be, and calls that throw.
use fast_livo_ug.Base.{ℕ, ◌+◌, ◌*◌, ◌≤◌, ◌≡◌, refl, List, [], ◌∷◌, ◌++◌, some, true, All}
use fast_livo_ug.Float.Whole.{whole}
use fast_livo_ug.Lifecycle.{
  LivoScanLifecycle, Scan, Call, begin, note_image, note_lio_transaction, note_map_insertion,
  second_lio, not_one_lio, new_lifecycle, and_then, require_active, validate_completed,
  note_state_time, start_scan, count_image, count_lio, count_insertion, call, calls,
}
use fast_livo_ug.Lifecycle.Checks.{IsEndpoint}
use fast_livo_ug.Lifecycle.Scans.{lio_times, lio_count, insertion_count, scan_contract}

abbrev scan : ℕ → Scan whole
scan id = record {
  scan_id = id;
  scan_begin_time = id * 10;
  scan_end_time = id * 10 + 10;
  raw_point_count = 1000;
  measurement_required = true;
  state_time = id * 10;
}

abbrev body : List (Call whole)
body = note_image 13 ∷ note_image 17 ∷ note_lio_transaction 20 ∷ note_map_insertion ∷ []

lio_twice :
    (calls (begin (scan 1) ∷ (body ++ (note_lio_transaction 20 ∷ []))) new_lifecycle).1
    ≡ some second_lio
unfolding calls call new_lifecycle and_then require_active validate_completed note_state_time
    start_scan count_image count_lio count_insertion
lio_twice = refl

no_lio :
    (calls (begin (scan 1) ∷ note_image 13 ∷ begin (scan 2) ∷ []) new_lifecycle).1
    ≡ some not_one_lio
unfolding calls call new_lifecycle and_then require_active validate_completed note_state_time
    start_scan count_image
no_lio = refl

abbrev last_state : LivoScanLifecycle whole
last_state = record {
  active = true;
  last_state_time = 20;
  snapshot = record {
    scan_id = 2;
    scan_begin_time = 20;
    scan_end_time = 30;
    raw_point_count = 1000;
    image_events = 0;
    lio_transactions = 0;
    map_insertions = 0;
    measurement_required = true;
    state_time_monotonic = true;
  };
}

scan_contract_example :
    (lio_count body ≤ 1)
    × (insertion_count body ≤ lio_count body)
    × (true ≡ true → lio_count body ≡ 1)
    × All (IsEndpoint whole 20) (lio_times body)
unfolding calls call new_lifecycle and_then require_active validate_completed note_state_time
    start_scan count_image count_lio count_insertion
scan_contract_example = scan_contract (scan 1) (scan 2) body [] new_lifecycle last_state tt refl
