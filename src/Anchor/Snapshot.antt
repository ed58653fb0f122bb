-- ===== src/Anchor/Snapshot.antt =====
-- Memories that whole writes leave, and what a reader alone takes from one.
use fast_livo_ug.Base.{ℕ, ◌%◌, ◌≡◌, List, [], ◌∷◌, arith, ◌==◌}
use fast_livo_ug.Base.Bits.{bit_and-one}
use fast_livo_ug.Anchor.{
  ImuTimeAnchorState, ImuTimeAnchorSnapshot, Anchor, Field, odd, write_state, no_snapshot, load,
  all_fields,
}

-- The memory after whole writes, one after another.
pub data Committed (m₀ : ImuTimeAnchorState) : ImuTimeAnchorState → Type 0 where
  initial : Committed m₀ m₀
  written : (m : ImuTimeAnchorState) (a : Anchor) → Committed m₀ m → Committed m₀ (write_state m a)

unfoldable pub load_all :
    List Field → ImuTimeAnchorState → ImuTimeAnchorSnapshot → ImuTimeAnchorSnapshot
load_all [] m c = c
load_all (f ∷ fields) m c = load_all fields m (load f m c)

-- What a reader with no writer beside it takes from a memory.
unfoldable pub snapshot_of : ImuTimeAnchorState → ImuTimeAnchorSnapshot
snapshot_of m = record (load_all all_fields m no_snapshot) { write_sequence = m.write_sequence }

pub odd-mod : (n : ℕ) → odd n ≡ (n % 2 == 1)
odd-mod n = rw (bit_and-one n) (ground arith)
