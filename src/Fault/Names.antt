-- ===== src/Fault/Names.antt =====
-- `parseGnssFaultMode` and `gnssFaultModeName`.
use fast_livo_ug.Base.{
  ℕ, List, [], ◌∷◌, Option, none, some, Bool, true, false, ◌≡◌, ◌↔◌, ◌⊎◌, refl, ap, ◌∙◌,
  if◌then◌else◌, inl, inr, some_inj, same_text, same_text-eq,
}
use fast_livo_ug.Fault.{GnssFaultMode, passthrough, drop, float, invalid}

unfoldable pub gnss_fault_mode_name : GnssFaultMode → List ℕ
gnss_fault_mode_name passthrough =
    b'p' ∷ b'a' ∷ b's' ∷ b's' ∷ b't' ∷ b'h' ∷ b'r' ∷ b'o' ∷ b'u' ∷ b'g' ∷ b'h' ∷ []
gnss_fault_mode_name drop = b'd' ∷ b'r' ∷ b'o' ∷ b'p' ∷ []
gnss_fault_mode_name float = b'f' ∷ b'l' ∷ b'o' ∷ b'a' ∷ b't' ∷ []
gnss_fault_mode_name invalid = b'i' ∷ b'n' ∷ b'v' ∷ b'a' ∷ b'l' ∷ b'i' ∷ b'd' ∷ []

-- `none` is `return false`, which leaves the mode as it is.
unfoldable pub parse_gnss_fault_mode : List ℕ → Option GnssFaultMode
unfolding same_text gnss_fault_mode_name
parse_gnss_fault_mode value =
    if same_text value (gnss_fault_mode_name passthrough)
    then some passthrough
    else if same_text value (gnss_fault_mode_name drop)
    then some drop
    else if same_text value (gnss_fault_mode_name float)
    then some float
    else if same_text value (gnss_fault_mode_name invalid)
    then some invalid
    else none

-- One test of the chain.
chain_some :
    (b : Bool) (m n : GnssFaultMode) (rest : Option GnssFaultMode)
    → (if b then some m else rest) ≡ some n
    → ((b ≡ true) × (m ≡ n)) ⊎ (rest ≡ some n)
chain_some true m n rest h = inl (refl, some_inj h)
chain_some false m n rest h = inr h

parse_gnss_fault_mode-name :
    (m : GnssFaultMode) → parse_gnss_fault_mode (gnss_fault_mode_name m) ≡ some m
unfolding parse_gnss_fault_mode gnss_fault_mode_name same_text
parse_gnss_fault_mode-name passthrough = refl
parse_gnss_fault_mode-name drop = refl
parse_gnss_fault_mode-name float = refl
parse_gnss_fault_mode-name invalid = refl

named :
    (value : List ℕ) (m mode : GnssFaultMode)
    → (same_text value (gnss_fault_mode_name m) ≡ true) × (m ≡ mode)
    → value ≡ gnss_fault_mode_name mode
named value m mode (e, same) = same_text-eq value _ e ∙ ap gnss_fault_mode_name same

parse_gnss_fault_mode_sound :
    (value : List ℕ) (mode : GnssFaultMode)
    → parse_gnss_fault_mode value ≡ some mode
    → value ≡ gnss_fault_mode_name mode
unfolding parse_gnss_fault_mode
parse_gnss_fault_mode_sound value mode h =
    let is : GnssFaultMode → Bool = λ m. same_text value (gnss_fault_mode_name m) in
    let last : Option GnssFaultMode = if is invalid then some invalid else none in
    let later : Option GnssFaultMode = if is float then some float else last in
    elim (chain_some (is passthrough) passthrough mode (if is drop then some drop else later) h) [
      | inl e ↦ named value passthrough mode e
      | inr h₁ ↦ elim (chain_some (is drop) drop mode later h₁) [
        | inl e ↦ named value drop mode e
        | inr h₂ ↦ elim (chain_some (is float) float mode last h₂) [
          | inl e ↦ named value float mode e
          | inr h₃ ↦ elim (chain_some (is invalid) invalid mode none h₃) [
            | inl e ↦ named value invalid mode e
            | inr h₄ ↦ cc
          ]
        ]
      ]
    ]

-- parseGnssFaultMode accepts a text as a mode exactly if gnssFaultModeName gives that text for the
-- mode.
parse_gnss_fault_mode_iff :
    (value : List ℕ) (mode : GnssFaultMode)
    → (parse_gnss_fault_mode value ≡ some mode) ↔ (value ≡ gnss_fault_mode_name mode)
parse_gnss_fault_mode_iff value mode = (
  parse_gnss_fault_mode_sound value mode,
  λ e. ap parse_gnss_fault_mode e ∙ parse_gnss_fault_mode-name mode,
)
