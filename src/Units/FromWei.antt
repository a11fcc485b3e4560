-- ===== src/Units/FromWei.antt =====
-- What `fromWei` writes.
use electroneum_web3_js.Base.{ℕ, ◌<◌, ◌≡◌, List, [], ◌∷◌, ◌++◌, map, ◌≢◌, ◌⊎◌}
use electroneum_web3_js.Text.{Text, lit, digit_char}

-- No digit 0 in front, and none at the end.
abbrev pub HasNoLeadingZero : List ℕ → Type 0
HasNoLeadingZero [] = Unit
HasNoLeadingZero (d ∷ ds) = 0 < d

abbrev pub HasNoTrailingZero : List ℕ → Type 0
HasNoTrailingZero [] = Unit
HasNoTrailingZero (d ∷ []) = 0 < d
HasNoTrailingZero (d ∷ e ∷ ds) = HasNoTrailingZero (e ∷ ds)

-- A text is a decimal number with these digits before and behind the point.
abbrev pub Writes : List ℕ → List ℕ → Text → Type 0
Writes integer fraction text =
    (integer ≡ []) × (text ≡ lit "0." ++ map digit_char fraction)
    ⊎ (integer ≢ []) × (fraction ≡ []) × (text ≡ map digit_char integer)
    ⊎ (integer ≢ [])
      × (fraction ≢ [])
      × (text ≡ map digit_char integer ++ (lit "." ++ map digit_char fraction))
