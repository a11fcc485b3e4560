-- ===== src/Dict.antt =====
-- A JavaScript `Map`: its entries in the order in which their keys were first set.
use electroneum_web3_js.Base.{
  ℕ, ◌≡◌, refl, ◌↔◌, List, [], ◌∷◌, Bool, true, Option, none, some, if◌then◌else◌, ◌==◌, ==_iff,
  arith,
}
use electroneum_web3_js.Text.{Text, text_eq}
use electroneum_web3_js.Text.Hex.{text_eq→eq}

-- Keys that `===` compares by value.
pub record Key (K : Type 0) : Type 0 where
  pub same : K → K → Bool
  pub same_iff : (j k : K) → (same j k ≡ true) ↔ (j ≡ k)

text_eq_self : (t : Text) → text_eq t t ≡ true
text_eq_self [] = refl
text_eq_self (c ∷ t) = ground (arith, text_eq_self t)

pub text_eq_iff : (s t : Text) → (text_eq s t ≡ true) ↔ (s ≡ t)
text_eq_iff s t = (text_eq→eq s t, λ e. rw e (text_eq_self t))

instance abbrev pub number_key : Key ℕ
number_key = record { same = ◌==◌; same_iff = ==_iff }

instance abbrev pub text_key : Key Text
text_key = record { same = text_eq; same_iff = text_eq_iff }

module _ {ℓ} {K : Type 0} {V : Type ℓ} ⦃key : Key K⦄ where
  unfoldable pub lookup : K → List (K × V) → Option V
  lookup k [] = none
  lookup k ((j, v) ∷ m) = if key.same j k then some v else lookup k m

  unfoldable pub insert : K → V → List (K × V) → List (K × V)
  insert k v [] = (k, v) ∷ []
  insert k v ((j, w) ∷ m) = if key.same j k then (j, v) ∷ m else (j, w) ∷ insert k v m

  -- A `Map` has one entry for a key; all of them go.
  unfoldable pub delete : K → List (K × V) → List (K × V)
  delete k [] = []
  delete k ((j, w) ∷ m) = let rest = delete k m in if key.same j k then rest else (j, w) ∷ rest

  pub lookup-insert :
      (j k : K) (v : V) (m : List (K × V))
      → lookup j (insert k v m) ≡ (if key.same k j then some v else lookup j m)
  unfolding lookup insert
  lookup-insert j k v [] = refl
  lookup-insert j k v ((i, w) ∷ m) =
      ground (arith, key.same_iff k j, key.same_iff i k, key.same_iff i j, lookup-insert j k v m)

  pub lookup-delete :
      (j k : K) (m : List (K × V))
      → lookup j (delete k m) ≡ (if key.same k j then none else lookup j m)
  unfolding lookup delete
  lookup-delete j k [] = ground arith
  lookup-delete j k ((i, w) ∷ m) =
      ground (arith, key.same_iff k j, key.same_iff i k, key.same_iff i j, lookup-delete j k m)
