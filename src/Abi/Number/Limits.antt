-- ===== src/Abi/Number/Limits.antt =====
-- What `numberLimits` holds.
use electroneum_web3_js.Base.{
  ℕ, zero, suc, ◌+◌, ◌-◌, ◌*◌, ◌%◌, ◌^◌, ◌≤◌, ◌<◌, ◌≡◌, refl, ◌∙◌, sym, subst, Bool, true, false,
  ◌&&◌, Option, none, some, if◌then◌else◌, ltb, leb, ◌==◌, arith, Bool-cases, inl, inr, ltb→lt,
}
use electroneum_web3_js.Base.Int.{ℤ, pos, negsuc, pos_part, neg_part}
use electroneum_web3_js.Text.Hex.{holds_below, holds_below-lt}
use electroneum_web3_js.Abi.Number.{NumberType, Limit, limits_loop, find_limit, number_limits}
use native.Mathlib.Nat.{pow-le-pow_right}

-- The range of the numbers of a width: from 0 to `2 ^ bits - 1`, or from `- 2 ^ (bits - 1)`, which is
-- `negsuc (2 ^ (bits - 1) - 1)`, to `2 ^ (bits - 1) - 1`.
abbrev pub full_range : Bool → ℕ → Limit
full_range false bits = record { min = pos 0; max = pos (2 ^ bits - 1) }
full_range true bits = record { min = negsuc (2 ^ (bits - 1) - 1); max = pos (2 ^ (bits - 1) - 1) }

-- The limits of a type by its width: the full range, for the multiples of 8 from 8 to 256.
unfoldable pub width_limit : Bool → ℕ → Option Limit
width_limit signed bits =
    if leb 8 bits && leb bits 256 && bits % 8 == 0 then some (full_range signed bits) else none

int_eq : ℤ → ℤ → Bool
int_eq a b = pos_part a == pos_part b && neg_part a == neg_part b

limit_eq : Option Limit → Option Limit → Bool
limit_eq none none = true
limit_eq (some k) (some l) = int_eq k.min l.min && int_eq k.max l.max
limit_eq _ _ = false

int_eq→eq : (a b : ℤ) → int_eq a b ≡ true → a ≡ b
unfolding int_eq
int_eq→eq (pos a) (pos b) h = ground arith
int_eq→eq (pos a) (negsuc b) h = ground arith
int_eq→eq (negsuc a) (pos b) h = ground arith
int_eq→eq (negsuc a) (negsuc b) h = ground arith

limit_eq→eq : (o p : Option Limit) → limit_eq o p ≡ true → o ≡ p
unfolding limit_eq
limit_eq→eq none none h = refl
limit_eq→eq none (some l) h = cc
limit_eq→eq (some k) none h = cc
limit_eq→eq (some k) (some l) h = ground (arith, int_eq→eq k.min l.min, int_eq→eq k.max l.max)

agrees : Bool → ℕ → Bool
agrees signed bits =
    limit_eq (find_limit signed bits (limits_loop 32 8 256)) (width_limit signed bits)

table : (signed : Bool) → holds_below (agrees signed) 264 ≡ true
unfolding holds_below agrees limit_eq int_eq find_limit limits_loop width_limit
table true = refl
table false = refl

inside :
    (signed : Bool) (bits : ℕ)
    → bits < 264
    → find_limit signed bits (limits_loop 32 8 256) ≡ width_limit signed bits
inside signed bits h =
    let agreed : agrees signed bits ≡ true =
      holds_below-lt (agrees signed) 264 bits h (table signed) in
    limit_eq→eq _ _ (unfold agrees in agreed)

-- The loop writes no width from `i + 8 * rounds` on.
beyond :
    (rounds i base : ℕ) (signed : Bool) (bits : ℕ)
    → i + 8 * rounds ≤ bits
    → find_limit signed bits (limits_loop rounds i base) ≡ none
unfolding find_limit limits_loop
beyond zero i base signed bits h = refl
beyond (suc rounds) i base signed bits h =
    ground (arith, beyond rounds (i + 8) (base * 256) signed bits)

outside : (signed : Bool) (bits : ℕ) → 264 ≤ bits → width_limit signed bits ≡ none
unfolding width_limit
outside signed bits h = ground arith

find_limit-width_limit :
    (signed : Bool) (bits : ℕ)
    → find_limit signed bits (limits_loop 32 8 256) ≡ width_limit signed bits
find_limit-width_limit signed bits = elim (Bool-cases (ltb bits 264)) [
  | inl small ↦ inside signed bits (ltb→lt bits 264 small)
  | inr large ↦
      let le : 264 ≤ bits = ground arith in
      beyond 32 8 256 signed bits (omega arith) ∙ sym (outside signed bits le)
]

-- `numberLimits` has an entry for `int` and `uint` and for every width that is a multiple of 8 from
-- 8 to 256, and for no other; the entry is the full range of that width, from 0 to `2 ^ bits - 1`
-- without a sign and from `- 2 ^ (bits - 1)` to `2 ^ (bits - 1) - 1` with one.
pub number_limits-width_limit :
    (t : NumberType)
    → number_limits t ≡ width_limit t.signed (elim t.bits [ none ↦ 256 | some b ↦ b ])
unfolding number_limits
number_limits-width_limit t = find_limit-width_limit t.signed _

-- No limits span more than the values of a word.
pub record Fits (l : Limit) : Type 0 where
  pub low : pos_part l.min ≡ 0
  pub high : neg_part l.max ≡ 0
  pub span : neg_part l.min + pos_part l.max < 2 ^ 256

full_range-Fits : (signed : Bool) (bits : ℕ) → 1 ≤ bits → bits ≤ 256 → Fits (full_range signed bits)
full_range-Fits false bits h k =
    let large : 2 ^ bits ≤ 2 ^ 256 = pow-le-pow_right {n = 2} (omega arith) k in
    record { low = refl; high = refl; span = omega arith }
full_range-Fits true bits h k =
    let at_least : 0 ≤ bits - 1 = omega arith in
    let below : bits - 1 ≤ 255 = omega arith in
    let positive : 2 ^ 0 ≤ 2 ^ (bits - 1) = pow-le-pow_right {n = 2} (omega arith) at_least in
    let large : 2 ^ (bits - 1) ≤ 2 ^ 255 = pow-le-pow_right {n = 2} (omega arith) below in
    record { low = refl; high = refl; span = omega arith }

width_limit-Fits :
    (signed : Bool) (bits : ℕ) (l : Limit) → width_limit signed bits ≡ some l → Fits l
unfolding width_limit
width_limit-Fits signed bits l e = elim (Bool-cases (leb 8 bits && leb bits 256 && bits % 8 == 0)) [
  | inl good ↦
      let lo : 8 ≤ bits = ground arith in
      let hi : bits ≤ 256 = ground arith in
      let given : some (full_range signed bits) ≡ some l = rw good at e in
      let same : full_range signed bits ≡ l = cc given in
      subst Fits same (full_range-Fits signed bits (omega arith) hi)
  | inr bad ↦ absurd (ground arith)
]

pub number_limits-Fits : (t : NumberType) (l : Limit) → number_limits t ≡ some l → Fits l
number_limits-Fits t l e = width_limit-Fits t.signed _ l (sym (number_limits-width_limit t) ∙ e)
