-- ===== src/Prelude/Float.antt =====
-- The float64 values that are not NaN, with the operations of Go and of its package math that the
-- program calls on them. The program implements none of these, so they are a parameter.
use Prim.Native.Nat.{ℕ, suc, ◌*◌, ◌^◌, ◌≤◌, ◌<◌}
use mathlib.Core.Path.{◌≡◌}
use mathlib.Core.Logic.{◌⊎◌}
use mathlib.Core.Bool.{Bool, true, not}
use r8e.Prelude.Tests.{leb, if◌then◌else◌}

pub record Float : Type 1 where
  pub Carrier : Type 0
  pub le : Carrier → Carrier → Bool
  -- float64(n), of an integer that is not negative
  pub of_int : ℕ → Carrier
  -- int64(f), which drops the fraction, of a value that is not negative
  pub to_int : Carrier → ℕ
  pub add : Carrier → Carrier → Carrier
  pub sub : Carrier → Carrier → Carrier
  pub mul : Carrier → Carrier → Carrier
  pub div : Carrier → Carrier → Carrier
  -- math.Pow, math.Log and math.Ceil
  pub pow : Carrier → Carrier → Carrier
  pub log : Carrier → Carrier
  pub ceil : Carrier → Carrier
  -- math.IsInf(f, 1)
  pub is_inf : Carrier → Bool

module _ (fl : Float) where
  open fl use {Carrier, le, of_int, to_int, add, sub, mul, div, pow}

  abbrev pub lt : Carrier → Carrier → Bool
  lt a b = not (le b a)

  -- The builtins min and max.
  abbrev pub fmin : Carrier → Carrier → Carrier
  fmin a b = if le a b then a else b

  abbrev pub fmax : Carrier → Carrier → Carrier
  fmax a b = if le a b then b else a

  -- IEEE 754 orders the values that are not NaN.
  pub record FloatOrder : Type 0 where
    pub le_refl : (a : Carrier) → le a a ≡ true
    pub le_trans : (a b c : Carrier) → le a b ≡ true → le b c ≡ true → le a c ≡ true
    pub le_total : (a b : Carrier) → (le a b ≡ true) ⊎ (le b a ≡ true)

  -- The behaviour of IEEE 754 arithmetic, which rounds monotonically, and of math.Pow on values that
  -- are not negative.
  pub record FloatLaws : Type 0 where
    pub order : FloatOrder
    pub of_int_mono : (a b : ℕ) → a ≤ b → le (of_int a) (of_int b) ≡ true
    pub of_int_pos : (n : ℕ) → 0 < n → lt (of_int 0) (of_int n) ≡ true
    pub to_int_mono : (a b : Carrier) → le a b ≡ true → to_int a ≤ to_int b
    pub add_nonneg :
        (a b : Carrier)
        → le (of_int 0) a ≡ true
        → le (of_int 0) b ≡ true
        → le (of_int 0) (add a b) ≡ true
    pub le_add : (a b : Carrier) → le (of_int 0) a ≡ true → le b (add a b) ≡ true
    pub add_comm : (a b : Carrier) → add a b ≡ add b a
    pub mul_le :
        (a b : Carrier)
        → le (of_int 0) a ≡ true
        → le (of_int 0) b ≡ true
        → le b (of_int 1) ≡ true
        → le (mul a b) a ≡ true
    pub sub_le : (a b : Carrier) → le (of_int 0) b ≡ true → le (sub a b) a ≡ true
    pub div_nonneg :
        (a b : Carrier)
        → le (of_int 0) a ≡ true
        → lt (of_int 0) b ≡ true
        → le (of_int 0) (div a b) ≡ true
    pub div_le_one :
        (a b : Carrier)
        → le (of_int 0) a ≡ true
        → le a b ≡ true
        → lt (of_int 0) b ≡ true
        → le (div a b) (of_int 1) ≡ true
    pub pow_le_one :
        (t e : Carrier)
        → le (of_int 0) t ≡ true
        → le t (of_int 1) ≡ true
        → le (of_int 0) e ≡ true
        → le (pow t e) (of_int 1) ≡ true

  -- Integers up to 2 ^ 53, and their halves, are float64 values.
  pub record FloatExact : Type 0 where
    pub to_int_exact : (a : ℕ) → a ≤ 2 ^ 53 → to_int (of_int a) ≡ a
    pub le_exact : (a b : ℕ) → a ≤ 2 ^ 53 → b ≤ 2 ^ 53 → le (of_int a) (of_int b) ≡ leb a b
    pub sub_one : (a : ℕ) → a < 2 ^ 53 → sub (of_int (suc a)) (of_int 1) ≡ of_int a
    pub zero_sub_one : le (sub (of_int 0) (of_int 1)) (of_int 0) ≡ true
    pub le_half :
        (a b : ℕ)
        → a ≤ 2 ^ 53
        → b ≤ 2 ^ 53
        → le (of_int a) (div (of_int b) (of_int 2)) ≡ leb (2 * a) b
