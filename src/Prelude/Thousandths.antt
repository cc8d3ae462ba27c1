-- ===== src/Prelude/Thousandths.antt =====
-- Numbers of thousandths: a Float that computes, for tests.
use Prim.Native.Nat.{ℕ, zero, suc, ◌+◌, ◌-◌, ◌*◌, ◌/◌, ◌≤◌, ◌<◌}
use mathlib.Core.Path.{refl}
use mathlib.Core.Bool.{false}
use native.Mathlib.Omega.{arith}
use r8e.Prelude.Tests.{ltb, leb, if◌then◌else◌, leb→le, le→leb}
use r8e.Prelude.Float.{Float, FloatOrder, FloatLaws, FloatExact}

abbrev power : ℕ → ℕ → ℕ
power t zero = 1000
power t (suc n) = t * power t n / 1000

-- The logarithm to base two between powers of two on a line, for numbers from one on.
abbrev log_by : ℕ → ℕ → ℕ
log_by zero t = 0
log_by (suc fuel) t = let rest = log_by fuel (t / 2) in if ltb t 2000 then t - 1000 else 1000 + rest

abbrev pub thousandths : Float
thousandths = record {
  Carrier = ℕ;
  le = leb;
  of_int = λ n. 1000 * n;
  to_int = λ f. f / 1000;
  add = ◌+◌;
  sub = ◌-◌;
  mul = λ a b. a * b / 1000;
  div = λ a b. a * 1000 / b;
  pow = λ t e. power t (e / 1000);
  log = log_by 64;
  ceil = λ t. (t + 999) / 1000 * 1000;
  is_inf = λ _. false;
}

power_le : (t n : ℕ) → t ≤ 1000 → power t n ≤ 1000
power_le t zero h = omega arith
power_le t (suc n) h = grind (arith, power_le t n h)

div_le : (a b : ℕ) → a ≤ b → 0 < b → a * 1000 / b ≤ 1000
div_le a b h p = grind arith

mul_le_self : (a b : ℕ) → b ≤ 1000 → a * b / 1000 ≤ a
mul_le_self a b h = grind arith

leb_order : FloatOrder thousandths
leb_order = record {
  le_refl = λ a. ground arith;
  le_trans = λ a b c h k. ground arith;
  le_total = λ a b. ground arith;
}

pub thousandths_laws : FloatLaws thousandths
thousandths_laws = record {
  order = leb_order;
  of_int_mono = λ a b h. le→leb _ _ (omega arith);
  of_int_pos = λ n h. ground arith;
  to_int_mono = λ a b h. omega (arith, leb→le a b h);
  add_nonneg = λ a b h k. le→leb _ _ (omega arith);
  le_add = λ a b h. le→leb _ _ (omega arith);
  add_comm = λ a b. omega arith;
  mul_le = λ a b h k l. le→leb _ _ (mul_le_self a b (leb→le b 1000 l));
  sub_le = λ a b h. le→leb _ _ (omega arith);
  div_nonneg = λ a b h k. le→leb _ _ (omega arith);
  div_le_one = λ a b h k l. le→leb _ _ (div_le a b (leb→le a b k) (ground arith));
  pow_le_one = λ t e h k l. le→leb _ _ (power_le t (e / 1000) (leb→le t 1000 k));
}

pub thousandths_exact : FloatExact thousandths
thousandths_exact = record {
  to_int_exact = λ a h. omega arith;
  le_exact = λ a b h k. ground arith;
  sub_one = λ a h. omega arith;
  zero_sub_one = refl;
  le_half = λ a b h k. ground arith;
}
