-- ===== src/Kindle/Story/Tone/Examples.antt =====
-- The tones of a small picture, and instances of the theorems.
use native.Mathlib.Nat.{mul-le-mul, div-le_of_le-mul}
use atlas.Base.{ℕ, ◌+◌, ◌*◌, ◌/◌, ◌^◌, ◌≤◌, pos, ◌≡◌, refl, arith}
use atlas.Kindle.Story.Tone.{
  Gray, Floats, background, enhance_local_contrast, row_sum, integral, window_sum, value_at,
  histogram, count_row, value_from,
}
use atlas.Kindle.Story.Tone.Window.{sharpened_directly, enhance_local_contrast-direct}
use atlas.Kindle.Story.Tone.Range.{Ordered, background-bounds}

-- A slope from black to white.
abbrev slope : Gray
slope x y = x * 50 + y

-- Numbers in thousandths, on which a power is the number itself.
abbrev thousandths : Floats
thousandths = record {
  Float = ℕ;
  of_int = λ n. 1000 * n;
  decimal = λ digits places. 1000 * digits / 10 ^ places;
  div = λ a b. 1000 * a / b;
  pow = λ a b. a;
  mul = λ a b. a * b / 1000;
  round = λ a. (a + 500) / 1000;
}

thousandths-Ordered : Ordered thousandths (λ a b. a ≤ b)
thousandths-Ordered = record {
  constant = λ digits places. omega arith;
  quotient =
      λ a b some_range inside. (omega arith, div-le_of_le-mul (1000 * b) (omega (arith, inside)));
  power = λ a b zero_le one_le constant. (zero_le, one_le);
  product = λ a n zero_le one_le. (
    omega arith,
    div-le_of_le-mul 1000 (mul-le-mul {n₁ = a} {m₁ = 1000 * n} one_le (omega arith)),
  );
  rounded = λ a n zero_le most. omega (arith, most);
}

background-bounds_example :
    (12 ≤ background thousandths slope 6 4 2 1) × (background thousandths slope 6 4 2 1 ≤ 132)
background-bounds_example =
    background-bounds thousandths (λ a b. a ≤ b) slope 6 4 2 1 thousandths-Ordered

enhance_local_contrast-direct_example :
    enhance_local_contrast slope 6 4 2 40 1 1 ≡ sharpened_directly slope 6 4 2 40 1 1
enhance_local_contrast-direct_example =
    enhance_local_contrast-direct slope 6 4 2 40 1 1 (omega arith) (omega arith) (omega arith)
      (omega arith)

-- The sum of the first two rows and columns.
window_example : window_sum slope 0 2 0 2 ≡ pos 102
unfolding window_sum integral row_sum
window_example = refl

median : value_at slope 4 1 50 ≡ 50
unfolding value_at histogram count_row value_from
median = refl
