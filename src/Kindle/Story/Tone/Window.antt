-- ===== src/Kindle/Story/Tone/Window.antt =====
-- internal/kindle/story.go: the table of `enhanceLocalContrast` gives the sums over its windows.
use atlas.Base.{
  ℕ, zero, suc, ◌+◌, ◌-◌, ◌*◌, ◌/◌, ◌≤◌, ◌<◌, min, false, ◌||◌, ◌==◌, ltb, leb, Bool-cases, inl,
  inr, pos, ◌+ℤ◌, ◌-ℤ◌, ◌≡◌, refl, ap, subst, arith,
}
use atlas.Kindle.Story.Tone.{Gray, row_sum, integral, window_sum, sharpened, enhance_local_contrast}

-- The sum of `n` pixels of a row from a column on, and of `m` such rows from a row on.
unfoldable pub strip : Gray → (y x n : ℕ) → ℕ
strip g y x zero = 0
strip g y x (suc n) = strip g y x n + g (x + n) y

unfoldable pub block : Gray → (y m x n : ℕ) → ℕ
unfolding strip
block g y zero x n = 0
block g y (suc m) x n = block g y m x n + strip g (y + m) x n

plus_zero : (x : ℕ) → x + 0 ≡ x
plus_zero x = omega arith

plus_suc : (x n : ℕ) → x + suc n ≡ suc (x + n)
plus_suc x n = omega arith

row_sum-split : (g : Gray) (y x n : ℕ) → row_sum g y (x + n) ≡ row_sum g y x + strip g y x n
unfolding row_sum strip
row_sum-split g y x zero = rw (plus_zero x, plus_zero (row_sum g y x)) refl
row_sum-split g y x (suc n) = rw (plus_suc x n) (omega (arith, row_sum-split g y x n))

integral-row : (g : Gray) (y x : ℕ) → integral g (suc y) x ≡ integral g y x + row_sum g y x
unfolding integral row_sum
integral-row g zero zero = refl
integral-row g (suc y) zero = refl
integral-row g y (suc x) = refl

integral-block :
    (g : Gray) (y m x n : ℕ)
    → integral g (y + m) (x + n) + integral g y x
      ≡ integral g (y + m) x + integral g y (x + n) + block g y m x n
unfolding block
integral-block g y zero x n = rw (plus_zero y) (omega arith)
integral-block g y (suc m) x n =
    rw (plus_suc y m, integral-row g (y + m) (x + n), integral-row g (y + m) x)
      (omega (arith, integral-block g y m x n, row_sum-split g (y + m) x n))

four_looks : (a b c d s : ℕ) → a + d ≡ c + b + s → pos a -ℤ pos b -ℤ pos c +ℤ pos d ≡ pos s
four_looks a b c d s h = elim (Bool-cases (leb b a)) [
  | inl down ↦ rw down (elim (Bool-cases (leb c (a - b))) [
    | inl more ↦ rw more (ap pos (ground (arith, h)))
    | inr less ↦ rw less (ground (arith, h))
  ])
  | inr up ↦ rw up (ground (arith, h))
]

fits : (a b : ℕ) → a ≤ b → a + (b - a) ≡ b
fits a b h = omega (arith, h)

no_case :
    (width height radius amount x y : ℕ)
    → x < width
    → y < height
    → 1 ≤ radius
    → 1 ≤ amount
    → (width == 0 || height == 0 || ltb radius 1 || amount == 0) ≡ false
no_case width height radius amount x y hx hy hr ha = ground arith

-- The sum over a window is that of its pixels.
pub window_sum-block :
    (g : Gray) (y0 y1 x0 x1 : ℕ)
    → y0 ≤ y1
    → x0 ≤ x1
    → window_sum g y0 y1 x0 x1 ≡ pos (block g y0 (y1 - y0) x0 (x1 - x0))
unfolding window_sum
window_sum-block g y0 y1 x0 x1 hy hx =
    four_looks (integral g y1 x1) (integral g y0 x1) (integral g y1 x0) (integral g y0 x0)
      (block g y0 (y1 - y0) x0 (x1 - x0))
      (subst
        (λ v.
          integral g v x1 + integral g y0 x0
          ≡ integral g v x0 + integral g y0 x1 + block g y0 (y1 - y0) x0 (x1 - x0))
        (fits y0 y1 hy)
        (subst
          (λ u.
            integral g (y0 + (y1 - y0)) u + integral g y0 x0
            ≡ integral g (y0 + (y1 - y0)) x0 + integral g y0 u + block g y0 (y1 - y0) x0 (x1 - x0))
          (fits x0 x1 hx) (integral-block g y0 (y1 - y0) x0 (x1 - x0))))

-- A pixel sharpened against the mean of the pixels around it, taken directly.
unfoldable pub sharpened_directly : Gray → (width height radius amount : ℕ) → Gray
unfolding block sharpened
sharpened_directly g width height radius amount x y =
    let y0 = y - radius in
    let rows = min height (y + radius + 1) - y0 in
    let x0 = x - radius in
    let columns = min width (x + radius + 1) - x0 in
    sharpened (g x y) (pos (block g y0 rows x0 columns / (columns * rows))) amount

-- Inside a picture, with a radius of at least one and an amount that is not zero, each pixel comes out
-- as it does when the mean around it is summed directly: the table of sums changes nothing.
pub enhance_local_contrast-direct :
    (g : Gray) (width height radius amount x y : ℕ)
    → x < width
    → y < height
    → 1 ≤ radius
    → 1 ≤ amount
    → enhance_local_contrast g width height radius amount x y
      ≡ sharpened_directly g width height radius amount x y
unfolding enhance_local_contrast sharpened_directly
enhance_local_contrast-direct g width height radius amount x y hx hy hr ha =
    let y0 = y - radius in
    let y1 = min height (y + radius + 1) in
    let x0 = x - radius in
    let x1 = min width (x + radius + 1) in
    rw
      (
        no_case width height radius amount x y hx hy hr ha,
        window_sum-block g y0 y1 x0 x1 (omega (arith, hy)) (omega (arith, hx)),
      )
      refl
