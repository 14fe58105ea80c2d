-- ===== src/Kindle/Clock/Layout.antt =====
-- The clock's screen: every region lies on the screen, is large enough for FBInk, and is apart from
-- its neighbours.
use atlas.Base.{
  ℕ, zero, suc, ◌+◌, ◌-◌, ◌*◌, ◌/◌, ◌≤◌, ◌<◌, ◌≡◌, refl, true, max, List, [], ◌∷◌, All, pos, ◌+ℤ◌,
  ◌≤ℤ◌, arith, leb,
}
use atlas.Kindle.Rect.{DisplayRect}
use atlas.Kindle.Clock.{
  DashboardLayout, content_width, gutter, column_width, metric, rule_width, metric_rule,
  metric_divider, new_dashboard_layout,
}

-- On the screen, and refreshed by FBInk, which ignores regions of one pixel.
abbrev pub Fits : ℕ → ℕ → DisplayRect → Type 0
Fits screen_width screen_height box =
    (pos 0 ≤ℤ box.left)
    × (box.left +ℤ box.width ≤ℤ pos screen_width)
    × (pos 0 ≤ℤ box.top)
    × (box.top +ℤ box.height ≤ℤ pos screen_height)
    × (pos 2 ≤ℤ box.width)
    × (pos 2 ≤ℤ box.height)

abbrev pub Above : DisplayRect → DisplayRect → Type 0
Above a b = a.top +ℤ a.height ≤ℤ b.top

-- With two pixels or more between them.
abbrev pub LeftOf : DisplayRect → DisplayRect → Type 0
LeftOf a b = a.left +ℤ a.width +ℤ pos 2 ≤ℤ b.left

abbrev columns : ℕ → ℕ
columns w = (content_width w - 3 * gutter w) / 4

column_width-columns : (w : ℕ) → 28 ≤ w → column_width w ≡ pos (columns w)
unfolding column_width
column_width-columns w h =
    let room : leb (3 * gutter w) (content_width w) ≡ true = ground arith in rw room refl

columns_room : (w : ℕ) → 28 ≤ w → (2 ≤ columns w) × (4 * columns w + 3 * gutter w ≤ content_width w)
columns_room w h = (omega arith, omega arith)

rule_width-max : (c : ℕ) → rule_width (pos c) ≡ pos (max 2 (48 * c / 100))
rule_width-max c = ground arith

-- The offset of a column grows with its number.
column_offset : (i k n : ℕ) → i ≤ n → i * k ≤ n * k
column_offset zero k n h = omega arith
column_offset (suc i) k zero h = absurd (omega arith)
column_offset (suc i) k (suc n) h = grind (arith, column_offset i k n)

metric-Fits :
    (w h c i : ℕ)
    → 198 ≤ h
    → i < 4
    → 2 ≤ c
    → 4 * c + 3 * gutter w ≤ content_width w
    → Fits w h (metric w h (pos c) i)
metric-Fits w h c i tall few wide room =
    let far = column_offset i (c + gutter w) 3 (omega (arith, few)) in ground (arith, far)

metric_rule-Fits :
    (w h c i : ℕ)
    → 198 ≤ h
    → i < 4
    → 2 ≤ c
    → 4 * c + 3 * gutter w ≤ content_width w
    → Fits w h (metric_rule w h (pos c) i)
metric_rule-Fits w h c i tall few wide room =
    let far = column_offset i (c + gutter w) 3 (omega (arith, few)) in
    let small : leb (max 2 (48 * c / 100)) c ≡ true = ground arith in
    rw (rule_width-max c, small) (ground (arith, far))

metric_divider-Fits :
    (w h c i : ℕ)
    → 198 ≤ h
    → i < 3
    → 4 * c + 3 * gutter w ≤ content_width w
    → Fits w h (metric_divider w h (pos c) i)
metric_divider-Fits w h c i tall few room =
    let far = column_offset i (c + gutter w) 2 (omega (arith, few)) in ground (arith, far)

bands-Fit :
    (w h : ℕ)
    → 28 ≤ w
    → 198 ≤ h
    → let l = new_dashboard_layout w h in
      Fits w h l.clock
      × Fits w h l.clock_rule
      × Fits w h l.date
      × Fits w h l.divider
      × Fits w h l.climate
unfolding new_dashboard_layout
bands-Fit w h wide tall = (ground arith, ground arith, ground arith, ground arith, ground arith)

-- Each of the first regions of the second list is to the right of its neighbour in the first.
abbrev pub Interleaved : List DisplayRect → List DisplayRect → Type 0
Interleaved [] ds = Unit
Interleaved (c ∷ cs) [] = Unit
Interleaved (c ∷ []) (d ∷ ds) = Unit
Interleaved (c ∷ c' ∷ cs) (d ∷ ds) = LeftOf c d × LeftOf d c' × Interleaved (c' ∷ cs) ds

-- The regions of the clock's screen are where they are to be.
pub record WellPlaced (w h : ℕ) (l : DashboardLayout) : Type 0 where
  pub bands_fit :
      Fits w h l.clock
      × Fits w h l.clock_rule
      × Fits w h l.date
      × Fits w h l.divider
      × Fits w h l.climate
  pub metrics_fit : All (Fits w h) l.metrics
  pub rules_fit : All (Fits w h) l.metric_rules
  pub dividers_fit : All (Fits w h) l.metric_dividers
  pub stacked :
      Above l.clock l.clock_rule
      × Above l.clock_rule l.date
      × Above l.date l.divider
      × Above l.divider l.climate
  pub metrics_below :
      All (Above l.climate) l.metrics
      × All (Above l.climate) l.metric_rules
      × All (Above l.climate) l.metric_dividers
  pub interleaved : Interleaved l.metrics l.metric_dividers

metric-LeftOf :
    (w h c i : ℕ)
    → LeftOf (metric w h (pos c) i) (metric_divider w h (pos c) i)
      × LeftOf (metric_divider w h (pos c) i) (metric w h (pos c) (suc i))
metric-LeftOf w h c i =
    let next : suc i * (c + gutter w) ≡ i * (c + gutter w) + (c + gutter w) = grind arith in
    (omega arith, omega (arith, next))

-- On a screen of at least 28 by 198 pixels, every region of the clock's screen lies on it and is
-- at least two pixels wide and high; the clock, its rule, the date, the dotted line, the climate
-- and the metrics stand one below the other without overlap; and the four columns of metrics and
-- the three lines between them follow each other from left to right, two pixels or more apart.
pub new_dashboard_layout-WellPlaced :
    (w h : ℕ) → 28 ≤ w → 198 ≤ h → WellPlaced w h (new_dashboard_layout w h)
unfolding new_dashboard_layout
new_dashboard_layout-WellPlaced w h wide tall =
    let c = columns w in
    let (narrow, room) = columns_room w wide in
    let is_c = column_width-columns w wide in
    let first = metric-LeftOf w h c 0 in
    let second = metric-LeftOf w h c 1 in
    let third = metric-LeftOf w h c 2 in
    record {
      bands_fit = bands-Fit w h wide tall;
      metrics_fit = rw is_c (
        metric-Fits w h c 0 tall (omega arith) narrow room,
        (
          metric-Fits w h c 1 tall (omega arith) narrow room,
          (
            metric-Fits w h c 2 tall (omega arith) narrow room,
            (metric-Fits w h c 3 tall (omega arith) narrow room, tt),
          ),
        ),
      );
      rules_fit = rw is_c (
        metric_rule-Fits w h c 0 tall (omega arith) narrow room,
        (
          metric_rule-Fits w h c 1 tall (omega arith) narrow room,
          (
            metric_rule-Fits w h c 2 tall (omega arith) narrow room,
            (metric_rule-Fits w h c 3 tall (omega arith) narrow room, tt),
          ),
        ),
      );
      dividers_fit = rw is_c (
        metric_divider-Fits w h c 0 tall (omega arith) room,
        (
          metric_divider-Fits w h c 1 tall (omega arith) room,
          (metric_divider-Fits w h c 2 tall (omega arith) room, tt),
        ),
      );
      stacked = (omega arith, omega arith, omega arith, omega arith);
      metrics_below = (
        (omega arith, (omega arith, (omega arith, (omega arith, tt)))),
        (omega arith, (omega arith, (omega arith, (omega arith, tt)))),
        (omega arith, (omega arith, (omega arith, tt))),
      );
      interleaved = rw is_c (first.0, first.1, (second.0, second.1, (third.0, third.1, tt)));
    }
