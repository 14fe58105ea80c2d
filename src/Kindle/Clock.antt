-- ===== src/Kindle/Clock.antt =====
-- internal/kindle/clock.go: where the clock's screen places what it shows.
pub mod Layout
pub mod Draw
pub mod Show
mod Examples
pub mod Face
use atlas.Base.{
  ℕ, zero, suc, ◌+◌, ◌-◌, ◌*◌, ◌/◌, max, List, [], ◌∷◌, map, ℤ, pos, negsuc, sub_ℕ, ◌+ℤ◌, ◌-ℤ◌,
  times, max_ℤ, div_ℤ,
}
use atlas.Kindle.Rect.{DisplayRect, scaled}

pub record DashboardLayout : Type 0 where
  pub clock : DisplayRect
  pub clock_rule : DisplayRect
  pub date : DisplayRect
  pub divider : DisplayRect
  pub climate : DisplayRect
  pub metrics : List DisplayRect
  pub metric_rules : List DisplayRect
  pub metric_dividers : List DisplayRect

-- The quantities of `newDashboardLayout` that are never negative on a screen of the given size.
abbrev pub line_height : ℕ → ℕ
line_height height = max 2 (height * 2 / 1000)

abbrev pub margin_x : ℕ → ℕ
margin_x width = width * 5 / 100

abbrev pub content_width : ℕ → ℕ
content_width width = width - 2 * margin_x width

abbrev pub divider_width : ℕ → ℕ
divider_width width = max 2 (width * 2 / 1000)

abbrev pub gutter : ℕ → ℕ
gutter width = max (divider_width width + 4) (width * 6 / 1000)

-- A column of metrics; negative on a screen of a few pixels.
unfoldable pub column_width : ℕ → ℤ
column_width width = div_ℤ (sub_ℕ (content_width width) (3 * gutter width)) 4

abbrev pub metrics_top : ℕ → ℕ
metrics_top height = height * 76 / 100

abbrev pub metrics_height : ℕ → ℕ
metrics_height height = height * 23 / 100

-- `left` in the loop over the columns, for the given width of a column
abbrev pub column_left : ℕ → ℤ → ℕ → ℤ
column_left width column i = pos (margin_x width) +ℤ times i (column +ℤ pos (gutter width))

abbrev pub metric : ℕ → ℕ → ℤ → ℕ → DisplayRect
metric width height column i = record {
  top = pos (metrics_top height);
  left = column_left width column i;
  width = column;
  height = pos (metrics_height height);
}

abbrev pub rule_width : ℤ → ℤ
rule_width column = max_ℤ (pos 2) (scaled column 48 100)

abbrev pub metric_rule : ℕ → ℕ → ℤ → ℕ → DisplayRect
metric_rule width height column i = record {
  top = pos (metrics_top height + metrics_height height * 19 / 100);
  left = column_left width column i +ℤ div_ℤ (column -ℤ rule_width column) 2;
  width = rule_width column;
  height = pos (line_height height);
}

abbrev pub metric_divider : ℕ → ℕ → ℤ → ℕ → DisplayRect
metric_divider width height column i = record {
  top = pos (metrics_top height + metrics_height height * 16 / 100);
  left = column_left width column i +ℤ column +ℤ pos ((gutter width - divider_width width) / 2);
  width = pos (divider_width width);
  height = pos (max 2 (metrics_height height * 68 / 100));
}

-- `newDashboardLayout`, on a screen of at least one pixel
unfoldable pub new_dashboard_layout : (width height : ℕ) → DashboardLayout
unfolding column_width
new_dashboard_layout width height =
    let column = column_width width in
    let rule = width * 38 / 100 in
    let clock_margin = width * 1 / 100 in
    record {
      clock = record {
        top = pos (height * 0 / 100);
        left = pos clock_margin;
        width = pos (width - 2 * clock_margin);
        height = pos (height * 55 / 100);
      };
      clock_rule = record {
        top = pos (height * 55 / 100);
        left = pos ((width - rule) / 2);
        width = pos rule;
        height = pos (line_height height);
      };
      date = record {
        top = pos (height * 56 / 100);
        left = pos (margin_x width);
        width = pos (content_width width);
        height = pos (height * 9 / 100);
      };
      divider = record {
        top = pos (height * 66 / 100);
        left = pos (margin_x width);
        width = pos (content_width width);
        height = pos (line_height height);
      };
      climate = record {
        top = pos (height * 67 / 100);
        left = pos (margin_x width);
        width = pos (content_width width);
        height = pos (height * 8 / 100);
      };
      metrics = map (metric width height column) (0 ∷ 1 ∷ 2 ∷ 3 ∷ []);
      metric_rules = map (metric_rule width height column) (0 ∷ 1 ∷ 2 ∷ 3 ∷ []);
      metric_dividers = map (metric_divider width height column) (0 ∷ 1 ∷ 2 ∷ []);
    }
