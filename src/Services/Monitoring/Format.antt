-- ===== src/Services/Monitoring/Format.antt =====
-- `_append_gauge` and `_append_labeled_gauge` of app/services/monitoring_service.py: the Prometheus text
-- format. A call of one of them is a `Metric`; a text that is printed is the list of its code points.
use uav_dag_offload_platform.Common.{
  ℕ, zero, suc, ◌+◌, ◌/◌, ◌%◌, String, Bool, true, false, ◌&&◌, ◌||◌, List, [], ◌∷◌, ◌++◌, map, eqb,
  ltb, if◌then◌else◌,
}
use uav_dag_offload_platform.Common.Equality.{◌==◌, string_eq}
use uav_dag_offload_platform.Common.Int.{ℤ, pos, negsuc, leb_ℤ}
use uav_dag_offload_platform.Db.Pages.{order_by}
use uav_dag_offload_platform.Services.Monitoring.Label.{Text, codes, newline, escape_label_value}

abbrev pub Values : Type 0
Values = List (String × ℤ)

pub data Metric : Type 0 where
  gauge : (name help_text : String) (value : ℤ) → Metric
  labeled_gauge : (name help_text label_name : String) (values : Values) → Metric

-- str(n): the digits of `n`, before those already written. Each round has fewer digits to write, so
-- that fuel of `n` is enough.
unfoldable pub digits : (fuel n : ℕ) → Text → Text
digits zero n text = (b'0' + n % 10) ∷ text
digits (suc fuel) n text =
    let rest = digits fuel (n / 10) ((b'0' + n % 10) ∷ text) in
    if ltb n 10 then (b'0' + n % 10) ∷ text else rest

unfoldable pub text_of_int : ℤ → Text
unfolding digits
text_of_int (pos n) = digits n n []
text_of_int (negsuc n) = b'-' ∷ digits (suc n) (suc n) []

-- str.__lt__: by code points.
unfoldable text_lt : Text → Text → Bool
text_lt text [] = false
text_lt [] (d ∷ text') = true
text_lt (c ∷ text) (d ∷ text') = ltb c d || (eqb c d && text_lt text text')

-- The order of `sorted(values.items())`.
unfoldable pub item_le : String × ℤ → String × ℤ → Bool
unfolding text_lt
item_le (k, m) (j, n) = if k == j then leb_ℤ m n else text_lt (codes k) (codes j)

unfoldable pub append_gauge : List Text → String → String → ℤ → List Text
unfolding text_of_int
append_gauge lines name help_text value =
    lines
    ++ (codes "# HELP " ++ codes name ++ codes " " ++ codes help_text)
      ∷ (codes "# TYPE " ++ codes name ++ codes " gauge")
      ∷ (codes name ++ codes " " ++ text_of_int value)
      ∷ []

unfoldable pub sample_line : String → String → String × ℤ → Text
unfolding text_of_int escape_label_value
sample_line name label_name (label_value, count) =
    codes name
    ++ codes "{"
    ++ codes label_name
    ++ codes "=\""
    ++ escape_label_value (codes label_value)
    ++ codes "\"} "
    ++ text_of_int count

unfoldable pub append_labeled_gauge : List Text → String → String → String → Values → List Text
unfolding sample_line item_le order_by
append_labeled_gauge lines name help_text label_name values =
    lines
    ++ (codes "# HELP " ++ codes name ++ codes " " ++ codes help_text)
      ∷ (codes "# TYPE " ++ codes name ++ codes " gauge")
      ∷ map (sample_line name label_name) (order_by item_le values)

unfoldable pub append_metric : List Text → Metric → List Text
unfolding append_gauge append_labeled_gauge
append_metric lines (gauge name help_text value) = append_gauge lines name help_text value
append_metric lines (labeled_gauge name help_text label_name values) =
    append_labeled_gauge lines name help_text label_name values

unfoldable pub append_metrics : List Text → List Metric → List Text
unfolding append_metric
append_metrics lines [] = lines
append_metrics lines (metric ∷ metrics) = append_metrics (append_metric lines metric) metrics

-- "\n".join(lines) + "\n"
unfoldable pub join_lines : List Text → Text
join_lines [] = newline ∷ []
join_lines (line ∷ []) = line ++ newline ∷ []
join_lines (line ∷ lines) = line ++ newline ∷ join_lines lines
