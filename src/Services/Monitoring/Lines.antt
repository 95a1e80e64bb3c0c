-- ===== src/Services/Monitoring/Lines.antt =====
-- What a reader of the printed metrics sees of them, line by line.
use uav_dag_offload_platform.Common.{
  ℕ, zero, suc, ◌+◌, ◌/◌, ◌%◌, ◌≡◌, ◌≤◌, length, length-append, refl, ap, ◌∙◌, String, Bool, true,
  ◌&&◌, List, [], ◌∷◌, ◌++◌, map, arith, eqb, if◌then◌else◌,
}
use mathlib.Core.Path.{subst}
use uav_dag_offload_platform.Common.Int.{ℤ, pos, negsuc}
use uav_dag_offload_platform.Core.Errors.{ok}
use uav_dag_offload_platform.Db.Models.{Datetime}
use uav_dag_offload_platform.Db.Pages.{order_by}
use uav_dag_offload_platform.Db.Store.{Store}
use uav_dag_offload_platform.Db.Table.{all_rows, All}
use uav_dag_offload_platform.Services.Queues.{Response, QueueMonitoringSnapshot, load_snapshots}
use uav_dag_offload_platform.Services.Queues.Snapshots.{is_readable, load_snapshots-returns}
use uav_dag_offload_platform.Services.Workers.Snapshot.{
  WorkerHeartbeatSnapshot, load_worker_snapshot, count_by_type,
}
use uav_dag_offload_platform.Services.Monitoring.Label.{
  Text, codes, newline, is_one_line, is_one_line-append, escape-one_line,
}
use uav_dag_offload_platform.Services.Monitoring.Snapshot.{MonitoringSnapshot, load_snapshot}
use uav_dag_offload_platform.Services.Monitoring.Format.{
  Metric, Values, gauge, labeled_gauge, digits, text_of_int, sample_line, item_le, append_gauge,
  append_labeled_gauge, append_metric, append_metrics, join_lines,
}
use uav_dag_offload_platform.Services.Monitoring.{
  MonitoringSettings, metrics, render_prometheus_metrics,
}

abbrev with_first : ℕ → List Text → List Text
with_first c [] = (c ∷ []) ∷ []
with_first c (line ∷ lines) = (c ∷ line) ∷ lines

-- The lines of a text, each ended by a newline.
unfoldable pub split_lines : Text → List Text
split_lines [] = []
split_lines (c ∷ text) =
    let rest = split_lines text in if eqb c newline then [] ∷ rest else with_first c rest

split-line :
    (line rest : Text)
    → is_one_line line ≡ true
    → split_lines (line ++ newline ∷ rest) ≡ line ∷ split_lines rest
unfolding split_lines all_rows
split-line [] rest clean = refl
split-line (c ∷ line) rest clean = ground (arith, split-line line rest)

split-join :
    (line : Text) (lines : List Text)
    → All (λ l. is_one_line l ≡ true) (line ∷ lines)
    → split_lines (join_lines (line ∷ lines)) ≡ line ∷ lines
unfolding join_lines
split-join line [] clean = split-line line [] clean.0 ∙ (unfold split_lines in refl)
split-join line (next ∷ lines) clean =
    split-line line (join_lines (next ∷ lines)) clean.0
    ∙ ap (λ ls. line ∷ ls) (split-join next lines clean.1)

digits-one_line :
    (fuel n : ℕ) (text : Text) → is_one_line text ≡ true → is_one_line (digits fuel n text) ≡ true
unfolding digits all_rows
digits-one_line zero n text clean = ground (arith, clean)
digits-one_line (suc fuel) n text clean =
    ground (arith, clean, digits-one_line fuel (n / 10) ((b'0' + n % 10) ∷ text))

int-one_line : (n : ℤ) → is_one_line (text_of_int n) ≡ true
unfolding text_of_int
int-one_line (pos n) = digits-one_line n n [] (unfold all_rows in refl)
int-one_line (negsuc n) =
    is_one_line-append (b'-' ∷ []) (digits (suc n) (suc n) []) (unfold all_rows in refl)
      (digits-one_line (suc n) (suc n) [] (unfold all_rows in refl))

one_line-append_eq : (a b : Text) → is_one_line (a ++ b) ≡ (is_one_line a && is_one_line b)
unfolding all_rows
one_line-append_eq [] b = refl
one_line-append_eq (c ∷ a) b = ground (arith, one_line-append_eq a b)

help-one_line :
    (name help_text : Text)
    → is_one_line name ≡ true
    → is_one_line help_text ≡ true
    → is_one_line (codes "# HELP " ++ name ++ codes " " ++ help_text) ≡ true
unfolding all_rows
help-one_line name help_text first second = simp (one_line-append_eq, first, second)

type-one_line :
    (name : Text)
    → is_one_line name ≡ true
    → is_one_line (codes "# TYPE " ++ name ++ codes " gauge") ≡ true
unfolding all_rows
type-one_line name first = simp (one_line-append_eq, first)

value-one_line :
    (name : Text) (value : ℤ)
    → is_one_line name ≡ true
    → is_one_line (name ++ codes " " ++ text_of_int value) ≡ true
unfolding all_rows
value-one_line name value first = simp (one_line-append_eq, first, int-one_line value)

sample-one_line :
    (name label_name : String) (item : String × ℤ)
    → is_one_line (codes name) ≡ true
    → is_one_line (codes label_name) ≡ true
    → is_one_line (sample_line name label_name item) ≡ true
unfolding sample_line all_rows
sample-one_line name label_name (label_value, count) first second =
    simp
      (one_line-append_eq, first, second, escape-one_line (codes label_value), int-one_line count)

AreLines : List Text → Type 0
AreLines lines = All (λ line. is_one_line line ≡ true) lines

append-AreLines : (xs ys : List Text) → AreLines xs → AreLines ys → AreLines (xs ++ ys)
unfolding AreLines
append-AreLines [] ys first second = second
append-AreLines (x ∷ xs) ys first second = (first.0, append-AreLines xs ys first.1 second)

samples-AreLines :
    (name label_name : String) (values : Values)
    → is_one_line (codes name) ≡ true
    → is_one_line (codes label_name) ≡ true
    → AreLines (map (sample_line name label_name) values)
unfolding AreLines
samples-AreLines name label_name [] first second = tt
samples-AreLines name label_name (item ∷ values) first second = (
  sample-one_line name label_name item first second,
  samples-AreLines name label_name values first second,
)

-- The names and texts of a call have no newline.
abbrev is_clean : Metric → Bool
is_clean (gauge name help_text value) = is_one_line (codes name) && is_one_line (codes help_text)
is_clean (labeled_gauge name help_text label_name values) =
    is_one_line (codes name) && is_one_line (codes help_text) && is_one_line (codes label_name)

module _ (settings : MonitoringSettings) (snapshot : MonitoringSnapshot)
    (queue_snapshots : List QueueMonitoringSnapshot) (worker_snapshot : WorkerHeartbeatSnapshot)
    (alerts_by_type : List (String × ℕ)) where
  metrics-clean :
      all_rows is_clean (metrics settings snapshot queue_snapshots worker_snapshot alerts_by_type)
      ≡ true
  unfolding metrics all_rows
  metrics-clean = refl

and-split : (a b : Bool) → (a && b) ≡ true → (a ≡ true) × (b ≡ true)
and-split a b h = (ground (arith, h), ground (arith, h))

metric-AreLines :
    (lines : List Text) (metric : Metric)
    → is_clean metric ≡ true
    → AreLines lines
    → AreLines (append_metric lines metric)
unfolding append_metric append_gauge append_labeled_gauge AreLines
metric-AreLines lines (gauge name help_text value) clean before =
    let (first, second) = and-split _ _ clean in
    append-AreLines lines _ before (
      help-one_line (codes name) (codes help_text) first second,
      (type-one_line (codes name) first, (value-one_line (codes name) value first, tt)),
    )
metric-AreLines lines (labeled_gauge name help_text label_name values) clean before =
    let (both, third) = and-split _ _ clean in
    let (first, second) = and-split _ _ both in
    append-AreLines lines _ before (
      help-one_line (codes name) (codes help_text) first second,
      (
        type-one_line (codes name) first,
        samples-AreLines name label_name (order_by item_le values) first third,
      ),
    )

metrics-AreLines :
    (lines : List Text) (ms : List Metric)
    → all_rows is_clean ms ≡ true
    → AreLines lines
    → AreLines (append_metrics lines ms)
unfolding append_metrics all_rows
metrics-AreLines lines [] clean before = before
metrics-AreLines lines (m ∷ ms) clean before =
    let (first, rest) = and-split (is_clean m) (all_rows is_clean ms) clean in
    metrics-AreLines (append_metric lines m) ms rest (metric-AreLines lines m first before)

metric-length :
    (lines : List Text) (metric : Metric) → 2 + length lines ≤ length (append_metric lines metric)
unfolding append_metric append_gauge append_labeled_gauge
metric-length lines (gauge name help_text value) = omega (arith, length-append lines _)
metric-length lines (labeled_gauge name help_text label_name values) =
    omega (arith, length-append lines _)

metrics-length :
    (lines : List Text) (ms : List Metric) → length lines ≤ length (append_metrics lines ms)
unfolding append_metrics
metrics-length lines [] = omega arith
metrics-length lines (m ∷ ms) =
    omega (arith, metric-length lines m, metrics-length (append_metric lines m) ms)

some_metrics-length :
    (lines : List Text) (m : Metric) (ms : List Metric) → 2 ≤ length (append_metrics lines (m ∷ ms))
unfolding append_metrics
some_metrics-length lines m ms =
    omega (arith, metric-length lines m, metrics-length (append_metric lines m) ms)

module _ (settings : MonitoringSettings) (fetch : String → Response) (now : Datetime)
    (s : Store) where
  -- The lines that are printed beside these snapshots of the queues.
  abbrev pub metric_lines : List QueueMonitoringSnapshot → List Text
  metric_lines queue_snapshots = append_metrics [] (
      metrics settings (load_snapshot s) queue_snapshots
        (load_worker_snapshot settings.worker_heartbeat_timeout_seconds now s.worker_heartbeats)
        (count_by_type s.worker_alerts))

  metric_lines-length :
      (queue_snapshots : List QueueMonitoringSnapshot) → 2 ≤ length (metric_lines queue_snapshots)
  unfolding metrics
  metric_lines-length queue_snapshots = some_metrics-length [] _ _

  split-metric_lines :
      (queue_snapshots : List QueueMonitoringSnapshot)
      → (lines : List Text) → metric_lines queue_snapshots ≡ lines
      → split_lines (join_lines lines) ≡ lines
  unfolding AreLines
  split-metric_lines queue_snapshots [] same =
      absurd (omega (arith, ap length same, metric_lines-length queue_snapshots))
  split-metric_lines queue_snapshots (line ∷ lines) same = split-join line lines (
      subst AreLines same (
        metrics-AreLines []
          (metrics settings (load_snapshot s) queue_snapshots
            (load_worker_snapshot settings.worker_heartbeat_timeout_seconds now s.worker_heartbeats)
            (count_by_type s.worker_alerts))
          (metrics-clean settings (load_snapshot s) queue_snapshots
            (load_worker_snapshot settings.worker_heartbeat_timeout_seconds now s.worker_heartbeats)
            (count_by_type s.worker_alerts))
          tt))

  -- Unless a queue's response raises an exception that is not caught, or holds a number without an
  -- integer part, the metrics are printed, and a reader who splits the text at newlines finds just the
  -- lines of the metrics: no help text, name, label value or number breaks a line.
  pub render_prometheus_metrics-lines :
      ((queue_name : String) → is_readable (fetch queue_name) ≡ true)
      → (queue_snapshots : List QueueMonitoringSnapshot) × (text : Text) × (load_snapshots
            settings.queues fetch
          ≡ ok queue_snapshots)
        × (render_prometheus_metrics settings fetch now s ≡ ok text)
        × (split_lines text ≡ metric_lines queue_snapshots)
  unfolding render_prometheus_metrics
  render_prometheus_metrics-lines readable =
      let (queue_snapshots, returned, _, _, _) =
        load_snapshots-returns settings.queues fetch readable in
      (
        queue_snapshots,
        join_lines (metric_lines queue_snapshots),
        returned,
        rw returned,
        split-metric_lines queue_snapshots (metric_lines queue_snapshots) refl,
      )
