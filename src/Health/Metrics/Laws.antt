-- ===== src/Health/Metrics/Laws.antt =====
-- What registration and lookup promise.
use server_scan.Prelude.{
  String, none, some, List, [], ◌∷◌, ◌++◌, ◌≡◌, ◌≢◌, refl, str_eq, eq_iff, if◌then◌else◌, arith,
  All,
}
use server_scan.Prelude.Order.{str_order, on}
use server_scan.Prelude.Sort.{IsSorted}
use server_scan.Prelude.Sort.Laws.{sort-IsSorted, sort-perm}
use mathlib.Core.List.{Permᴰ}
use server_scan.Health.Metrics.{MetricDef, MetricRegistry, find_metric, get, register, all_metrics}

find_metric-append :
    (name : String) (ms : List MetricDef) (m : MetricDef)
    → find_metric m.name ms ≡ none
    → find_metric name (ms ++ m ∷ []) ≡ (if str_eq m.name name then some m else find_metric name ms)
find_metric-append name [] m h = refl
find_metric-append name (m' ∷ ms) m h = ground (
  arith,
  find_metric-append name ms m,
  eq_iff m.name name,
  eq_iff m'.name name,
  eq_iff m'.name m.name,
)

-- Registering a metric fails where its name is taken. Where it is free, it succeeds, the metric
-- is found under its name, and every other name finds what it found before.
pub register-get :
    (registry : MetricRegistry) (m : MetricDef)
    → (get registry m.name ≢ none → register registry m ≡ none)
      × (get registry m.name ≡ none
          → (registry' : MetricRegistry) × (register registry m ≡ some registry')
            × ((name : String)
                → get registry' name ≡ (if str_eq m.name name then some m else get registry name)))
unfolding register
register-get registry m = (
  λ taken. ground arith,
  λ free. (
    record registry { metrics = registry.metrics ++ m ∷ [] },
    rw free,
    λ name. unfold get in find_metric-append name registry.metrics m (unfold get in free),
  ),
)

abbrev pub HasDistinctNames : List MetricDef → Type 0
HasDistinctNames [] = Unit
HasDistinctNames (m ∷ ms) = All (λ m'. m.name ≢ m'.name) ms × HasDistinctNames ms

-- `all` lists every registered metric once, sorted by name.
pub all_metrics_lem :
    (registry : MetricRegistry)
    → IsSorted (on (λ m. m.name) str_order) (all_metrics registry)
      × Permᴰ (all_metrics registry) registry.metrics
unfolding all_metrics
all_metrics_lem registry = (sort-IsSorted _ registry.metrics, sort-perm _ registry.metrics)
