-- ===== src/Node/Metric.antt =====
-- enum MetricType of src/backend/include/AnalysisMetric.hpp: the keys of a node's counters.
use casita.Prelude.{ℕ}

abbrev pub blame : ℕ
blame = 0

abbrev pub waiting_time : ℕ
waiting_time = 1

abbrev pub critical_path : ℕ
critical_path = 2

abbrev pub num_output_metrics : ℕ
num_output_metrics = 3

abbrev pub blame4idle : ℕ
blame4idle = 4

abbrev pub ompt_region_id : ℕ
ompt_region_id = 5

abbrev pub omp_ignore_barrier : ℕ
omp_ignore_barrier = 6

abbrev pub omp_first_offload_evt : ℕ
omp_first_offload_evt = 7
