-- ===== src/Tests/Queries.antt =====
-- The default query for the namespace `team`.
use gpu_budget_operator.Base.{
  ℕ, ◌*◌, String, List, [], ◌∷◌, ◌≡◌, refl, ◌==◌, string_dec, if◌then◌else◌,
}
use gpu_budget_operator.Metrics.{default_template, nanoseconds_per_minute, build_gpu_hours_query}
use gpu_budget_operator.Metrics.Rendered.{
  namespace, range, Part, words, hole, written, rendered, meaning, IsTemplate,
  build_gpu_hours_query-rendered,
}

abbrev default_parts : List Part
default_parts =
    words
      "label_replace(\n  sum by (product) (\n    sum_over_time(\n      (\n        kube_pod_resource_request{resource=~\"nvidia.com/.+\", exported_namespace=\""
    ∷ hole namespace
    ∷ words
        "\"}\n        * on(node) group_left(product) label_replace(kube_node_labels, \"product\", \"$1\", \"label_nvidia_com_gpu_product\", \"(.+)\")\n      )["
    ∷ hole range
    ∷ words ":5m]\n    ) * (5.0/60)\n  ),\n  \"gpuType\", \"$1\", \"product\", \"NVIDIA-(.+)\"\n)"
    ∷ []

abbrev duration : ℕ → String
duration n = "5h"

abbrev hours : ℕ → String
hours n = "5"

default_written : (if "" == "" then default_template else "") ≡ written default_parts
unfolding string_dec
default_written = refl

default_parts-IsTemplate : IsTemplate default_parts
default_parts-IsTemplate = (refl, (refl, (refl, (refl, (refl, tt)))))

build_gpu_hours_query-rendered_example :
    build_gpu_hours_query duration hours "" "team" (300 * nanoseconds_per_minute)
    ≡ rendered (meaning duration hours "team" (300 * nanoseconds_per_minute)) default_parts
build_gpu_hours_query-rendered_example =
    build_gpu_hours_query-rendered duration hours "team" (300 * nanoseconds_per_minute) ""
      default_parts default_parts-IsTemplate default_written refl refl
