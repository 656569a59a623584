-- ===== src/Tests/Catalog.antt =====
-- Runs of server/src/domain/catalog.ts, and its properties at inputs.
use skills_dashboard.Common.{◌*◌}
use skills_dashboard.Common.{length}
use skills_dashboard.Common.{◌+◌}
use skills_dashboard.Common.{All}
use mathlib.Core.List.{get_or}
use skills_dashboard.Common.{
  ◌≡◌, refl, subst, ◌↔◌, inl, inr, false, none, List, [], ◌∷◌, ◌++◌, map, Bool-cases, Listed, ok,
}
use mathlib.Core.List.Perm
use skills_dashboard.Series.{percent}
use skills_dashboard.Text.{Text, text, text_eq, is_empty, join, starts_with}
use skills_dashboard.Text.Laws.{text_eq-eq}
use skills_dashboard.Text.Decimal.{show}
use skills_dashboard.Catalog.{MetricSpec}
use skills_dashboard.Catalog.Specs.{all_metrics, pod_resource_metrics, specs_with_prefix}
use skills_dashboard.Catalog.Search.{
  query_id, id_chars, search_expression, sort, insert, keys, field, filter_terms, filter_term,
  expression, json_quote, json_chars,
}
use skills_dashboard.Catalog.Ids.{query_id_unique}
use skills_dashboard.Catalog.Order.{search_expression-Perm}
use skills_dashboard.Catalog.Quoting.{
  search_expression-occurrences, occurrences, closed, Searchable,
}
use skills_dashboard.Catalog.Accepts.{search_expression_iff, Embeds}

program : Unit {0}
unfolding query_id id_chars search_expression sort insert filter_terms filter_term expression
    json_quote json_chars join show specs_with_prefix starts_with
program = tt

abbrev cpu : MetricSpec
cpu = record {
  key = text "pod.cpu";
  label = text "CPU";
  namespace = text "ContainerInsights";
  metric_name = text "pod_cpu_utilization";
  stat = text "Average";
  measure = percent;
  color = text "systemIndigo";
  intent = none;
  dimensions = text "ClusterName" ∷ text "PodName" ∷ [];
}

abbrev fields : List (Text × Text)
fields = (text "PodName", text "web-1") ∷ (text "ClusterName", text "prod") ∷ []

abbrev swapped : List (Text × Text)
swapped = (text "ClusterName", text "prod") ∷ (text "PodName", text "web-1") ∷ []

abbrev found : Text
found =
    text
      "SEARCH('{ContainerInsights,ClusterName,PodName} MetricName=\"pod_cpu_utilization\" ClusterName=\"prod\" PodName=\"web-1\"', 'Average', 60)"

searched : search_expression cpu fields 60 ≡ ok found
unfolding program
searched = refl

-- The last character is outside the basic plane: two code units, and one `_`.
identifier : query_id (text "count.nodes-" ++ 0xd83d ∷ 0xde00 ∷ []) ≡ text "qcount_nodes__"
unfolding program
identifier = refl

cpu_specs :
    map (λ m. m.key) (specs_with_prefix pod_resource_metrics (text "pod.cpu"))
    ≡ text "pod.cpu" ∷ text "pod.cpu.limit" ∷ []
unfolding program
cpu_specs = refl

same_fields : (k : Text) → field k fields ≡ field k swapped
same_fields k = elim (Bool-cases (text_eq (text "PodName") k)) [
  | inl e ↦ subst (λ j. field j fields ≡ field j swapped) (text_eq-eq (text "PodName") k e) refl
  | inr e ↦ rw e
]

search_expression-Perm_example : search_expression cpu fields 60 ≡ search_expression cpu swapped 60
search_expression-Perm_example =
    search_expression-Perm cpu fields swapped 60
      (Perm.swap (text "ClusterName") (text "PodName") []) same_fields

search_expression-occurrences_example :
    (terms : List (Text × Text)) × (found ≡ expression cpu (map closed terms) 60)
    × All Searchable terms
    × (occurrences b'"' found
        ≡ occurrences b'"' (expression cpu [] 60) + length terms * occurrences b'"' (text "\"\""))
search_expression-occurrences_example =
    search_expression-occurrences b'"' cpu fields 60 found refl searched

-- The first metric of the catalog.
abbrev response_time : MetricSpec
response_time = get_or all_metrics 0 cpu

query_id_unique_example : response_time ≡ response_time
query_id_unique_example = query_id_unique response_time response_time (inl refl) (inl refl) refl

search_expression_iff_example : ((t : Text) × (search_expression cpu fields 60 ≡ ok t)) ↔ (
    (is_empty cpu.namespace ≡ false)
    × (is_empty cpu.metric_name ≡ false)
    × ((k : Text) → Listed k (keys fields) → Embeds k (field k fields)))
search_expression_iff_example = search_expression_iff cpu fields 60
