-- ===== src/MetricPanels.antt =====
-- server/src/http/panels-metrics.ts: what the panels made of metrics share.
pub mod Grouped
pub mod Cluster
pub mod Status
pub mod Sums
pub mod Order
pub mod Accepted
pub mod Aligned
use skills_dashboard.Common.{
  ℕ, zero, suc, ◌+◌, ◌-◌, ◌*◌, ◌/◌, ◌%◌, ◌^◌, ◌≤◌, ◌<◌, min, ◌≡◌, refl, sym, ap, ◌∙◌, subst, ◌≢◌,
  ◌↔◌, ◌⊎◌, inl, inr, Bool, true, false, ◌&&◌, ◌||◌, not, Option, none, some, List, [], ◌∷◌, ◌++◌,
  map, append-nil, append_assoc, arith, ltb, leb, ◌==◌, if◌then◌else◌, Bool-cases, Option-cases,
  length, get_elem?, set, take, drop, replicate, length-append, length-map, length-replicate,
  Listed, All, All-Listed, All-append, Result, ok, err, ◌>>=◌, ◌>>◌, >>=-eq-ok, Result-cases,
}
use skills_dashboard.Common.{pos, trunc_div}
use skills_dashboard.Text.{Text, text, text_eq, is_empty, join}
use skills_dashboard.TextMap.{get, put}
use skills_dashboard.Text.Decimal.{show}
use skills_dashboard.Dimensions.{split, friendly_target_group_name}
use skills_dashboard.Catalog.{MetricSpec}
use skills_dashboard.Catalog.Search.{text_leb, sort, keys, field}
use skills_dashboard.Config.{Config}
use skills_dashboard.Window.{Window, buckets, period_seconds}
use skills_dashboard.Series.{Series, Point, Measure, new_series, add_at, reduce}
use skills_dashboard.Metrics.{to_series}
use skills_dashboard.Fetch.{MetricRequest, MetricSeries, result_key}
use skills_dashboard.LogPanels.{or_nothing}
use skills_dashboard.LogPanels.Runs.{show_int}
use skills_dashboard.LogPanels.Pivots.{sort_by}

-- Arithmetic on values: `Math.max`, `Math.min`, and the share of `a` in `a + b` in percent.
pub record Arithmetic (V : Type 0) : Type 0 where
  pub nought : V
  pub plus : V → V → V
  pub less : V → V → Bool
  pub greater : V → V → V
  pub lesser : V → V → V
  pub share : V → V → V

-- A named combination of the values of dimensions.
pub record FilterSet : Type 0 where
  pub id : Text
  pub label : Text
  pub filters : List (Text × Text)

abbrev pub Results : Type 0 → Type 0
Results V = List (Text × List (MetricSeries V))

-- What cannot be shown: the metrics could not be fetched, or the catalog has no such metric.
pub data PanelError : Type 0 where
  not_fetched : Text → PanelError
  no_metric : Text → PanelError

-- The filters of a request in the order of their names.
unfoldable pub filter_words : List (Text × Text) → List Text → Text
filter_words filters [] = []
filter_words filters (k ∷ ks) =
    k ++ (b'=' ∷ (or_nothing (field k filters) ++ (b';' ∷ filter_words filters ks)))

unfoldable pub request_words : MetricRequest → Text
unfolding filter_words sort result_key
request_words r =
    result_key r
    ++ (b'@'
        ∷ (r.spec.stat ++ (b'{' ∷ (filter_words r.filters (sort (keys r.filters)) ++ text "}"))))

unfoldable pub metric_cache_key : Text → Window → List MetricRequest → Text
unfolding request_words show show_int sort join
metric_cache_key name w reqs =
    text "metrics|"
    ++ (name
        ++ (b'|'
            ∷ (show_int (trunc_div w.start 1000)
                ++ (b'|'
                    ∷ (show_int (trunc_div w.end 1000)
                        ++ (b'|'
                            ∷ (show (period_seconds w.period)
                                ++ (b'|' ∷ join (text "|") (sort (map request_words reqs))))))))))

-- `a |id`: the key under which the series of a metric for a filter set are fetched.
unfoldable pub set_key : MetricSpec → FilterSet → Text
set_key spec fs = spec.key ++ (b'|' ∷ fs.id)

unfoldable pub requests_for : MetricSpec → List FilterSet → List MetricRequest
unfolding set_key
requests_for spec [] = []
requests_for spec (fs ∷ sets) =
    record { key = some (set_key spec fs); spec = spec; filters = fs.filters }
    ∷ requests_for spec sets

unfoldable pub metric_requests : List MetricSpec → List FilterSet → List MetricRequest
unfolding requests_for
metric_requests [] sets = []
metric_requests (spec ∷ specs) sets = requests_for spec sets ++ metric_requests specs sets

abbrev second_or : Text → List Text → Text
second_or d [] = d
second_or d (a ∷ []) = d
second_or d (a ∷ b ∷ ps) = b

unfoldable pub last_segment_name : Text → Text
unfolding split
last_segment_name dimension = second_or dimension (split b'/' dimension)

unfoldable target_set : Text → FilterSet
unfolding last_segment_name friendly_target_group_name
target_set tg = record {
  id = tg;
  label = friendly_target_group_name (last_segment_name tg);
  filters = (text "TargetGroup", tg) ∷ [];
}

unfoldable pub target_group_filter_sets : Config → List FilterSet
unfolding target_set
target_group_filter_sets c = elim c.target_groups [
  | tg ∷ tgs ↦ map target_set (tg ∷ tgs)
  | [] ↦
      if is_empty c.load_balancer
      then []
      else record {
        id = c.load_balancer;
        label = c.load_balancer;
        filters = (text "LoadBalancer", c.load_balancer) ∷ [];
      }
        ∷ []
]

-- The color and the dash of a line.
pub record Style : Type 0 where
  pub color : Text
  pub dash : Text

module _ {V : Type 0} where
  -- `fetchMetrics`; `handed` is what the cache settles with for a key.
  unfoldable pub fetch_metrics :
      (Text → Result Text (Results V))
      → Text
      → Window
      → List MetricRequest
      → Result PanelError (Results V)
  unfolding metric_cache_key
  fetch_metrics handed name w [] = ok []
  fetch_metrics handed name w (r ∷ reqs) = elim (handed (metric_cache_key name w (r ∷ reqs))) [
    | ok results ↦ ok results
    | err e ↦ err (not_fetched e)
  ]

  abbrev or_none : Option (List (MetricSeries V)) → List (MetricSeries V)
  or_none none = []
  or_none (some l) = l

  -- `results.get(key) ?? []`
  unfoldable pub found : Text → Results V → List (MetricSeries V)
  unfolding get
  found key results = or_none (get key results)

  -- `sortSeries`
  unfoldable pub sort_series : List (MetricSeries V) → List (MetricSeries V)
  unfolding sort_by
  sort_series list = sort_by (λ x y. text_leb x.label y.label) list

  unfoldable pub set_series_label :
      List FilterSet → FilterSet → MetricSpec → ℕ → MetricSeries V → Text
  set_series_label sets fs spec n m =
      let label : Text =
        if ltb 1 (length sets) then fs.label ++ (text " · " ++ spec.label) else spec.label in
      if ltb 1 n && not (is_empty m.label)
      then label ++ (text " (" ++ (m.label ++ text ")"))
      else label

  -- One line of `toSeriesList`.
  unfoldable pub line_for :
      Window
      → MetricSpec
      → (MetricSeries V → Text)
      → (MetricSeries V → Style)
      → MetricSeries V
      → Series V
  unfolding to_series
  line_for w spec label_for style_for m =
      record (to_series m.points w (label_for m) spec.measure (style_for m).color) {
        dash = (style_for m).dash;
      }

  -- The order of two lines by their maxima: the greater first, then by their labels, and those
  -- without a value last.
  abbrev pub line_leb : Arithmetic V → Point V → Point V → Bool → Bool
  line_leb p none none by_label = by_label
  line_leb p none (some b) by_label = false
  line_leb p (some a) none by_label = true
  line_leb p (some a) (some b) by_label =
      if p.less a b then false else if p.less b a then true else by_label

  unfoldable pub busier : Arithmetic V → Series V → Series V → Bool
  unfolding reduce
  busier p x y = line_leb p (reduce p.greater x) (reduce p.greater y) (text_leb x.label y.label)

  unfoldable pub to_series_list :
      Arithmetic V
      → Window
      → List (MetricSeries V)
      → MetricSpec
      → (MetricSeries V → Text)
      → (MetricSeries V → Style)
      → List (Series V)
  unfolding line_for busier sort_by
  to_series_list p w list spec label_for style_for =
      sort_by (busier p) (map (line_for w spec label_for style_for) list)

  -- The line of a metric whose color is that of the metric.
  abbrev pub plain_style : MetricSpec → MetricSeries V → Style
  plain_style spec m = record { color = spec.color; dash = [] }

  abbrev pub add_point : (V → V → V) → ℕ → Point V → Series V → Series V
  add_point plus i none out = out
  add_point plus i (some v) out = add_at plus out (pos i) v

  -- The points of one series are added, from index `i`.
  unfoldable pub add_points_of : (V → V → V) → ℕ → List (Point V) → Series V → Series V
  unfolding add_at
  add_points_of plus i [] out = out
  add_points_of plus i (x ∷ xs) out = add_points_of plus (i + 1) xs (add_point plus i x out)

  unfoldable pub add_all : (V → V → V) → List (Series V) → Series V → Series V
  unfolding add_points_of
  add_all plus [] out = out
  add_all plus (s ∷ list) out = add_all plus list (add_points_of plus 0 s.values out)

  unfoldable pub sum_series :
      (V → V → V) → Window → List (Series V) → Text → Measure → Text → Series V
  unfolding add_all new_series
  sum_series plus w list label measure color =
      add_all plus list (new_series label measure color (buckets w))
