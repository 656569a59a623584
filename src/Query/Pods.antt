-- ===== src/Query/Pods.antt =====
-- server/src/domain/query.ts: the queries on the logs of the pods. Their results are aggregated or
-- listed by `pods` of the panels.
use skills_dashboard.Common.{ℕ, ◌++◌, Result, ok, ◌>>=◌}
use skills_dashboard.Text.{Text, text, join}
use skills_dashboard.Text.Decimal.{show}
use skills_dashboard.Window.{Window, compact_duration}
use skills_dashboard.Runner.{Query}
use skills_dashboard.LogFormat.{LogFormat}
use skills_dashboard.Query.{QueryError, namespace_filter, probes, level_filter, not_in_statuses}
use skills_dashboard.Query.Preamble.{access_preamble, access_fields}

abbrev pub query : Text → Text → ℕ → Query
query id words limit = record { id = id; words = words; limit = limit }

-- `bin(${compactDuration(w.period)})`
unfoldable pub bin : Window → Text
unfolding compact_duration
bin w = text "bin(" ++ (compact_duration w.period ++ text ")")

-- The lines of the responses that are not in order.
unfoldable pub bad_status_filter : LogFormat → Text
unfolding not_in_statuses
bad_status_filter f =
    text "| filter ispresent(status) and "
    ++ (not_in_statuses (text "status") f.ok_statuses ++ text "\n")

unfoldable pub limit_line : ℕ → Text
unfolding show
limit_line n = text "| limit " ++ show n

unfoldable pub pod_traffic : LogFormat → Window → Result QueryError Query
unfolding access_preamble namespace_filter probes bin
pod_traffic f w = do
  preamble ← access_preamble f
  ok (
      query (text "pod.traffic")
        (preamble
          ++ (namespace_filter f
              ++ (probes f
                  ++ (text "| filter ispresent(status) or ispresent(latencyMs)\n"
                      ++ (text "| stats count(status) as requests,\n"
                          ++ (text "        count(latencyMs) as latencySamples,\n"
                              ++ (text "        avg(latencyMs) as avg,\n"
                                  ++ (text "        pct(latencyMs, 50) as p50,\n"
                                      ++ (text "        pct(latencyMs, 90) as p90,\n"
                                          ++ (text "        pct(latencyMs, 99) as p99\n"
                                              ++ (text "    by "
                                                  ++ (bin w
                                                      ++ (text " as t, app\n"
                                                          ++ text "| sort t asc")))))))))))))
        0)

unfoldable pub pod_bad_status_series : LogFormat → Window → Result QueryError Query
unfolding access_preamble namespace_filter probes bad_status_filter bin
pod_bad_status_series f w = do
  preamble ← access_preamble f
  ok (
      query (text "pod.badStatus.series")
        (preamble
          ++ (namespace_filter f
              ++ (probes f
                  ++ (bad_status_filter f
                      ++ (text "| stats count() as n by "
                          ++ (bin w ++ (text " as t, status\n" ++ text "| sort t asc")))))))
        0)

unfoldable pub pod_bad_status_by_path : LogFormat → Result QueryError Query
unfolding access_preamble namespace_filter probes bad_status_filter
pod_bad_status_by_path f = do
  preamble ← access_preamble f
  ok (
      query (text "pod.badStatus.byPath")
        (preamble
          ++ (namespace_filter f
              ++ (probes f
                  ++ (bad_status_filter f
                      ++ (text "| stats count() as n, max(@timestamp) as lastTs by status, path\n"
                          ++ text "| sort n desc")))))
        0)

unfoldable pub pod_bad_status_list : LogFormat → ℕ → Result QueryError Query
unfolding access_preamble access_fields namespace_filter probes bad_status_filter limit_line join
pod_bad_status_list f limit = do
  lists ← access_fields f
  preamble ← access_preamble f
  ok (
      query (text "pod.badStatus.list")
        (preamble
          ++ (text "| fields "
              ++ (join (text ", ") lists.0
                  ++ (text "\n"
                      ++ (namespace_filter f
                          ++ (probes f
                              ++ (bad_status_filter f
                                  ++ (text "| display "
                                      ++ (join (text ", ") lists.1
                                          ++ (text "\n"
                                              ++ (text "| sort @timestamp desc\n"
                                                  ++ limit_line limit)))))))))))
        limit)

unfoldable pub pod_error_series : LogFormat → Window → Result QueryError Query
unfolding access_preamble namespace_filter probes bin
pod_error_series f w = do
  preamble ← access_preamble f
  ok (
      query (text "pod.errors.series")
        (preamble
          ++ (namespace_filter f
              ++ (probes f
                  ++ (level_filter
                      ++ (text "| stats count() as n by "
                          ++ (bin w ++ (text " as t, level\n" ++ text "| sort t asc")))))))
        0)

unfoldable pub pod_error_list : LogFormat → ℕ → Result QueryError Query
unfolding access_preamble namespace_filter probes limit_line
pod_error_list f limit = do
  preamble ← access_preamble f
  ok (
      query (text "pod.errors.list")
        (preamble
          ++ (text "| fields kubernetes.pod_name as pod, kubernetes.container_name as container\n"
              ++ (namespace_filter f
                  ++ (probes f
                      ++ (level_filter
                          ++ (text "| display @timestamp, dashboardMessage, pod, container\n"
                              ++ (text "| sort @timestamp desc\n" ++ limit_line limit)))))))
        limit)
