-- ===== src/Catalog/Specs.antt =====
-- server/src/domain/catalog.ts: the metrics themselves.
use skills_dashboard.Common.{Option, none, some, List, [], ◌∷◌, ◌++◌, if◌then◌else◌}
use skills_dashboard.Text.{Text, text, starts_with}
use skills_dashboard.Series.{Measure, seconds, count, percent, connections, milliseconds}
use skills_dashboard.Payload.{Intent, good, warn, bad}
use skills_dashboard.Catalog.{
  MetricSpec, ns_application_elb, ns_container, ns_rds, ns_waf_v2, stat_sum, stat_avg, stat_max,
  stat_p50, stat_p90, stat_p99, color_blue, color_green, color_indigo, color_orange, color_pink,
  color_purple, color_red, color_teal, color_yellow, color_gray,
}

-- The fields of a spec, in the order of its type.
abbrev spec :
    Text → Text → Text → Text → Text → Measure → Text → Option Intent → List Text → MetricSpec
spec key label namespace metric_name stat measure color intent dimensions = record {
  key = key;
  label = label;
  namespace = namespace;
  metric_name = metric_name;
  stat = stat;
  measure = measure;
  color = color;
  intent = intent;
  dimensions = dimensions;
}

abbrev pub target_group_metrics : List MetricSpec
target_group_metrics =
    let dimensions = text "LoadBalancer" ∷ text "TargetGroup" ∷ [] in
    spec (text "tg.p50") (text "응답 시간 p50") ns_application_elb (text "TargetResponseTime") stat_p50
      seconds color_teal none dimensions
    ∷ spec (text "tg.p90") (text "응답 시간 p90") ns_application_elb (text "TargetResponseTime")
        stat_p90 seconds color_blue none dimensions
    ∷ spec (text "tg.p99") (text "응답 시간 p99") ns_application_elb (text "TargetResponseTime")
        stat_p99 seconds color_indigo none dimensions
    ∷ spec (text "tg.4xx") (text "대상 4xx") ns_application_elb (text "HTTPCode_Target_4XX_Count")
        stat_sum count color_orange (some warn) dimensions
    ∷ spec (text "tg.5xx") (text "대상 5xx") ns_application_elb (text "HTTPCode_Target_5XX_Count")
        stat_sum count color_red (some bad) dimensions
    ∷ spec (text "tg.requests") (text "요청 수") ns_application_elb (text "RequestCount") stat_sum
        count color_gray none dimensions
    ∷ spec (text "tg.healthy") (text "정상 대상") ns_application_elb (text "HealthyHostCount") stat_avg
        count color_green (some good) dimensions
    ∷ []

abbrev pub pod_resource_metrics : List MetricSpec
pod_resource_metrics =
    let dimensions = text "ClusterName" ∷ text "Namespace" ∷ text "PodName" ∷ [] in
    spec (text "pod.cpu") (text "CPU 사용률") ns_container (text "pod_cpu_utilization") stat_avg
      percent color_indigo none dimensions
    ∷ spec (text "pod.mem") (text "메모리 사용률") ns_container (text "pod_memory_utilization") stat_avg
        percent color_teal none dimensions
    ∷ spec (text "pod.cpu.limit") (text "CPU 사용률 (limit 대비)") ns_container
        (text "pod_cpu_utilization_over_pod_limit") stat_avg percent color_purple none dimensions
    ∷ spec (text "pod.mem.limit") (text "메모리 사용률 (limit 대비)") ns_container
        (text "pod_memory_utilization_over_pod_limit") stat_avg percent color_pink (some warn)
        dimensions
    ∷ []

abbrev pub node_resource_metrics : List MetricSpec
node_resource_metrics =
    let dimensions = text "ClusterName" ∷ text "InstanceId" ∷ text "NodeName" ∷ [] in
    spec (text "node.cpu") (text "CPU 사용률") ns_container (text "node_cpu_utilization") stat_avg
      percent color_indigo none dimensions
    ∷ spec (text "node.mem") (text "메모리 사용률") ns_container (text "node_memory_utilization") stat_avg
        percent color_teal none dimensions
    ∷ spec (text "node.fs") (text "디스크 사용률") ns_container (text "node_filesystem_utilization")
        stat_avg percent color_yellow none dimensions
    ∷ []

abbrev pub count_metrics : List MetricSpec
count_metrics =
    spec (text "count.pods") (text "실행 중 팟") ns_container (text "service_number_of_running_pods")
      stat_avg count color_blue none (text "ClusterName" ∷ text "Namespace" ∷ text "Service" ∷ [])
    ∷ spec (text "count.nodes") (text "노드") ns_container (text "cluster_node_count") stat_avg count
        color_green none (text "ClusterName" ∷ [])
    ∷ spec (text "count.nodes.failed") (text "실패 노드") ns_container
        (text "cluster_failed_node_count") stat_max count color_red (some bad)
        (text "ClusterName" ∷ [])
    ∷ []

abbrev pub pod_status_metrics : List MetricSpec
pod_status_metrics =
    let dimensions = text "ClusterName" ∷ text "Namespace" ∷ text "PodName" ∷ [] in
    spec (text "pod.running") (text "Running") ns_container (text "pod_status_running") stat_avg
      count color_green (some good) dimensions
    ∷ spec (text "pod.pending") (text "Pending") ns_container (text "pod_status_pending") stat_avg
        count color_orange (some warn) dimensions
    ∷ spec (text "pod.failed") (text "Failed") ns_container (text "pod_status_failed") stat_avg
        count color_red (some bad) dimensions
    ∷ spec (text "pod.restarts") (text "컨테이너 재시작") ns_container
        (text "pod_number_of_container_restarts") stat_sum count color_pink (some bad) dimensions
    ∷ []

abbrev pub rds_proxy_metrics : List MetricSpec
rds_proxy_metrics =
    let dimensions = text "ProxyName" ∷ [] in
    spec (text "proxy.db") (text "DB 커넥션") ns_rds (text "DatabaseConnections") stat_avg connections
      color_purple none dimensions
    ∷ spec (text "proxy.client") (text "클라이언트 커넥션") ns_rds (text "ClientConnections") stat_avg
        connections color_blue none dimensions
    ∷ spec (text "proxy.pinned") (text "세션 고정 커넥션") ns_rds
        (text "DatabaseConnectionsCurrentlySessionPinned") stat_avg connections color_orange
        (some warn) dimensions
    ∷ spec (text "proxy.borrow") (text "커넥션 대기") ns_rds (text "DatabaseConnectionsBorrowLatency")
        stat_avg milliseconds color_yellow none dimensions
    ∷ spec (text "proxy.max") (text "최대 허용 커넥션") ns_rds (text "MaxDatabaseConnectionsAllowed")
        stat_max connections color_gray none dimensions
    ∷ []

abbrev pub waf_metrics : List MetricSpec
waf_metrics =
    let dimensions = text "WebACL" ∷ text "Rule" ∷ text "Region" ∷ [] in
    spec (text "waf.allowed") (text "허용") ns_waf_v2 (text "AllowedRequests") stat_sum count
      color_green none dimensions
    ∷ spec (text "waf.blocked") (text "차단") ns_waf_v2 (text "BlockedRequests") stat_sum count
        color_pink none dimensions
    ∷ spec (text "waf.counted") (text "카운트") ns_waf_v2 (text "CountedRequests") stat_sum count
        color_gray none dimensions
    ∷ []

-- `specsWithPrefix`
unfoldable pub specs_with_prefix : List MetricSpec → Text → List MetricSpec
unfolding starts_with
specs_with_prefix [] prefix = []
specs_with_prefix (m ∷ specs) prefix =
    let rest = specs_with_prefix specs prefix in if starts_with prefix m.key then m ∷ rest else rest

-- `allMetrics`
abbrev pub all_metrics : List MetricSpec
all_metrics =
    target_group_metrics ++ pod_resource_metrics ++ node_resource_metrics ++ count_metrics
    ++ pod_status_metrics ++ rds_proxy_metrics ++ waf_metrics
