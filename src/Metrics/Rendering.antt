-- ===== src/Metrics/Rendering.antt =====
-- `MetricsRegistry.render_prometheus` of src/llm_home_lab/observability/metrics.py. How Python writes a
-- quotient, a latency and a count is given.
use llm_home_lab.Base.{ℕ, String, Option, none, some, List, [], ◌∷◌, ◌++◌}
use llm_home_lab.Base.Text.{append_text}
use llm_home_lab.Dict.{Dict}
use llm_home_lab.Registry.{HostRegistry}
use llm_home_lab.Scheduling.{SchedulingQueue}
use llm_home_lab.Metrics.{MetricsRegistry}
use llm_home_lab.Metrics.Snapshot.{
  Ratio, HostCompletionStats, SliSnapshot, Result, ok, ◌>>=◌, snapshot,
}

-- The two lines that announce a metric.
abbrev pub help_lines : String → String → String → List String
help_lines name help kind =
    append_text "# HELP " (append_text name (append_text " " help))
    ∷ append_text "# TYPE " (append_text name (append_text " " kind))
    ∷ []

abbrev pub value_line : String → String → String
value_line name value = append_text name (append_text " " value)

-- The quotation marks and braces of a label; the host's name is written as it is.
abbrev pub host_line : String → String → String → String
host_line name host_id value =
    append_text name (append_text "{host_id=\"" (append_text host_id (append_text "\"} " value)))

unfoldable pub host_lines {ℓ} : {A : Type ℓ} → String → (A → String) → Dict String A → List String
host_lines name show [] = []
host_lines name show ((host_id, a) ∷ d) = host_line name host_id (show a) ∷ host_lines name show d

-- `"".join(f"{line}\n" for line in lines)`
unfoldable pub join_lines : List String → String
join_lines [] = ""
join_lines (l ∷ ls) = append_text l (append_text "\n" (join_lines ls))

-- A section that only stands there when the dictionary has entries.
abbrev pub host_section {ℓ} :
    {A : Type ℓ} → String → String → String → (A → String) → Dict String A → List String
host_section name help kind show [] = []
host_section name help kind show (e ∷ d) = help_lines name help kind ++ host_lines name show (e ∷ d)

module _ (show_ratio : Ratio → String) (show_latency show_int : ℕ → String) where
  unfoldable pub failover_lines : Option Ratio → List String
  failover_lines none = []
  failover_lines (some rate) =
      help_lines "llm_home_lab_failover_success_ratio"
        "Fraction of failover-involved requests that still succeeded." "gauge"
      ++ value_line "llm_home_lab_failover_success_ratio" (show_ratio rate) ∷ []

  unfoldable pub completion_lines : Dict String HostCompletionStats → List String
  completion_lines stats =
      (host_section "llm_home_lab_host_completions_total"
        "Cumulative count of healthy completions served, per host." "counter"
        (λ s. show_int s.completions_total) stats)
      ++ (host_section "llm_home_lab_host_latency_ms_avg"
          "Average backend-call latency in milliseconds over all healthy completions, per host."
          "gauge" (λ s. show_ratio s.avg_latency_ms) stats)
      ++ (host_section "llm_home_lab_host_prompt_tokens_avg"
          "Average prompt tokens per healthy completion, per host." "gauge"
          (λ s. show_ratio s.prompt_tokens_avg) stats)
      ++ (host_section "llm_home_lab_host_prompt_tokens_min"
          "Minimum prompt tokens observed in a single healthy completion, per host." "gauge"
          (λ s. show_int s.prompt_tokens_min) stats)
      ++ (host_section "llm_home_lab_host_prompt_tokens_max"
          "Maximum prompt tokens observed in a single healthy completion, per host." "gauge"
          (λ s. show_int s.prompt_tokens_max) stats)
      ++ (host_section "llm_home_lab_host_completion_tokens_avg"
          "Average completion tokens per healthy completion, per host." "gauge"
          (λ s. show_ratio s.completion_tokens_avg) stats)
      ++ (host_section "llm_home_lab_host_completion_tokens_min"
          "Minimum completion tokens observed in a single healthy completion, per host." "gauge"
          (λ s. show_int s.completion_tokens_min) stats)
      ++ (host_section "llm_home_lab_host_completion_tokens_max"
          "Maximum completion tokens observed in a single healthy completion, per host." "gauge"
          (λ s. show_int s.completion_tokens_max) stats)

  unfoldable pub snapshot_lines : SliSnapshot → List String
  unfolding failover_lines completion_lines
  snapshot_lines s =
      help_lines "llm_home_lab_availability_ratio"
        "Fraction of requests in the rolling window that did not return a 5xx status." "gauge"
      ++ (value_line "llm_home_lab_availability_ratio" (show_ratio s.availability) ∷ [])
      ++ help_lines "llm_home_lab_request_latency_p95_ms"
          "P95 request latency in milliseconds over the rolling window." "gauge"
      ++ (value_line "llm_home_lab_request_latency_p95_ms" (show_latency s.p95_latency_ms) ∷ [])
      ++ failover_lines s.failover_success_rate
      ++ (host_section "llm_home_lab_host_saturation_ratio"
          "In-flight requests over max_concurrent_requests, per host." "gauge" show_ratio
          s.host_saturation)
      ++ help_lines "llm_home_lab_queue_depth"
          "Number of requests currently queued awaiting a free host slot." "gauge"
      ++ (value_line "llm_home_lab_queue_depth" (show_int s.queue_depth) ∷ [])
      ++ completion_lines s.host_completion_stats
      ++ (host_section "llm_home_lab_token_usage_total"
          "Cumulative prompt+completion tokens served, per host." "counter" show_int s.tokens_of)

  unfoldable pub render_prometheus :
      {W : Type 0}
      → ℕ
      → HostRegistry
      → SchedulingQueue W
      → MetricsRegistry
      → Result String × MetricsRegistry
  render_prometheus at registry q m =
      let (result, n) = snapshot at registry q m in
      (result >>= λ s. ok (join_lines (snapshot_lines s)), n)
