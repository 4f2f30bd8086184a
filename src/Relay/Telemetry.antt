-- ===== src/Relay/Telemetry.antt =====
-- apps/relay/src/observability.ts: the counters of the relay, and their text for Prometheus.
use Prim.Native.String.{String}
use xrp_payguard.Base.{ℕ, suc, ◌+◌, ◌-◌, not, leb, ltb, ◌==◌, [], ◌∷◌, ◌++◌}
use xrp_payguard.Text.{Text, codes}
use xrp_payguard.Text.Decimal.{decimal}
use xrp_payguard.Failure.{Result, ok, thrown, ◌>>◌, throw_if}
use xrp_payguard.Relay.Types.{RelayStatus, threshold_ready, unavailable, split}

pub record Evaluations : Type 0 where
  pub threshold_ready : ℕ
  pub split : ℕ
  pub unavailable : ℕ
  pub error : ℕ

pub record Telemetry : Type 0 where
  pub active_evaluations : ℕ
  pub evaluations : Evaluations
  pub rejected_invalid : ℕ
  pub rejected_capacity : ℕ
  pub evaluation_coalesced : ℕ
  pub machines_valid : ℕ
  pub machines_failed : ℕ
  pub submissions_success : ℕ
  pub submissions_error : ℕ
  pub rejected_not_ready : ℕ
  pub submission_coalesced : ℕ

abbrev pub new_telemetry : Telemetry
new_telemetry = record {
  active_evaluations = 0;
  evaluations = record { threshold_ready = 0; split = 0; unavailable = 0; error = 0 };
  rejected_invalid = 0;
  rejected_capacity = 0;
  evaluation_coalesced = 0;
  machines_valid = 0;
  machines_failed = 0;
  submissions_success = 0;
  submissions_error = 0;
  rejected_not_ready = 0;
  submission_coalesced = 0;
}

-- `RelayStatus | "ERROR"`
pub data MetricStatus : Type 0 where
  relay_status : RelayStatus → MetricStatus
  error : MetricStatus

unfoldable pub evaluation_started : Telemetry → Telemetry
evaluation_started t = record t { active_evaluations = suc t.active_evaluations }

unfoldable pub count_evaluation : MetricStatus → Evaluations → Evaluations
count_evaluation (MetricStatus.relay_status threshold_ready) e = record e {
  threshold_ready = suc e.threshold_ready;
}
count_evaluation (MetricStatus.relay_status split) e = record e { split = suc e.split }
count_evaluation (MetricStatus.relay_status unavailable) e = record e {
  unavailable = suc e.unavailable;
}
count_evaluation MetricStatus.error e = record e { error = suc e.error }

unfoldable pub evaluation_finished : MetricStatus → ℕ → ℕ → Telemetry → Result Telemetry
evaluation_finished status valid failed t = do
  throw_if (leb t.active_evaluations 0) (thrown "telemetry evaluation lifecycle is unbalanced")
  throw_if (ltb 3 valid) (thrown "telemetry machine count is invalid")
  throw_if (ltb 3 failed) (thrown "telemetry machine count is invalid")
  throw_if (not (valid + failed == 3)) (thrown "telemetry machine result count is invalid")
  ok (record t {
    active_evaluations = t.active_evaluations - 1;
    evaluations = count_evaluation status t.evaluations;
    machines_valid = t.machines_valid + valid;
    machines_failed = t.machines_failed + failed;
  })

pub data RejectionReason : Type 0 where
  invalid capacity : RejectionReason

unfoldable pub evaluation_rejected : RejectionReason → Telemetry → Telemetry
evaluation_rejected invalid t = record t { rejected_invalid = suc t.rejected_invalid }
evaluation_rejected capacity t = record t { rejected_capacity = suc t.rejected_capacity }

unfoldable pub evaluation_was_coalesced : Telemetry → Telemetry
evaluation_was_coalesced t = record t { evaluation_coalesced = suc t.evaluation_coalesced }

pub data SubmissionOutcome : Type 0 where
  success failure : SubmissionOutcome

unfoldable pub submission_finished : SubmissionOutcome → Telemetry → Telemetry
submission_finished success t = record t { submissions_success = suc t.submissions_success }
submission_finished failure t = record t { submissions_error = suc t.submissions_error }

unfoldable pub submission_rejected : Telemetry → Telemetry
submission_rejected t = record t { rejected_not_ready = suc t.rejected_not_ready }

unfoldable pub submission_was_coalesced : Telemetry → Telemetry
submission_was_coalesced t = record t { submission_coalesced = suc t.submission_coalesced }

abbrev line : String → Text
line s = codes s ++ (b'\n' ∷ [])

abbrev sample : String → ℕ → Text
sample name n = codes name ++ (b' ' ∷ (decimal n ++ (b'\n' ∷ [])))

unfoldable pub render_prometheus : Telemetry → Text
render_prometheus t =
    line "# HELP payguard_relay_evaluations_active Evaluations currently in progress."
    ++ (line "# TYPE payguard_relay_evaluations_active gauge"
        ++ (sample "payguard_relay_evaluations_active" t.active_evaluations
            ++ (line
                  "# HELP payguard_relay_evaluations_total Completed aggregate evaluation outcomes."
                ++ (line "# TYPE payguard_relay_evaluations_total counter"
                    ++ (sample "payguard_relay_evaluations_total{outcome=\"threshold_ready\"}"
                          t.evaluations.threshold_ready
                        ++ (sample "payguard_relay_evaluations_total{outcome=\"split\"}"
                              t.evaluations.split
                            ++ (sample "payguard_relay_evaluations_total{outcome=\"unavailable\"}"
                                  t.evaluations.unavailable
                                ++ (sample "payguard_relay_evaluations_total{outcome=\"error\"}"
                                      t.evaluations.error
                                    ++ (line
                                          "# HELP payguard_relay_evaluation_rejections_total Evaluations rejected before dispatch."
                                        ++ (line
                                              "# TYPE payguard_relay_evaluation_rejections_total counter"
                                            ++ (sample
                                                  "payguard_relay_evaluation_rejections_total{reason=\"invalid\"}"
                                                  t.rejected_invalid
                                                ++ (sample
                                                      "payguard_relay_evaluation_rejections_total{reason=\"capacity\"}"
                                                      t.rejected_capacity
                                                    ++ (line
                                                          "# HELP payguard_relay_evaluation_coalesced_total Duplicate in-flight evaluations coalesced."
                                                        ++ (line
                                                            "# TYPE payguard_relay_evaluation_coalesced_total counter"
                                                            ++ (sample
                                                            "payguard_relay_evaluation_coalesced_total"
                                                            t.evaluation_coalesced
                                                            ++ (line
                                                            "# HELP payguard_relay_machine_results_total Aggregate validated or failed machine results."
                                                            ++ (line
                                                            "# TYPE payguard_relay_machine_results_total counter"
                                                            ++ (sample
                                                            "payguard_relay_machine_results_total{outcome=\"valid\"}"
                                                            t.machines_valid
                                                            ++ (sample
                                                            "payguard_relay_machine_results_total{outcome=\"failed\"}"
                                                            t.machines_failed
                                                            ++ (line
                                                            "# HELP payguard_relay_submissions_total Completed threshold submission attempts."
                                                            ++ (line
                                                            "# TYPE payguard_relay_submissions_total counter"
                                                            ++ (sample
                                                            "payguard_relay_submissions_total{outcome=\"success\"}"
                                                            t.submissions_success
                                                            ++ (sample
                                                            "payguard_relay_submissions_total{outcome=\"error\"}"
                                                            t.submissions_error
                                                            ++ (line
                                                            "# HELP payguard_relay_submission_rejections_total Submission calls rejected before a writer."
                                                            ++ (line
                                                            "# TYPE payguard_relay_submission_rejections_total counter"
                                                            ++ (sample
                                                            "payguard_relay_submission_rejections_total{reason=\"not_ready\"}"
                                                            t.rejected_not_ready
                                                            ++ (line
                                                            "# HELP payguard_relay_submission_coalesced_total Duplicate in-flight submissions coalesced."
                                                            ++ (line
                                                            "# TYPE payguard_relay_submission_coalesced_total counter"
                                                            ++ sample
                                                            "payguard_relay_submission_coalesced_total"
                                                            t.submission_coalesced))))))))))))))))))))))))))))
