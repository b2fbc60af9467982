-- ===== src/Client/Accounting.antt =====
-- The accounting of a record in `handle_record` of core/src/detail/client_impl.cpp: the counters, the verdict
-- of the sequences and of the status, and the marks that a record leaves.
use py_net_ft.Common.{
  ℕ, String, Bool, true, false, ◌&&◌, not, Option, none, some, [], ◌∷◌, ◌++◌, if◌then◌else◌, inc64,
  add64, length,
}
use py_net_ft.Exception.{Exception, what}
use py_net_ft.Protocol.{RawRecord}
use py_net_ft.Status.{StatusSeverity, fine, warn, error}
use py_net_ft.Sequence.{
  SequenceKind, SequenceObservation, FtSequenceKind, gapped, duplicate, out_of_order, stall,
  backward, restart,
}
use py_net_ft.Types.{RecoveryPolicy, Sample, HealthSnapshot, reconnect, fail_stop, streaming}
use py_net_ft.Client.State.{
  Impl, SessionResult, serious_status, ft_stall, ft_backward, callback, prune_rate_window,
  ft_progress_name,
}

abbrev pub delivers_rdt : SequenceKind → Bool
delivers_rdt duplicate = false
delivers_rdt out_of_order = false
delivers_rdt _ = true

abbrev pub is_discontinuity : FtSequenceKind → Bool
is_discontinuity stall = true
is_discontinuity backward = true
is_discontinuity _ = false

-- Whether the policy lets the session go on after a discontinuity of the F/T sequence.
abbrev pub tolerates : RecoveryPolicy → Bool
tolerates reconnect = true
tolerates fail_stop = false

-- The outcome by the severity first, then by the F/T sequence; `Reconnect` drops only the latter.
unfoldable pub outcome_of : RecoveryPolicy → StatusSeverity → FtSequenceKind → Option SessionResult
outcome_of policy error kind = some serious_status
outcome_of policy _ stall = if tolerates policy then none else some ft_stall
outcome_of policy _ backward = if tolerates policy then none else some ft_backward
outcome_of policy _ _ = none

module _ {F : Type 0} where
  unfoldable pub count_rdt : SequenceObservation → HealthSnapshot F → HealthSnapshot F
  count_rdt o h = elim o.kind [
    | gapped ↦ record h { lost_count = add64 h.lost_count o.gap }
    | duplicate ↦ record h { duplicate_count = inc64 h.duplicate_count }
    | out_of_order ↦ record h { out_of_order_count = inc64 h.out_of_order_count }
    | _ ↦ h
  ]

  unfoldable pub count_ft : FtSequenceKind → HealthSnapshot F → HealthSnapshot F
  count_ft stall h = record h { ft_stall_count = inc64 h.ft_stall_count }
  count_ft backward h = record h { ft_backward_count = inc64 h.ft_backward_count }
  count_ft restart h = record h { ft_restart_count = inc64 h.ft_restart_count }
  count_ft _ h = h

  unfoldable pub count_severity : StatusSeverity → HealthSnapshot F → HealthSnapshot F
  count_severity warn h = record h { warning_count = inc64 h.warning_count }
  count_severity error h = record h { device_error_count = inc64 h.device_error_count }
  count_severity fine h = h

-- `deliver` before the rate limit: the RDT sequence, the severity and the F/T sequence let it pass.
unfoldable pub passes : Bool → SequenceKind → StatusSeverity → FtSequenceKind → Bool
passes deliver_errors rdt error ft = delivers_rdt rdt && deliver_errors && not (is_discontinuity ft)
passes deliver_errors rdt _ ft = delivers_rdt rdt && not (is_discontinuity ft)

unfoldable pub callback_failure_outcome :
    RecoveryPolicy → Option SessionResult → Option SessionResult
callback_failure_outcome policy (some outcome) = some outcome
callback_failure_outcome policy none = if tolerates policy then none else some callback

abbrev text_of : Option String → String
text_of (some message) = message
text_of none = "sample callback failed"

module _ {F : Type 0} where
  -- What a record leaves in the snapshot, whatever becomes of it.
  abbrev pub mark_seen : RawRecord → FtSequenceKind → ℕ → HealthSnapshot F → HealthSnapshot F
  mark_seen r ft rate h = record h {
    state = streaming;
    received_count = inc64 h.received_count;
    receive_rate_hz = rate;
    last_rdt_sequence = some r.rdt_sequence;
    last_ft_sequence = some r.ft_sequence;
    last_status = r.status;
    last_ft_progress = ft_progress_name ft;
  }

  abbrev pub limit_rate : Bool → HealthSnapshot F → HealthSnapshot F
  limit_rate limited h =
      if limited then record h { rate_limited_count = inc64 h.rate_limited_count } else h

  unfoldable pub record_callback_error : Impl F → Exception → Impl F
  record_callback_error s e = record s {
    health = record s.health {
      callback_error_count = inc64 s.health.callback_error_count;
      last_error = text_of (what e);
    };
  }

  unfoldable pub deliver_sample : Impl F → Sample F → Impl F
  deliver_sample s sample =
      let times =
        prune_rate_window (s.delivery_times ++ (sample.received_at ∷ [])) sample.received_at in
      record s {
        last_delivery_at = sample.received_at;
        latest = some sample;
        delivery_times = times;
        delivered_generation = s.generation;
        health = record s.health {
          delivered_count = inc64 s.health.delivered_count;
          delivery_rate_hz = length times;
        };
      }
