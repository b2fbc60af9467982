-- ===== src/Status.antt =====
-- core/src/status.cpp: the severity of a status word, and its text.
pub mod Text
use py_net_ft.Common.{ℕ, ◌==◌, if◌then◌else◌}

pub data StatusSeverity : Type 0 where
  fine warn error : StatusSeverity

unfoldable pub classify_status : ℕ → StatusSeverity
classify_status status = if status == 0 then fine else if status == 0x80010000 then warn else error
