-- ===== src/Process/Exit.antt =====
-- internal/process/process.go: how a process's end is classified and handed out.
use mcsm.Common.{ℕ, Bool, true, false, Option, none, some, ◌==◌, ℤ, pos, negsuc, if◌then◌else◌}

-- The zero value of the field is the empty string, here `unset`.
pub data Reason : Type 0 where
  normal killed crashed unset : Reason

pub record ExitInfo : Type 0 where
  pub exit_code : ℤ
  pub signal : Option ℕ
  pub failed : Bool
  pub at : ℕ
  pub reason : Reason

-- What `cmd.Wait()` returns: no error, an exit error with its status and signal, or another error.
pub data WaitResult : Type 0 where
  clean other_error : WaitResult
  exit_error : ℤ → Option ℕ → WaitResult

exit_reason : ℤ → Option ℕ → Reason
exit_reason code (some sig) = killed
exit_reason (pos n) none = if n == 0 then normal else crashed
exit_reason (negsuc n) none = crashed

pub exit_info : ℕ → WaitResult → ExitInfo
unfolding exit_reason
exit_info now clean = record {
  exit_code = pos 0;
  signal = none;
  failed = false;
  at = now;
  reason = normal;
}
exit_info now (exit_error code sig) = record {
  exit_code = code;
  signal = sig;
  failed = false;
  at = now;
  reason = exit_reason code sig;
}
exit_info now other_error = record {
  exit_code = negsuc 0;
  signal = none;
  failed = true;
  at = now;
  reason = crashed;
}

-- `exitCh`: empty, or closed with the one value in its buffer, or closed and drained.
pub data ExitChan : Type 0 where
  open_chan drained : ExitChan
  ready : ExitInfo → ExitChan

unfoldable pub publish : ExitInfo → ExitChan → ExitChan
publish i open_chan = ready i
publish i c = c

-- The zero value, which every read of the drained channel gives.
abbrev pub no_info : ExitInfo
no_info = record { exit_code = pos 0; signal = none; failed = false; at = 0; reason = unset }

-- A read blocks on the empty channel.
unfoldable pub receive : ExitChan → Option (ExitInfo × ExitChan)
receive open_chan = none
receive (ready i) = some (i, drained)
receive drained = some (no_info, drained)
