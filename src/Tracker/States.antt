-- ===== src/Tracker/States.antt =====
-- `HunkState` and `ResolutionVerdict` of comments/models.py, and the transition table of
-- comments/hunk_tracker.py.
use revue.Prelude.{Bool, true, false}

pub data HunkState : Type 0 where
  initial untouched code_removed changed nova_called fully_addressed : HunkState
  not_fully_addressed nova_error reply_failed follow_up_posted : HunkState
  resolve_reply_posted auto_resolved platform_resolved : HunkState

pub data ResolutionVerdict : Type 0 where
  fully partial unresolved : ResolutionVerdict

-- (a, b) in _LEGAL_TRANSITIONS
unfoldable pub legal : HunkState → HunkState → Bool
legal initial platform_resolved = true
legal initial auto_resolved = true
legal initial untouched = true
legal initial code_removed = true
legal initial changed = true
legal follow_up_posted untouched = true
legal follow_up_posted code_removed = true
legal follow_up_posted changed = true
legal code_removed resolve_reply_posted = true
legal code_removed reply_failed = true
legal changed nova_called = true
legal nova_called fully_addressed = true
legal nova_called not_fully_addressed = true
legal nova_called nova_error = true
legal fully_addressed resolve_reply_posted = true
legal fully_addressed reply_failed = true
legal not_fully_addressed follow_up_posted = true
legal not_fully_addressed reply_failed = true
legal _ _ = false

-- s in _TERMINAL_STATES
unfoldable pub is_terminal : HunkState → Bool
is_terminal auto_resolved = true
is_terminal platform_resolved = true
is_terminal _ = false
