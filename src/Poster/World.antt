-- ===== src/Poster/World.antt =====
-- What a run of comments/poster.py is given, and what it keeps.
use revue.Prelude.{ℕ, Bool, Option, List}
use revue.Prelude.Int.{ℤ}
use revue.Prelude.Text.{Text}
use revue.TerminalState.Json.{Json}
use revue.Position.Adapter.{Adapter, ApiParams}
use revue.Tracker.States.{HunkState}
use revue.Tracker.Prior.{Prior}
use revue.Poster.Fields.{Finding, Converted}
use revue.Poster.Store.{Files}

pub record ReviewResult : Type 0 where
  pub file_path : Text
  pub response : Text
  pub error : Text

-- the fields of an entry of `merged_prior` that are not its sentinel
pub record Tracked : Type 0 where
  pub file_path : Text
  pub platform_comment_id : Text
  pub resolved : Bool
  pub severity : Text
  pub comment_body : Text

-- one call of the platform: a comment for the group at a line, with its fingerprint and the answer,
-- or the removal of resolved comments
pub data Call : Type 0 where
  post : (fp : Text) (params : ApiParams) (body : Text) (lines : ℕ) (id : Option Text) → Call
  evict : Call

-- What a run is given. `sinks` is whether a `ConsolidatedFinding` of a finding can be made, which
-- checks its line, its confidence and its agent. The two answers of the platform depend on the calls so far; `body` is
-- `_build_comment_body` and `status` is `resolution_status`, where `none` is an exception, and
-- `severity_in` is the search of `_FINDING_SEV_RE`, in lower case.
pub record World : Type 0 where
  pub loads : Text → Option Json
  pub lower : Text → Text
  pub int : Json → Converted
  pub severity_in : Text → Option Text
  pub diff_by_file : List (Text × Text)
  pub position_adapter : Option Adapter
  pub body : Text → ℤ → List Finding → Text → Option (Text × ℕ)
  pub sinks : Text → ℤ → Finding → Bool
  pub post_answer : List Call → ApiParams → Text → Option Text
  pub limit_reached : List Call → Bool
  pub evict_answer : List Call → ℕ
  pub status : Text → Prior Tracked → Text → Option HunkState
  pub now : ℕ
  pub hash : Text → Text
  pub str : ℤ → Text

pub record Totals : Type 0 where
  pub high : ℕ
  pub medium : ℕ
  pub low : ℕ
  pub info : ℕ

pub record State : Type 0 where
  pub files : Files
  pub log : List Call
  pub evicted : Bool
  pub posted : ℕ
  pub skipped : ℕ
  pub failed : ℕ
  pub previously_tracked : ℕ
  pub total_findings : Totals
  pub summary_sink : List (Text × (ℤ × Finding))
  pub stopped : Bool

abbrev pub Group : Type 0
Group = (Text × ℤ) × List Finding
