-- ===== src/Position/Adapter.antt =====
-- The platform adapters of comments/position_adapter.py. The logging is left out.
use revue.Prelude.{ℕ, Bool, Option, none, some, [], if◌then◌else◌, String, str_eq, not, ◌||◌}
use revue.Prelude.Int.{ℤ, ltb_ℤ}
use revue.Prelude.Text.{Text, is_blank}
use revue.Position.Classify.{
  anchored, out_of_hunk, diff_is_empty, PositionResult, unanchored, calculate,
}

-- `PlatformPosition` has the fields of `PositionResult`
abbrev pub PlatformPosition : Type 0
PlatformPosition = PositionResult

-- the assertion that fails
pub data Failure : Type 0 where
  not_anchored no_range inverted_range key_error : Failure

pub data Result {ℓ} (A : Type ℓ) : Type ℓ where
  ok : A → Result A
  err : Failure → Result A

-- the range that `_validate_anchored` asserts
check_range : Option ℤ → Option ℤ → Result (ℤ × ℤ)
check_range (some a) (some b) = if ltb_ℤ b a then err inverted_range else ok (a, b)
check_range _ _ = err no_range

unfoldable pub validate_anchored : PlatformPosition → Result (ℤ × ℤ)
unfolding check_range
validate_anchored p = elim p.status [
  | anchored ↦ check_range p.start_line p.end_line
  | _ ↦ err not_anchored
]

unfoldable pub resolve : ℕ → Text → Text → ℕ → PlatformPosition
resolve reported_line diff file_path replacement_line_count =
    if is_blank diff
    then unanchored file_path out_of_hunk diff_is_empty
    else (let result = calculate diff reported_line file_path replacement_line_count in
        elim result.status [
          | anchored ↦ record {
            file_path = file_path;
            start_line = result.start_line;
            end_line = result.end_line;
            status = anchored;
            reason = result.reason;
          }
          | s ↦ unanchored file_path s result.reason
        ])

pub record Shas : Type 0 where
  pub base_sha : Text
  pub head_sha : Text
  pub start_sha : Text

pub data Adapter : Type 0 where
  github : Adapter
  gitlab : Shas → Adapter
  bitbucket : Adapter

-- A key that the dictionary may lack is an `Option`; "side" and "start_side" are always "RIGHT",
-- and "position_type" is always "text".
pub data ApiParams : Type 0 where
  github_params : (path : Text) (line : ℤ) (start_line : Option ℤ) → ApiParams
  gitlab_params : (shas : Shas) (new_path old_path : Text) (new_line : ℤ) → ApiParams
  bitbucket_params : (path : Text) (to : ℤ) (from : Option ℤ) → ApiParams

same_line : ℤ → ℤ → Bool
same_line a b = not (ltb_ℤ a b || ltb_ℤ b a)

-- the start of a range that has more than one line
start_key : ℤ → ℤ → Option ℤ
unfolding same_line
start_key a b = if same_line b a then none else some a

params : Adapter → Text → ℤ × ℤ → ApiParams
unfolding start_key
params github path (a, b) = github_params path b (start_key a b)
params (gitlab shas) path (a, b) = gitlab_params shas path path a
params bitbucket path (a, b) = bitbucket_params path b (start_key a b)

unfoldable pub to_api_params : Adapter → PlatformPosition → Result ApiParams
unfolding params validate_anchored
to_api_params adapter p = elim (validate_anchored p) [
  | ok range ↦ ok (params adapter p.file_path range)
  | err e ↦ err e
]

abbrev no_shas : Shas
no_shas = record { base_sha = []; head_sha = []; start_sha = [] }

-- `version_shas` is `vcs_adapter._get_mr_version_shas`, where the adapter has it
unfoldable pub make_gitlab : Option (ℕ → Shas) → Option ℕ → Adapter
make_gitlab none pr_number = gitlab no_shas
make_gitlab (some version_shas) none = gitlab (version_shas 0)
make_gitlab (some version_shas) (some pr_number) = gitlab (version_shas pr_number)

unfoldable pub get_position_adapter : String → Option ℕ → Option (ℕ → Shas) → Result Adapter
unfolding make_gitlab
get_position_adapter platform pr_number version_shas =
    if str_eq platform "github"
    then ok github
    else if str_eq platform "gitlab"
    then ok (make_gitlab version_shas pr_number)
    else if str_eq platform "bitbucket"
    then ok bitbucket
    else err key_error
