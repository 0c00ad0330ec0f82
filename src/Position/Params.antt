-- ===== src/Position/Params.antt =====
-- What the platforms are sent for a resolved position.
use revue.Prelude.{ℕ, ◌+◌, ◌-◌, ◌<◌, ◌≡◌, ◌≢◌, ◌⊎◌, none, some, ◌==◌, if◌then◌else◌, arith}
use revue.Prelude.Int.{ℤ, pos, sub_ℕ}
use revue.Prelude.Text.{Text}
use revue.Position.Parsed.{ParsedDiff, parse_diff}
use revue.Position.Classify.{PositionResult, anchored, classify, calculate}
use revue.Position.Adapter.{
  Failure, not_anchored, inverted_range, ok, err, resolve, Adapter, github, gitlab, bitbucket,
  ApiParams, github_params, gitlab_params, bitbucket_params, to_api_params,
}

-- the lines of the new file that a platform marks
abbrev pub range_of : ApiParams → ℤ × ℤ
range_of (github_params path line none) = (line, line)
range_of (github_params path line (some first)) = (first, line)
range_of (gitlab_params shas new_path old_path new_line) = (new_line, new_line)
range_of (bitbucket_params path to none) = (to, to)
range_of (bitbucket_params path to (some first)) = (first, to)

abbrev pub path_of : ApiParams → Text
path_of (github_params path line first) = path
path_of (gitlab_params shas new_path old_path new_line) = new_path
path_of (bitbucket_params path to first) = path

-- GitLab comments carry the range in their text.
abbrev pub last_line : Adapter → ℕ → ℕ → ℕ
last_line (gitlab shas) line replacement_line_count = line
last_line _ line replacement_line_count = line + replacement_line_count - 1

record AnchoredAt (line rlc : ℕ) (path : Text) (p : PositionResult) : Type 0 where
  path_kept : p.file_path ≡ path
  start_line : p.start_line ≡ some (pos line)
  end_line : p.end_line ≡ some (sub_ℕ (line + rlc) 1)

classify-AnchoredAt :
    (parsed : ParsedDiff) (line : ℕ) (path : Text) (rlc : ℕ)
    → (classify parsed line path rlc).status ≡ anchored
    → AnchoredAt line rlc path (classify parsed line path rlc)
unfolding classify
classify-AnchoredAt parsed line path rlc h = ground arith

resolve-AnchoredAt :
    (line : ℕ) (diff path : Text) (rlc : ℕ)
    → (resolve line diff path rlc).status ≡ anchored
    → AnchoredAt line rlc path (resolve line diff path rlc)
unfolding resolve calculate
resolve-AnchoredAt line diff path rlc h =
    ground (arith, classify-AnchoredAt (parse_diff diff) line path rlc)

abbrev expected : Adapter → Text → ℕ → ℕ → ApiParams
expected github path line last =
    github_params path (pos last) (if line == last then none else some (pos line))
expected (gitlab shas) path line last = gitlab_params shas path path (pos line)
expected bitbucket path line last =
    bitbucket_params path (pos last) (if line == last then none else some (pos line))

to_api_params-expected :
    (adapter : Adapter) (line rlc : ℕ) (path : Text) (p : PositionResult)
    → 0 < rlc
    → p.status ≡ anchored
    → AnchoredAt line rlc path p
    → to_api_params adapter p ≡ ok (expected adapter path line (line + rlc - 1))
unfolding to_api_params
to_api_params-expected github line rlc path p some_line h at = ground arith
to_api_params-expected _ line rlc path p some_line h at = ground arith

range_of-expected :
    (adapter : Adapter) (path : Text) (line rlc : ℕ)
    → (path_of (expected adapter path line (line + rlc - 1)) ≡ path)
      × (range_of (expected adapter path line (line + rlc - 1))
          ≡ (pos line, pos (last_line adapter line rlc)))
range_of-expected github path line rlc = ground arith
range_of-expected _ path line rlc = ground arith

to_api_params-err :
    (adapter : Adapter) (line rlc : ℕ) (path : Text) (p : PositionResult) (e : Failure)
    → (p.status ≡ anchored → AnchoredAt line rlc path p)
    → to_api_params adapter p ≡ err e
    → ((e ≡ not_anchored) × (p.status ≢ anchored)) ⊎ ((e ≡ inverted_range) × (rlc ≡ 0))
unfolding to_api_params
to_api_params-err adapter line rlc path p e at h = ground arith

module _ (adapter : Adapter) (line : ℕ) (diff path : Text) (replacement_line_count : ℕ) where
  -- A position that `resolve` anchors, with a line count of 1 or more, passes the assertions of
  -- `to_api_params`, and the parameters name its file and its lines: from the reported line over as
  -- many lines as are replaced, but on GitLab the reported line alone.
  to_api_params-resolve :
      0 < replacement_line_count
      → (resolve line diff path replacement_line_count).status ≡ anchored
      → (q : ApiParams) × (to_api_params adapter (resolve line diff path replacement_line_count)
          ≡ ok q)
        × (path_of q ≡ path)
        × (range_of q ≡ (pos line, pos (last_line adapter line replacement_line_count)))
  to_api_params-resolve some_line h =
      let (same_path, same_range) = range_of-expected adapter path line replacement_line_count in
      (
        expected adapter path line (line + replacement_line_count - 1),
        to_api_params-expected adapter line replacement_line_count path
            (resolve line diff path replacement_line_count) some_line h
            (resolve-AnchoredAt line diff path replacement_line_count h),
        same_path,
        same_range,
      )

  -- If `to_api_params` refuses what `resolve` returned, then either that was not anchored, or it was
  -- given a line count of 0, whose range is inverted. No other assertion fails.
  to_api_params-resolve_err :
      (e : Failure)
      → to_api_params adapter (resolve line diff path replacement_line_count) ≡ err e
      → ((e ≡ not_anchored) × ((resolve line diff path replacement_line_count).status ≢ anchored))
        ⊎ ((e ≡ inverted_range) × (replacement_line_count ≡ 0))
  to_api_params-resolve_err e h =
      to_api_params-err adapter line replacement_line_count path
        (resolve line diff path replacement_line_count) e
        (resolve-AnchoredAt line diff path replacement_line_count) h
