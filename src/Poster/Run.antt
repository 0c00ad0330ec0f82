-- ===== src/Poster/Run.antt =====
-- The posting of a review with its inline comments: comments/poster.py. The summary comments and
-- the logging are left out. Where an exception ends the run, the state is `stopped`, with what has
-- been written and posted so far.
use revue.Prelude.{
  ℕ, suc, ◌+◌, ◌-◌, Bool, true, not, ◌||◌, ◌==◌, Option, none, some, List, [], ◌∷◌, ◌++◌, all, map,
  any, length, if◌then◌else◌,
}
use revue.Prelude.Int.{ℤ, pos, negsuc, pos_part, neg_part}
use revue.Prelude.Text.{Text, codes, same}
use revue.Prelude.Dict.{get}
use revue.Position.Classify.{anchored}
use revue.Position.Adapter.{Adapter, ApiParams, PlatformPosition, ok, err, resolve, to_api_params}
use revue.Tracker.Prior.{Prior}
use revue.Poster.Fingerprint.{fingerprint}
use revue.Poster.Fields.{Finding}
use revue.Poster.Store.{save_finding}
use revue.Poster.World.{Tracked, post, evict, Totals, World, State}
use revue.Poster.Collect.{diff_of}

unfoldable pub count_severity : Text → Totals → Totals
count_severity severity t =
    if same severity (codes "high")
    then record t { high = suc t.high }
    else if same severity (codes "medium")
    then record t { medium = suc t.medium }
    else if same severity (codes "low")
    then record t { low = suc t.low }
    else if same severity (codes "info")
    then record t { info = suc t.info }
    else t

-- severity in total_findings
unfoldable pub is_counted : Text → Bool
is_counted severity =
    any (same severity) (codes "high" ∷ codes "medium" ∷ codes "low" ∷ codes "info" ∷ [])

unfoldable pub count_all : List Text → Totals → Totals
unfolding count_severity
count_all [] t = t
count_all (severity ∷ severities) t = count_all severities (count_severity severity t)

-- merged_prior.get(fp) or merged_prior.get(gen_fingerprint(file_path, line, ""))
unfoldable pub matched_entry :
    World → List (Text × Prior Tracked) → Text → ℤ → Text → Option (Prior Tracked)
unfolding get
matched_entry w merged_prior file_path line fp = elim (get fp merged_prior) [
  | some entry ↦ some entry
  | none ↦ get (fingerprint w.hash w.str file_path line []) merged_prior
]

-- the severity of the comment that is there, or the finding's own
unfoldable pub prior_severity : World → Tracked → Text → Text
unfolding is_counted
prior_severity w entry severity =
    let found : Text = elim entry.severity [
      | c ∷ s ↦ c ∷ s
      | [] ↦ elim (w.severity_in entry.comment_body) [ none ↦ [] | some s ↦ s ]
    ] in
    if is_counted found then found else severity

-- a group that has a comment
unfoldable pub skip_group : World → Tracked → List Finding → State → State
unfolding count_all prior_severity
skip_group w entry items s =
    if entry.resolved
    then record s {
      previously_tracked = s.previously_tracked + length items;
      skipped = s.skipped + length items;
    }
    else record s {
      total_findings =
          count_all (map (λ (f : Finding). prior_severity w entry f.severity) items)
            s.total_findings;
      skipped = s.skipped + length items;
    }

-- where a comment goes; a failed assertion is `stuck`
pub data Place : Type 0 where
  unanchored stuck : Place
  at_lines : ApiParams → ℕ → Place

-- end_line - start_line + 1
unfoldable pub range_length : Option ℤ → Option ℤ → ℕ
range_length (some a) (some b) = suc ((pos_part b + neg_part a) - (pos_part a + neg_part b))
range_length _ _ = 0

unfoldable pub place_at : Adapter → PlatformPosition → Place
unfolding range_length to_api_params
place_at adapter p = elim p.status [
  | anchored ↦ elim (to_api_params adapter p) [
    | ok params ↦ at_lines params (range_length p.start_line p.end_line)
    | err e ↦ stuck
  ]
  | _ ↦ unanchored
]

-- a negative line precedes every hunk
unfoldable pub place : World → Text → ℤ → ℕ → Place
unfolding place_at diff_of resolve
place w file_path line replacement_line_count = elim w.position_adapter [
  | none ↦ unanchored
  | some adapter ↦ elim line [
    | negsuc n ↦ unanchored
    | pos n ↦ place_at adapter (resolve n (diff_of w file_path) file_path replacement_line_count)
  ]
]

-- post_review_comment_with_params
unfoldable pub call_post : World → Text → ApiParams → Text → ℕ → State → State × Option Text
call_post w fp params body lines s =
    let id = w.post_answer s.log params body in
    (record s { log = post fp params body lines id ∷ s.log }, id)

-- the removal of resolved comments and the second attempt
unfoldable pub evict_and_retry : World → Text → ApiParams → Text → ℕ → State → State × Option Text
unfolding call_post
evict_and_retry w fp params body lines s =
    let s' = record s { evicted = true; log = evict ∷ s.log } in
    if w.evict_answer s.log == 0 then (s', none) else call_post w fp params body lines s'

-- after the first attempt
unfoldable pub retry :
    World → Text → ApiParams → Text → ℕ → State × Option Text → State × Option Text
unfolding evict_and_retry
retry w fp params body lines (s, some id) = (s, some id)
retry w fp params body lines (s, none) =
    if not (w.limit_reached s.log) || s.evicted
    then (s, none)
    else evict_and_retry w fp params body lines s

unfoldable pub post_with_params_or_evict_and_retry :
    World → Text → ApiParams → Text → ℕ → State → State × Option Text
unfolding call_post retry
post_with_params_or_evict_and_retry w fp params body lines s =
    retry w fp params body lines (call_post w fp params body lines s)

-- the counters and the store, by the answer
unfoldable pub record_post : World → Text → ℤ → Text → Text → State × Option Text → State
unfolding save_finding
record_post w file_path line fp body (s, none) = record s { failed = suc s.failed }
record_post w file_path line fp body (s, some id) = record s {
  posted = suc s.posted;
  files = save_finding w.now file_path fp id line body none s.files;
}

-- to the summary, under the heading of findings with no line; a finding of which no
-- `ConsolidatedFinding` can be made ends the run, before the summary is posted
unfoldable pub sink_group : World → Text → ℤ → List Finding → State → State
sink_group w file_path line items s =
    if all (w.sinks file_path line) items
    then record s {
      summary_sink = s.summary_sink ++ map (λ f. (file_path, (line, f))) items;
      skipped = s.skipped + length items;
    }
    else record s { stopped = true }

-- a comment where the finding's place allows one
unfoldable pub post_at : World → Text → ℤ → List Finding → Text → Text → State → Place → State
unfolding sink_group post_with_params_or_evict_and_retry record_post
post_at w file_path line items fp body s stuck = record s { stopped = true }
post_at w file_path line items fp body s unanchored = sink_group w file_path line items s
post_at w file_path line items fp body s (at_lines params n) =
    record_post w file_path line fp body (post_with_params_or_evict_and_retry w fp params body n s)

-- total_findings with the group's own severities
unfoldable pub count_group : List Finding → State → State
unfolding count_all
count_group items s = record s {
  total_findings = count_all (map (λ (f : Finding). f.severity) items) s.total_findings;
}

-- a group that has no comment yet
unfoldable pub post_group : World → Text → ℤ → List Finding → Text → State → State
unfolding count_group place post_at
post_group w file_path line items fp s = elim (w.body file_path line items fp) [
  | none ↦ record (count_group items s) { stopped = true }
  | some (body, lines) ↦
      post_at w file_path line items fp body (count_group items s) (place w file_path line lines)
]
