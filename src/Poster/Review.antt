-- ===== src/Poster/Review.antt =====
-- A whole run of comments/poster.py: the groups, and the comments whose findings are gone.
use revue.Prelude.{
  Bool, true, false, not, ◌&&◌, ◌||◌, Option, none, some, List, [], ◌∷◌, map, any, if◌then◌else◌,
}
use revue.Prelude.Int.{ℤ}
use revue.Prelude.Text.{Text, codes, same}
use revue.Prelude.Dict.{get}
use revue.StateStore.Operations.{CommentState}
use revue.Tracker.States.{HunkState}
use revue.Tracker.Prior.{Prior, build_prior}
use revue.Poster.Fingerprint.{fingerprint}
use revue.Poster.Fields.{Finding}
use revue.Poster.Store.{Entry, Files, get_unresolved_fingerprints, mark_resolved}
use revue.Poster.World.{ReviewResult, Tracked, Totals, World, State, Group}
use revue.Poster.Collect.{diff_of, collect, Collected}
use revue.Poster.Run.{matched_entry, skip_group, post_group}

-- a group of phase 2, by its matched entry
unfoldable pub do_matched :
    World → Text → ℤ → List Finding → Text → State → Option (Prior Tracked) → State
unfolding skip_group post_group
do_matched w file_path line items fp s none = post_group w file_path line items fp s
do_matched w file_path line items fp s (some entry) = skip_group w entry.metadata items s

unfoldable pub do_group : World → List (Text × Prior Tracked) → Group → State → State
unfolding matched_entry do_matched diff_of fingerprint
do_group w merged_prior ((file_path, line), items) s =
    let fp = fingerprint w.hash w.str file_path line (diff_of w file_path) in
    if s.stopped
    then s
    else do_matched w file_path line items fp s (matched_entry w merged_prior file_path line fp)

unfoldable pub do_groups : World → List (Text × Prior Tracked) → List Group → State → State
unfolding do_group
do_groups w merged_prior [] s = s
do_groups w merged_prior (g ∷ groups) s =
    do_groups w merged_prior groups (do_group w merged_prior g s)

-- state in (RESOLVE_REPLY_POSTED, AUTO_RESOLVED)
unfoldable pub is_closed : HunkState → Bool
is_closed HunkState.resolve_reply_posted = true
is_closed HunkState.auto_resolved = true
is_closed _ = false

-- file_path in touched_files
unfoldable pub is_touched : World → List ReviewResult → Text → Bool
unfolding get
is_touched w results file_path =
    any (λ (d : Text × Text). same d.0 file_path) w.diff_by_file
    || any (λ (rr : ReviewResult). same rr.error [] && same rr.file_path file_path) results

-- the store after `resolution_status`
unfoldable pub apply_status : World → Text → Text → State → Option HunkState → State
unfolding is_closed mark_resolved
apply_status w file_path fp s none = record s { stopped = true }
apply_status w file_path fp s (some state) =
    if is_closed state
    then record s {
      files =
          (mark_resolved w.now file_path fp CommentState.auto_resolved
            (some (codes "auto-resolved-hunktracker")) s.files).0;
    }
    else s

-- an entry of `merged_prior` that no finding has seen
unfoldable pub close_entry : World → List ReviewResult → Text → Prior Tracked → State → State
unfolding is_touched apply_status diff_of
close_entry w results fp entry s =
    let e = entry.metadata in
    if (not (same e.file_path []) && not (is_touched w results e.file_path))
      || same e.platform_comment_id []
    then s
    else apply_status w e.file_path fp s (w.status fp entry (diff_of w e.file_path))

-- the loop over `resolved_fps`, in the order of `merged_prior`
unfoldable pub auto_resolve :
    World → List ReviewResult → List Text → List (Text × Prior Tracked) → State → State
unfolding close_entry
auto_resolve w results seen [] s = s
auto_resolve w results seen ((fp, entry) ∷ prior) s =
    auto_resolve w results seen prior
      (if s.stopped || any (same fp) seen then s else close_entry w results fp entry s)

-- an entry of the store as an entry of `prior_unresolved`; it has no sentinel
unfoldable pub local_entry : Text × (Text × Entry) → Text × Prior Tracked
local_entry (fp, (file_path, e)) = (
  fp,
  record {
    sentinel_state = none;
    sentinel_ts = none;
    metadata = record {
      file_path = file_path;
      platform_comment_id = e.platform_comment_id;
      resolved = false;
      severity = [];
      comment_body = e.comment_body;
    };
  },
)

unfoldable pub merged_prior : List (Text × Prior Tracked) → Files → List (Text × Prior Tracked)
unfolding local_entry get_unresolved_fingerprints build_prior
merged_prior api_fps files =
    build_prior (map local_entry (get_unresolved_fingerprints files)) api_fps

abbrev pub no_totals : Totals
no_totals = record { high = 0; medium = 0; low = 0; info = 0 }

unfoldable pub start : Files → State
start files = record {
  files = files;
  log = [];
  evicted = false;
  posted = 0;
  skipped = 0;
  failed = 0;
  previously_tracked = 0;
  total_findings = no_totals;
  summary_sink = [];
  stopped = false;
}

-- phases 1 and 2 and the resolution, with `prior` as `merged_prior`
unfoldable pub run_from :
    World → List ReviewResult → List (Text × Prior Tracked) → Option Collected → State → State
unfolding do_groups auto_resolve
run_from w results prior none s = record s { stopped = true }
run_from w results prior (some (groups, seen)) s =
    auto_resolve w results seen prior (do_groups w prior groups s)

-- `_post_inline_mode` on the store's files; `api_fps` are the entries read from the platform
unfoldable pub post_review : World → List ReviewResult → List (Text × Prior Tracked) → Files → State
unfolding run_from merged_prior start collect
post_review w results api_fps files =
    run_from w results (merged_prior api_fps files) (collect w results ([], [])) (start files)
