-- ===== src/Tracker/Examples.antt =====
-- The theorems about the tracker at a concrete entry and platform.
use revue.Prelude.{◌≡◌, ◌⊎◌, ℕ, refl, Bool, true, false, none, some, [], ◌∷◌, ◌++◌}
use revue.Prelude.Text.{Text, codes, same, starts_with, splitlines}
use revue.Position.Hunk.{match_hunk}
use revue.Position.Resolver.{
  line_in_diff, map_diff_lines, walk_lines, walk_line, walk_plain, walk_body, is_marker,
}
use revue.Tracker.States.{
  HunkState, initial, follow_up_posted, resolve_reply_posted, auto_resolved, fully, legal,
  is_terminal,
}
use revue.Tracker.Sentinel.{
  Sentinel, make_sentinel, parse_sentinel, is_fingerprint, hexes, is_hex, is_word, is_stamp,
  text_gt,
}
use revue.Tracker.Exec.{ok, resolve_inline_comment, transition}
use revue.Tracker.Run.{World, PriorEntry, resolution_status, check_diff, truthy, prior_state_of}
use revue.Tracker.Legality.{EndsLegally, no_log, resolution_status-EndsLegally}
use revue.Tracker.RoundTrip.{IsWritable, parse_sentinel-make_sentinel}
use revue.Tracker.Calls.{IsJustified, resolution_status-calls}
use revue.Tracker.Raises.{is_value_error, reply_is_due, resolution_status-raises}
use revue.Tracker.Prior.{Prior, build_prior, or_blank}
use revue.Tracker.Merged.{build_prior-newest}
use revue.Prelude.Dict.{get}
use revue.Tracker.NextRun.{resolution_status-next_run}

abbrev world : World
world = record {
  resolve_answer = λ pr_id comment_id body. some true;
  reply_answer = none;
  resolve = λ comment snippet diff follow_up. some (record { verdict = fully; guidance = [] });
  now = codes "2026-01-02";
}

abbrev entry : PriorEntry
entry = record {
  platform_comment_id = codes "c1";
  line_number = 40;
  pr_num = 7;
  resolved = false;
  sentinel_state = [];
  comment_body = [];
  snippet = [];
  prior_follow_up_body = none;
}

abbrev diff : Text
diff = codes "x"

abbrev fingerprint : Text
fingerprint = codes "0123456789abcdef"

abbrev short_fingerprint : Text
short_fingerprint = codes "0123"

abbrev ascii_only : ℕ → Bool
ascii_only c = false

fingerprint-IsWritable :
    IsWritable ascii_only (codes "2026-01-02") (codes "auto_resolved") fingerprint
unfolding is_word is_stamp hexes
fingerprint-IsWritable = record {
  state_word = refl;
  state_some = λ p. cc;
  fp_hex = refl;
  ts_stamp = refl;
  ts_some = λ p. cc;
}

resolution_status-EndsLegally_example :
    (a : HunkState) × ((a ≡ initial) ⊎ (a ≡ follow_up_posted))
    × EndsLegally a (resolution_status world fingerprint entry diff no_log)
resolution_status-EndsLegally_example = resolution_status-EndsLegally world fingerprint entry diff

parse_sentinel-make_sentinel_example :
    (sentinel : Text) × (make_sentinel (codes "2026-01-02") (codes "auto_resolved") fingerprint
      ≡ some sentinel)
    × (parse_sentinel ascii_only (codes "Done. " ++ (sentinel ++ codes " Bye."))
        ≡ some
            (record { state = codes "auto_resolved"; fp = fingerprint; ts = codes "2026-01-02" }))
parse_sentinel-make_sentinel_example =
    parse_sentinel-make_sentinel ascii_only (codes "Done. ") (codes "2026-01-02")
      (codes "auto_resolved") fingerprint (codes " Bye.") refl fingerprint-IsWritable

resolution_status-calls_example :
    IsJustified world fingerprint entry diff
      (resolution_status world fingerprint entry diff no_log).1.calls
resolution_status-calls_example = resolution_status-calls world fingerprint entry diff

gone_test : line_in_diff 40 diff ≡ false
unfolding line_in_diff map_diff_lines walk_lines walk_line match_hunk walk_plain walk_body is_marker
    splitlines starts_with
gone_test = refl

resolution_status-raises_example :
    (is_value_error (resolution_status world short_fingerprint entry diff no_log).0
      ≡ reply_is_due world entry diff)
    × ((resolution_status world short_fingerprint entry diff no_log).1.calls ≡ [])
unfolding is_fingerprint hexes
resolution_status-raises_example = resolution_status-raises world short_fingerprint entry diff refl

due_test : reply_is_due world entry diff ≡ true
unfolding same truthy line_in_diff map_diff_lines walk_lines walk_line match_hunk walk_plain
    walk_body is_marker splitlines starts_with
due_test = refl

posted_test : (resolution_status world fingerprint entry diff no_log).0 ≡ ok resolve_reply_posted
unfolding resolution_status same check_diff truthy prior_state_of legal is_terminal is_fingerprint
    make_sentinel hexes is_hex transition line_in_diff map_diff_lines walk_lines walk_line
    match_hunk walk_plain walk_body is_marker splitlines starts_with
posted_test = refl

resolution_status-next_run_example :
    (body : Text) × (m : Sentinel) × ((resolution_status world fingerprint entry diff
        no_log).1.calls
      ≡ resolve_inline_comment 7 (codes "c1") body ∷ [])
    × (parse_sentinel ascii_only body ≡ some m)
    × (m ≡ record { state = codes "auto_resolved"; fp = fingerprint; ts = codes "2026-01-02" })
    × ((resolution_status world fingerprint
          (record entry { sentinel_state = m.state })
          diff
          no_log).0
        ≡ ok auto_resolved)
    × ((resolution_status world fingerprint
          (record entry { sentinel_state = m.state })
          diff
          no_log).1.calls
        ≡ [])
resolution_status-next_run_example =
    resolution_status-next_run world fingerprint entry diff ascii_only entry diff
      fingerprint-IsWritable posted_test

abbrev local_prior : Prior ℕ
local_prior = record {
  sentinel_state = some (codes "follow_up_posted");
  sentinel_ts = some (codes "2026-01-01");
  metadata = 12;
}

abbrev api_prior : Prior ℕ
api_prior = record {
  sentinel_state = some (codes "auto_resolved");
  sentinel_ts = some (codes "2026-01-02");
  metadata = 0;
}

build_prior-newest_example :
    (merged : Prior ℕ) × (get
        (codes "ab")
        (build_prior ((codes "ab", local_prior) ∷ []) ((codes "ab", api_prior) ∷ []))
      ≡ some merged)
    × (merged.metadata ≡ 12)
    × (or_blank merged.sentinel_ts ≡ codes "2026-01-02")
    × (or_blank merged.sentinel_state ≡ codes "auto_resolved")
unfolding get same or_blank text_gt
build_prior-newest_example =
    build_prior-newest ((codes "ab", local_prior) ∷ []) ((codes "ab", api_prior) ∷ []) (codes "ab")
      local_prior api_prior (refl, tt) refl refl
