-- ===== src/Poster/Store.antt =====
-- `PerPRCommentStore`, comments/json_store.py, as the "files" of a pull request's JSON file. A file
-- that is missing or corrupt has none. Times are the numbers of a clock.
use revue.Prelude.{ℕ, Bool, true, false, Option, none, some, List, [], ◌∷◌, if◌then◌else◌}
use revue.Prelude.Int.{ℤ}
use revue.Prelude.Text.{Text}
use revue.Prelude.Dict.{get, put}
use revue.StateStore.Operations.{CommentState, unresolved, truthy_text}

pub record Entry : Type 0 where
  pub state : CommentState
  pub platform_comment_id : Text
  pub platform_thread_id : Option Text
  pub line_number : ℤ
  pub comment_body : Text
  pub created_at : ℕ
  pub updated_at : ℕ
  pub resolution_reason : Option Text

abbrev pub Files : Type 0
Files = List (Text × List (Text × Entry))

-- files.get(file_path, {})
unfoldable pub findings_at : Text → Files → List (Text × Entry)
unfolding get
findings_at file_path files = elim (get file_path files) [ none ↦ [] | some findings ↦ findings ]

unfoldable pub has_fingerprint : Text → Text → Files → Bool
unfolding findings_at get
has_fingerprint file_path fingerprint files = elim (get fingerprint (findings_at file_path files)) [
  | none ↦ false
  | some entry ↦ true
]

unfoldable pub save_finding : ℕ → Text → Text → Text → ℤ → Text → Option Text → Files → Files
unfolding findings_at put
save_finding now file_path fingerprint comment_id line_number comment_body thread_id files =
    put file_path
      (put fingerprint
        (record {
          state = unresolved;
          platform_comment_id = comment_id;
          platform_thread_id = thread_id;
          line_number = line_number;
          comment_body = comment_body;
          created_at = now;
          updated_at = now;
          resolution_reason = none;
        })
        (findings_at file_path files))
      files

-- `resolution_reason` after `mark_resolved`
unfoldable pub new_reason : Option Text → Option Text → Option Text
unfolding truthy_text
new_reason old reason = elim (truthy_text reason) [ none ↦ old | some t ↦ some t ]

-- the new files, which are written where the result is true
unfoldable pub mark_resolved : ℕ → Text → Text → CommentState → Option Text → Files → Files × Bool
unfolding findings_at get put new_reason
mark_resolved now file_path fingerprint state reason files =
    elim (get fingerprint (findings_at file_path files)) [
      | none ↦ (files, false)
      | some entry ↦ (
        put file_path
            (put fingerprint
              (record entry {
                state = state;
                updated_at = now;
                resolution_reason = new_reason entry.resolution_reason reason;
              })
              (findings_at file_path files))
            files,
        true,
      )
    ]

unfoldable pub is_unresolved : CommentState → Bool
is_unresolved unresolved = true
is_unresolved _ = false

-- the loop over the findings of a file
unfoldable pub collect_findings :
    Text → List (Text × Entry) → List (Text × (Text × Entry)) → List (Text × (Text × Entry))
unfolding is_unresolved put
collect_findings file_path [] result = result
collect_findings file_path ((fp, entry) ∷ findings) result =
    collect_findings file_path findings
      (if is_unresolved entry.state then put fp (file_path, entry) result else result)

unfoldable pub collect_files : Files → List (Text × (Text × Entry)) → List (Text × (Text × Entry))
unfolding collect_findings
collect_files [] result = result
collect_files ((file_path, findings) ∷ files) result =
    collect_files files (collect_findings file_path findings result)

-- the entries with their file's path
unfoldable pub get_unresolved_fingerprints : Files → List (Text × (Text × Entry))
unfolding collect_files
get_unresolved_fingerprints files = collect_files files []
