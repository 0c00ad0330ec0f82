-- ===== src/StateStore/Operations.antt =====
-- The operations of `CommentStateStore`, from the content of the file to the content that is written.
-- Times are the numbers of a clock; the fields that are always None are left out.
use revue.Prelude.{
  ℕ, ◌+◌, Bool, true, false, ltb, Option, none, some, List, [], ◌∷◌, ◌++◌, if◌then◌else◌,
}
use revue.Prelude.Text.{Text, codes, same}
use revue.Prelude.Dict.{get, put}

pub data Platform : Type 0 where
  bitbucket github gitlab : Platform

unfoldable pub platform_value : Platform → Text
platform_value bitbucket = codes "bitbucket"
platform_value github = codes "github"
platform_value gitlab = codes "gitlab"

pub data CommentState : Type 0 where
  active resolved unresolved auto_resolved manually_resolved_with_reply manually_resolved_no_reply
        dismissed_with_reason ignored wont_fix :
      CommentState

pub record Transition : Type 0 where
  pub from_state : CommentState
  pub to_state : CommentState
  pub timestamp : ℕ
  pub reason : Option Text
  pub developer_reply : Option Text

-- an entry of "inline_comments"
pub record Comment : Type 0 where
  pub id : ℕ
  pub platform_comment_id : Text
  pub file_path : Text
  pub line_number : ℕ
  pub comment_body : Text
  pub finding_fingerprint : Text
  pub state : CommentState
  pub created_at : ℕ
  pub updated_at : ℕ
  pub transitions : List Transition

pub record Summary : Type 0 where
  pub platform_comment_id : Text
  pub revision : ℕ
  pub total_issues : ℕ
  pub fixed_count : ℕ
  pub discussed_count : ℕ
  pub remaining_count : ℕ
  pub progress_percentage : ℕ

-- the data of a pull request
pub record PrData : Type 0 where
  pub platform : Text
  pub repo_full_name : Text
  pub pr_number : ℕ
  pub created_at : ℕ
  pub updated_at : ℕ
  pub summary : Option Summary
  pub inline_comments : List Comment

abbrev pub State : Type 0
State = List (Text × PrData)

-- the arguments that name a pull request
pub record Pr : Type 0 where
  pub platform : Platform
  pub repo_full_name : Text
  pub pr_number : ℕ

-- max((c["id"] for c in comments), default=0)
unfoldable pub max_id : List Comment → ℕ
max_id [] = 0
max_id (c ∷ comments) = let rest = max_id comments in if ltb rest c.id then c.id else rest

-- reason, if it is truthy
unfoldable pub truthy_text : Option Text → Option Text
truthy_text none = none
truthy_text (some []) = none
truthy_text (some (c ∷ t)) = some (c ∷ t)

unfoldable pub move : CommentState → Option Text → Option Text → ℕ → Comment → Comment
unfolding truthy_text
move to_state reason developer_reply now c = record c {
  state = to_state;
  updated_at = now;
  transitions =
      c.transitions
      ++ record {
        from_state = c.state;
        to_state = to_state;
        timestamp = now;
        reason = truthy_text reason;
        developer_reply = truthy_text developer_reply;
      }
        ∷ [];
}

-- the comments with the first of the fingerprint moved, if there is one
unfoldable pub move_first :
    Text → CommentState → Option Text → Option Text → ℕ → List Comment → Option (List Comment)
unfolding move
move_first fingerprint to_state reason reply now [] = none
move_first fingerprint to_state reason reply now (c ∷ comments) =
    let rest = move_first fingerprint to_state reason reply now comments in
    if same c.finding_fingerprint fingerprint
    then some (move to_state reason reply now c ∷ comments)
    else (elim rest [ none ↦ none | some moved ↦ some (c ∷ moved) ])

module _ (str : ℕ → Text) where
  -- `_pr_key`
  unfoldable pub pr_key : Pr → Text
  unfolding platform_value
  pr_key pr =
      platform_value pr.platform ++ codes "/" ++ pr.repo_full_name ++ codes "/" ++ str pr.pr_number

  unfoldable pub new_pr : Pr → ℕ → PrData
  unfolding platform_value
  new_pr pr now = record {
    platform = platform_value pr.platform;
    repo_full_name = pr.repo_full_name;
    pr_number = pr.pr_number;
    created_at = now;
    updated_at = now;
    summary = none;
    inline_comments = [];
  }

  -- state[pr_key], which is there afterwards
  unfoldable pub pr_data_of : Pr → ℕ → State → PrData
  unfolding pr_key new_pr get
  pr_data_of pr now state = elim (get (pr_key pr) state) [
    | none ↦ new_pr pr now
    | some entry ↦ entry
  ]

  -- the comments of `get_comments_for_pr`
  unfoldable pub get_comments_for_pr : Pr → State → List Comment
  unfolding pr_key get
  get_comments_for_pr pr state = elim (get (pr_key pr) state) [
    | none ↦ []
    | some entry ↦ entry.inline_comments
  ]

  unfoldable pub new_comment : ℕ → Text → Text → Text → ℕ → Text → List Comment → Comment
  unfolding max_id
  new_comment now fingerprint platform_comment_id file_path line_number comment_body comments =
      record {
        id = max_id comments + 1;
        platform_comment_id = platform_comment_id;
        file_path = file_path;
        line_number = line_number;
        comment_body = comment_body;
        finding_fingerprint = fingerprint;
        state = active;
        created_at = now;
        updated_at = now;
        transitions = [];
      }

  unfoldable pub save_comment : Pr → ℕ → Text → Text → Text → ℕ → Text → State → State
  unfolding pr_data_of new_comment put
  save_comment pr now fingerprint platform_comment_id file_path line_number comment_body state =
      let entry = pr_data_of pr now state in
      put (pr_key pr)
        (record entry {
          updated_at = now;
          inline_comments =
              entry.inline_comments
              ++ new_comment now fingerprint platform_comment_id file_path line_number comment_body
                  entry.inline_comments
                ∷ [];
        })
        state

  -- the new content, which is written where the result is true
  unfoldable pub transition_state :
      Pr → ℕ → Text → CommentState → Option Text → Option Text → State → State × Bool
  unfolding pr_key get put move_first
  transition_state pr now fingerprint to_state reason reply state = elim (get (pr_key pr) state) [
    | none ↦ (state, false)
    | some entry ↦ elim (move_first fingerprint to_state reason reply now entry.inline_comments) [
      | none ↦ (state, false)
      | some moved ↦
          (put (pr_key pr) (record entry { updated_at = now; inline_comments = moved }) state, true)
    ]
  ]

  unfoldable pub get_summary_for_pr : Pr → State → Option Summary
  unfolding pr_key get
  get_summary_for_pr pr state = elim (get (pr_key pr) state) [
    | none ↦ none
    | some entry ↦ entry.summary
  ]

  -- with `percentage fixed total`, the float fixed / total * 100 as an int
  unfoldable pub create_or_update_summary :
      (ℕ → ℕ → ℕ) → Pr → ℕ → Text → ℕ → ℕ → ℕ → ℕ → ℕ → State → State
  unfolding pr_data_of put
  create_or_update_summary percentage pr now platform_comment_id total fixed discussed remaining
        revision state =
      put (pr_key pr)
        (record (pr_data_of pr now state) {
          updated_at = now;
          summary = some record {
            platform_comment_id = platform_comment_id;
            revision = revision;
            total_issues = total;
            fixed_count = fixed;
            discussed_count = discussed;
            remaining_count = remaining;
            progress_percentage = if ltb 0 total then percentage fixed total else 0;
          };
        })
        state
