-- ===== src/Noise.antt =====
-- The noise filters: packaging/revue_core/src/revue_core/core/noise_filters.py. The filters that match
-- regular expressions are parameters, and so is `str.lower`.
pub mod Applied
mod Examples
use revue.Prelude.{
  ℕ, Bool, true, false, not, Option, none, some, List, [], ◌∷◌, ◌++◌, String, str_eq, any,
  if◌then◌else◌,
}
use revue.Prelude.Text.{Text, codes, occurs, is_blank}

pub record AiReview (Float : Type 0) : Type 0 where
  pub file_path : Text
  pub line_number : ℕ
  pub severity : String
  pub issue : Text
  pub suggestion : Text
  pub confidence : Float
  pub category : Text
  pub agent_name : Text
  pub synthesised_from : Option (List (Text × Text))
  pub code_replacement : Option (List Text)
  pub replacement_line_count : ℕ
  pub language : String

-- `should_suppress` is `none` where it raises.
pub record NoiseFilter (Float : Type 0) : Type 0 where
  pub name : String
  pub should_suppress : AiReview Float → Option Bool

pub record FilterResult (Float : Type 0) : Type 0 where
  pub kept : List (AiReview Float)
  pub suppressed : List (AiReview Float × String)

abbrev test_patterns : List Text
test_patterns =
    codes "test_"
    ∷ codes "_test."
    ∷ codes "spec_"
    ∷ codes "_spec."
    ∷ codes "/tests/"
    ∷ codes "/test/"
    ∷ []

abbrev generated_patterns : List Text
generated_patterns =
    codes ".min.js"
    ∷ codes ".min.css"
    ∷ codes "package-lock.json"
    ∷ codes "yarn.lock"
    ∷ codes ".pb.go"
    ∷ codes "_pb2.py"
    ∷ codes ".generated."
    ∷ codes "/__generated__/"
    ∷ []

-- [f for f in filters if f.name not in disabled_set]
unfoldable pub enabled :
    {Float : Type 0} → List String → List (NoiseFilter Float) → List (NoiseFilter Float)
enabled disabled [] = []
enabled disabled (f ∷ filters) =
    let rest = enabled disabled filters in
    if any (λ name. str_eq name f.name) disabled then rest else f ∷ rest

module _ {Float : Type 0} (lt_float : Float → Float → Bool) (lower : Text → Text) where
  unfoldable pub low_confidence_filter : Float → NoiseFilter Float
  low_confidence_filter threshold = record {
    name = "low-confidence";
    should_suppress = λ review. some (lt_float review.confidence threshold);
  }

  unfoldable pub test_file_filter : NoiseFilter Float
  test_file_filter = record {
    name = "test-file";
    should_suppress = λ review. some (
        if str_eq review.severity "high"
        then false
        else any (λ pattern. occurs pattern (lower review.file_path)) test_patterns);
  }

  unfoldable pub generated_file_filter : NoiseFilter Float
  generated_file_filter = record {
    name = "generated-file";
    should_suppress = λ review.
        some (any (λ pattern. occurs pattern (lower review.file_path)) generated_patterns);
  }

  unfoldable pub empty_issue_filter : NoiseFilter Float
  empty_issue_filter = record {
    name = "empty-issue";
    should_suppress = λ review. some (is_blank review.issue);
  }

  -- `pattern_filters` are the filters that match regular expressions
  unfoldable pub build_filters :
      List (NoiseFilter Float) → List String → Float → List (NoiseFilter Float)
  unfolding enabled
  build_filters pattern_filters disabled threshold = enabled disabled (
      low_confidence_filter threshold
      ∷ test_file_filter
      ∷ generated_file_filter
      ∷ empty_issue_filter
      ∷ pattern_filters)

unfoldable pub holds : Option Bool → Bool
holds none = false
holds (some b) = b

-- `suppressed_by`, if it is not empty
unfoldable pub named : Option String → Option String
named none = none
named (some name) = if str_eq name "" then none else some name

module _ {Float : Type 0} where
  -- the inner loop: `suppressed_by`
  unfoldable pub suppressed_by : AiReview Float → List (NoiseFilter Float) → Option String
  suppressed_by review [] = none
  suppressed_by review (f ∷ filters) =
      let rest = suppressed_by review filters in
      if holds (f.should_suppress review) then some f.name else rest

  unfoldable pub file_review :
      AiReview Float → Option String → FilterResult Float → FilterResult Float
  file_review review none r = record r { kept = r.kept ++ review ∷ [] }
  file_review review (some name) r = record r { suppressed = r.suppressed ++ (review, name) ∷ [] }

  unfoldable pub filter_from :
      List (NoiseFilter Float) → FilterResult Float → List (AiReview Float) → FilterResult Float
  unfolding named suppressed_by file_review
  filter_from active r [] = r
  filter_from active r (review ∷ findings) =
      filter_from active (file_review review (named (suppressed_by review active)) r) findings

  unfoldable pub apply_noise_filters :
      List (AiReview Float) → List (NoiseFilter Float) → FilterResult Float
  unfolding filter_from
  apply_noise_filters findings active =
      filter_from active (record { kept = []; suppressed = [] }) findings
