-- ===== src/Noise/Examples.antt =====
-- The theorems about the noise filters at concrete findings, with confidences in per cent.
use revue.Prelude.{◌≡◌, not, none, refl, ℕ, true, List, [], ◌∷◌, String, any, All, ltb}
use revue.Prelude.Text.{Text, codes}
use revue.Router.Signal.{filter}
use revue.Noise.{
  AiReview, NoiseFilter, build_filters, enabled, apply_noise_filters, low_confidence_filter,
  test_file_filter, generated_file_filter, empty_issue_filter,
}
use revue.Noise.Applied.{reviews_of, suppresses, suppresses_as, apply_noise_filters-decided}

abbrev review_of : Text → ℕ → AiReview ℕ
review_of path confidence = record {
  file_path = path;
  line_number = 3;
  severity = "low";
  issue = codes "unused";
  suggestion = codes "remove";
  confidence = confidence;
  category = codes "style";
  agent_name = codes "kai";
  synthesised_from = none;
  code_replacement = none;
  replacement_line_count = 1;
  language = "python";
}

abbrev same_text : Text → Text
same_text s = s

abbrev reviews : List (AiReview ℕ)
reviews =
    review_of (codes "a.py") 90
    ∷ review_of (codes "test_a.py") 90
    ∷ review_of (codes "b.py") 10
    ∷ []

abbrev active : List (NoiseFilter ℕ)
active = build_filters ltb same_text [] ("low-confidence" ∷ []) 50

apply_noise_filters-decided_example :
    ((apply_noise_filters reviews active).kept
      ≡ filter (λ (review : AiReview ℕ). not (any (suppresses review) active)) reviews)
    × (reviews_of (apply_noise_filters reviews active).suppressed
        ≡ filter (λ (review : AiReview ℕ). any (suppresses review) active) reviews)
    × All
        (λ (entry : AiReview ℕ × String). any (suppresses_as entry.0 entry.1) active ≡ true)
        (apply_noise_filters reviews active).suppressed
unfolding build_filters enabled low_confidence_filter test_file_filter generated_file_filter
    empty_issue_filter
apply_noise_filters-decided_example =
    apply_noise_filters-decided reviews active (refl, (refl, (refl, tt)))
