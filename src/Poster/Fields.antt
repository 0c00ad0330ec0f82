-- ===== src/Poster/Fields.antt =====
-- The findings of a response: `_parse_findings` and `_extract_finding_fields`, comments/poster.py.
-- `json.loads`, `str.lower` and `int` are parameters. An exception is `none`.
use revue.Prelude.{Option, none, some, List, [], ◌∷◌, if◌then◌else◌}
use revue.Prelude.Int.{ℤ, pos}
use revue.Prelude.Pattern.{◌>>=◌}
use revue.Prelude.Text.{Text, codes, same}
use revue.TerminalState.Json.{
  Json, array, object, string, Elements, no_elements, element, Members, get_member, is_truthy,
  as_object,
}
use revue.TerminalState.Classify.{strip, strip_markdown_fence}

-- int(x); an OverflowError is not caught with the other two
pub data Converted : Type 0 where
  value : ℤ → Converted
  type_or_value_error overflow_error : Converted

-- the tuple of `_extract_finding_fields`, and the finding itself
pub record Finding : Type 0 where
  pub severity : Text
  pub issue : Text
  pub details : Text
  pub recommendation : Text
  pub category : Text
  pub line : ℤ
  pub source : Members

-- "review" in data, for a list
unfoldable pub has_string : Text → Elements → Json → Option Json
has_string key no_elements whole = some whole
has_string key (element (string s) xs) whole =
    let rest = has_string key xs whole in if same s key then none else rest
has_string key (element x xs) whole = has_string key xs whole

-- data["review"], where it is a dict
unfoldable pub unwrap_review : Members → Members
unfolding get_member as_object
unwrap_review m = elim (as_object (get_member (codes "review") m)) [ none ↦ m | some inner ↦ inner ]

-- data.get("findings", [])
unfoldable pub findings_member : Members → Json
unfolding get_member
findings_member m = elim (get_member (codes "findings") m) [ none ↦ array no_elements | some x ↦ x ]

-- the findings of the parsed response; every other value makes `in` or `.get` raise
unfoldable pub findings_of : Json → Option Json
unfolding has_string unwrap_review findings_member
findings_of (array xs) = has_string (codes "review") xs (array xs)
findings_of (object m) = some (findings_member (unwrap_review m))
findings_of _ = none

unfoldable pub parse_findings : (Text → Option Json) → Text → Option Json
unfolding findings_of strip_markdown_fence
parse_findings loads response = elim (loads (strip_markdown_fence response)) [
  | none ↦ none
  | some parsed ↦ findings_of parsed
]

-- the value of `f.get(k₁) or f.get(k₂) or …`, where it is truthy
unfoldable pub first_truthy : List Text → Members → Option Json
unfolding get_member is_truthy
first_truthy [] f = none
first_truthy (key ∷ keys) f =
    let rest = first_truthy keys f in
    elim (get_member key f) [ none ↦ rest | some x ↦ if is_truthy x then some x else rest ]

-- the text of a field; a value that is not a `str` has no `strip`
unfoldable pub text_field : List Text → Text → Members → Option Text
unfolding first_truthy
text_field keys default f = elim (first_truthy keys f) [
  | none ↦ some default
  | some (string s) ↦ some s
  | some x ↦ none
]

unfoldable pub line_field : (Json → Converted) → Members → Option ℤ
unfolding first_truthy
line_field int f = elim (first_truthy (codes "line" ∷ codes "lines" ∷ codes "line_number" ∷ []) f) [
  | none ↦ some (pos 1)
  | some x ↦ elim (int x) [
    | value n ↦ some n
    | type_or_value_error ↦ some (pos 1)
    | overflow_error ↦ none
  ]
]

unfoldable pub extract_finding_fields : (Text → Text) → (Json → Converted) → Json → Option Finding
unfolding text_field line_field strip
extract_finding_fields lower int (object f) = do
  sev ← text_field (codes "severity" ∷ []) (codes "info") f
  issue ← text_field (codes "issue" ∷ codes "message" ∷ codes "title" ∷ []) [] f
  details ← text_field (codes "details" ∷ codes "description" ∷ codes "detail" ∷ []) [] f
  rec ← text_field (codes "recommendation" ∷ codes "suggestion" ∷ codes "fix" ∷ []) [] f
  cat ← text_field (codes "category" ∷ codes "type" ∷ []) [] f
  line ← line_field int f
  some (record {
    severity = lower sev;
    issue = strip issue;
    details = strip details;
    recommendation = strip rec;
    category = strip cat;
    line = line;
    source = f;
  })
extract_finding_fields lower int _ = none

unfoldable pub elements : Elements → List Json
elements no_elements = []
elements (element x xs) = x ∷ elements xs

-- `for f in findings`: the items of a dict or a text are texts, for which no field can be taken;
-- any other value is not iterable
unfoldable pub items_of : Json → Option (List Json)
unfolding elements
items_of (array xs) = some (elements xs)
items_of (object m) = some []
items_of (string s) = some []
items_of _ = none
