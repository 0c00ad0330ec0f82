-- ===== src/Router/Triggers.antt =====
-- Languages, globs, `evaluate_triggers` and `assign_files_to_agents`.
use revue.Prelude.{
  ℕ, zero, suc, ◌+◌, ◌%◌, Bool, true, false, ◌&&◌, ◌||◌, Option, none, some, List, [], ◌∷◌, ◌++◌,
  ◌==◌, ltb, any, length, get_elem?, if◌then◌else◌,
}
use revue.Prelude.Text.{Text, codes, same, starts_with, occurs}
use revue.Prelude.Dict.{get, put}

pub record FileChange : Type 0 where
  pub file_path : Text
  pub change_type : Text
  pub additions : ℕ
  pub deletions : ℕ
  pub diff : Text
  pub language : Text

-- name in names
unfoldable pub listed : Text → List Text → Bool
listed name [] = false
listed name (n ∷ names) = let rest = listed name names in if same n name then true else rest

-- s.rsplit(c, 1)[-1], where c is in s
unfoldable pub last_part : ℕ → Text → Option Text
last_part c [] = none
last_part c (d ∷ s) = elim (last_part c s) [
  | some t ↦ some t
  | none ↦ if d == c then some s else none
]

-- s.rsplit(c, 1)[-1]
unfoldable pub after_last : ℕ → Text → Text
unfolding last_part
after_last c s = elim (last_part c s) [ none ↦ s | some t ↦ t ]

-- `_get_extension`
unfoldable pub get_extension : Text → Text
unfolding last_part
get_extension file_path = elim (last_part b'.' file_path) [ none ↦ [] | some t ↦ b'.' ∷ t ]

abbrev pub ext_to_lang : List (Text × Text)
ext_to_lang =
    (codes ".py", codes "python")
    ∷ (codes ".js", codes "javascript")
    ∷ (codes ".ts", codes "typescript")
    ∷ (codes ".tsx", codes "typescript")
    ∷ (codes ".jsx", codes "javascript")
    ∷ (codes ".rb", codes "ruby")
    ∷ (codes ".go", codes "go")
    ∷ (codes ".rs", codes "rust")
    ∷ (codes ".java", codes "java")
    ∷ (codes ".kt", codes "kotlin")
    ∷ (codes ".swift", codes "swift")
    ∷ (codes ".cs", codes "csharp")
    ∷ (codes ".cpp", codes "cpp")
    ∷ (codes ".c", codes "c")
    ∷ (codes ".h", codes "c")
    ∷ (codes ".hpp", codes "cpp")
    ∷ (codes ".php", codes "php")
    ∷ (codes ".scala", codes "scala")
    ∷ (codes ".sh", codes "shell")
    ∷ (codes ".bash", codes "shell")
    ∷ []

unfoldable pub language_of : Text → Option Text
unfolding get get_extension
language_of file_path = get (get_extension file_path) ext_to_lang

-- `_detect_languages`
unfoldable pub detect_languages : List FileChange → List Text
unfolding language_of
detect_languages [] = []
detect_languages (fc ∷ changes) =
    let langs = detect_languages changes in
    elim (language_of fc.file_path) [ none ↦ langs | some lang ↦ lang ∷ langs ]

-- counts.get(lang, 0)
unfoldable pub count_of : Text → List (Text × ℕ) → ℕ
unfolding get
count_of lang counts = elim (get lang counts) [ none ↦ 0 | some n ↦ n ]

unfoldable pub count_languages : List (Text × ℕ) → List FileChange → List (Text × ℕ)
unfolding count_of language_of put
count_languages counts [] = counts
count_languages counts (fc ∷ changes) = elim (language_of fc.file_path) [
  | none ↦ count_languages counts changes
  | some lang ↦ count_languages (put lang (count_of lang counts + 1) counts) changes
]

-- max(counts, key=counts.get): the first of the largest counts
unfoldable pub most_frequent : Text × ℕ → List (Text × ℕ) → Text
most_frequent best [] = best.0
most_frequent best (entry ∷ counts) =
    most_frequent (if ltb best.1 entry.1 then entry else best) counts

-- `_detect_primary_language`
unfoldable pub primary_of : List (Text × ℕ) → Text
unfolding most_frequent
primary_of [] = []
primary_of (entry ∷ counts) = most_frequent entry counts

unfoldable pub detect_primary_language : List FileChange → Text
unfolding primary_of count_languages
detect_primary_language changes = primary_of (count_languages [] changes)

-- pattern.replace("**/", ""), with the characters that are still to be skipped
unfoldable pub strip_globstars : ℕ → Text → Text
strip_globstars n [] = []
strip_globstars (suc n) (c ∷ s) = strip_globstars n s
strip_globstars zero (c ∷ s) =
    let skipped = strip_globstars 2 s in
    let kept = strip_globstars 0 s in
    if starts_with (c ∷ s) (codes "**/") then skipped else c ∷ kept

-- the dict of an agent's triggers; a missing key has its default
pub record AgentDef : Type 0 where
  pub file_patterns : List Text
  pub languages : List Text
  pub trigger_patterns : List Text

unfoldable pub is_empty {ℓ} : {A : Type ℓ} → List A → Bool
is_empty [] = true
is_empty (x ∷ xs) = false

module _ (lower : Text → Text) (fnmatch : Text → Text → Bool) where
  -- `_match_glob`
  unfoldable pub match_glob : Text → Text → Bool
  unfolding strip_globstars after_last
  match_glob file_path pattern =
      fnmatch file_path pattern
      || (occurs (codes "**") pattern
          && (fnmatch (after_last b'/' file_path) (strip_globstars 0 pattern)
              || fnmatch file_path (strip_globstars 0 pattern)))

  unfoldable pub patterns_of : AgentDef → List Text
  patterns_of d = if is_empty d.file_patterns then d.trigger_patterns else d.file_patterns

  unfoldable pub evaluate_triggers : List FileChange → AgentDef → Bool
  unfolding match_glob patterns_of detect_languages
  evaluate_triggers changes d =
      if is_empty (patterns_of d) && is_empty d.languages
      then true
      else any (λ (fc : FileChange). any (match_glob fc.file_path) (patterns_of d)) changes
        || any (λ lang. listed (lower lang) (detect_languages changes)) d.languages

-- assignment[agent].append(path)
unfoldable pub assign : Text → Text → List (Text × List Text) → List (Text × List Text)
assign agent path [] = []
assign agent path ((k, paths) ∷ d) =
    let rest = assign agent path d in
    if same k agent then (k, paths ++ path ∷ []) ∷ d else (k, paths) ∷ rest

-- {name: [] for name in agent_names}
unfoldable pub no_files : List (Text × List Text) → List Text → List (Text × List Text)
unfolding put
no_files d [] = d
no_files d (name ∷ names) = no_files (put name [] d) names

-- agent_names[i % len(agent_names)], of names that are not empty
unfoldable pub nth_agent : Text → List Text → ℕ → Text
nth_agent first names i = elim (get_elem? (first ∷ names) (i % suc (length names))) [
  | none ↦ first
  | some name ↦ name
]

unfoldable pub assign_from :
    Text → List Text → ℕ → List FileChange → List (Text × List Text) → List (Text × List Text)
unfolding assign nth_agent
assign_from first names i [] d = d
assign_from first names i (fc ∷ changes) d =
    assign_from first names (i + 1) changes (assign (nth_agent first names i) fc.file_path d)

unfoldable pub assign_files_to_agents : List Text → List FileChange → List (Text × List Text)
unfolding assign_from no_files
assign_files_to_agents [] changes = []
assign_files_to_agents (first ∷ names) changes =
    assign_from first names 0 changes (no_files [] (first ∷ names))
