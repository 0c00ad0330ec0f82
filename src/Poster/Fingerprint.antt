-- ===== src/Poster/Fingerprint.antt =====
-- The fingerprint of a finding: comments/fingerprint.py. The hash and `str` of a number are
-- parameters.
use revue.Prelude.{◌==◌, Option, none, some, List, [], ◌∷◌, ◌++◌, ℕ, if◌then◌else◌}
use revue.Prelude.Int.{ℤ, pos, ltb_ℤ}
use revue.Prelude.Text.{Text, codes}
use revue.Position.Hunk.{match_hunk}

-- diff.split("\n"), with the start of the current line
unfoldable pub split_lines : Text → Text → List Text
split_lines line [] = line ∷ []
split_lines line (c ∷ s) =
    let ended = line ∷ split_lines [] s in
    let more = split_lines (line ++ c ∷ []) s in if c == 10 then ended else more

-- the numbers of `_HUNK_HEADER.finditer(diff)`
unfoldable pub starts_of : List Text → List ℕ
unfolding match_hunk
starts_of [] = []
starts_of (line ∷ lines) =
    let rest = starts_of lines in
    elim (match_hunk line) [ none ↦ rest | some header ↦ header.new_start ∷ rest ]

unfoldable pub hunk_starts : Text → List ℕ
unfolding starts_of split_lines
hunk_starts diff = starts_of (split_lines [] diff)

-- `best` after the headers
unfoldable pub best_start : ℤ → Option ℕ → List ℕ → Option ℕ
best_start line_number best [] = best
best_start line_number best (hunk_start ∷ starts) =
    best_start line_number (if ltb_ℤ line_number (pos hunk_start) then best else some hunk_start)
      starts

unfoldable pub hunk_start_for_line : Text → ℤ → ℤ
unfolding best_start hunk_starts
hunk_start_for_line diff line_number = elim (best_start line_number none (hunk_starts diff)) [
  | none ↦ line_number
  | some best ↦ pos best
]

-- `fingerprint`; `hash` is sha256(key).hexdigest()[:16]
unfoldable pub fingerprint : (Text → Text) → (ℤ → Text) → Text → ℤ → Text → Text
unfolding hunk_start_for_line
fingerprint hash str file_path line_number diff =
    hash (file_path ++ codes ":" ++ str (hunk_start_for_line diff line_number))
