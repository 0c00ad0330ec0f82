-- ===== src/Tools/Sandbox.antt =====
-- The checks that the three tools begin with: core/tools/read_file.py (and the same in read_lines.py
-- and find_code.py). The file system is a parameter.
use revue.Prelude.{ℕ, Bool, true, false, not, Option, none, some, List, ◌++◌, any, if◌then◌else◌}
use revue.Prelude.Int.{ℤ}
use revue.Prelude.Text.{Text, codes, same}
use revue.ToolLoop.Dispatch.{ToolResult}

-- read_text(encoding="utf-8"): the text, a UnicodeDecodeError, or another exception
pub data Contents : Type 0 where
  text : Text → Contents
  not_utf8 : Contents
  os_error : Text → Text → Contents

-- what a call of the file system gives: a value, or an exception with its type and its message
pub data Answer (A : Type 0) : Type 0 where
  gives : A → Answer A
  raises : Text → Text → Answer A

-- `resolve` is (repo_root / path).resolve(), and `relative_to` is relative_to(repo_root), where
-- `none` is a ValueError. Ripgrep, where it is installed, gives its exit code and its output, or
-- `subprocess.run` raises something else than a FileNotFoundError.
pub record FileSystem : Type 0 where
  pub resolve : Text → Answer Text
  pub relative_to : Text → Option Text
  pub exists : Text → Answer Bool
  pub read_text : Text → Contents
  pub ripgrep : Option (Text → Text → ℤ → Answer (ℕ × Text))

abbrev pub error_result : Text → ToolResult
error_result message = record { content = message; is_error = true }

-- path in self._allowed_paths
unfoldable pub is_allowed : List Text → Text → Bool
is_allowed allowed_paths path = any (same path) allowed_paths

pub data Checked : Type 0 where
  refused : ToolResult → Checked
  granted : Text → Checked
  stuck : Text → Text → Checked

abbrev outside : Text → Text
outside path =
    codes "Error: '"
    ++ path
    ++ codes "' resolves outside the repo root. "
    ++ codes "Path traversal is not permitted."

abbrev redirected : Text → Text → Text
redirected path relpath =
    codes "Error: '"
    ++ path
    ++ codes "' resolves to '"
    ++ relpath
    ++ codes "' which is not in this PR's file set. Symlink-redirected reads are not permitted."

abbrev missing : Text → Text
missing path = codes "Error: file '" ++ path ++ codes "' does not exist at HEAD."

-- whether the file is there
unfoldable pub check_exists : Text → Text → Answer Bool → Checked
check_exists path full_path (gives true) = granted full_path
check_exists path full_path (gives false) = refused (error_result (missing path))
check_exists path full_path (raises kind message) = stuck kind message

-- the checks on a path's destination
unfoldable pub check_destination : FileSystem → List Text → Text → Text → Checked
unfolding is_allowed check_exists
check_destination fs allowed_paths path full_path = elim (fs.relative_to full_path) [
  | none ↦ refused (error_result (outside path))
  | some relpath ↦
      if not (is_allowed allowed_paths relpath)
      then refused (error_result (redirected path relpath))
      else check_exists path full_path (fs.exists full_path)
]

-- the same on a path that is resolved
unfoldable pub check_resolved : FileSystem → List Text → Text → Answer Text → Checked
unfolding check_destination
check_resolved fs allowed_paths path (gives full_path) =
    check_destination fs allowed_paths path full_path
check_resolved fs allowed_paths path (raises kind message) = stuck kind message

-- all the checks, or the exception that ends them; `advice` is the end of the tool's own first message
unfoldable pub check_path : FileSystem → List Text → Text → Text → Checked
unfolding is_allowed check_resolved
check_path fs allowed_paths advice path =
    if not (is_allowed allowed_paths path)
    then refused (
        error_result
          (codes "Error: '" ++ path ++ codes "' is not in this PR's file set. " ++ advice))
    else check_resolved fs allowed_paths path (fs.resolve path)
