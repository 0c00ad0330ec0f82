-- ===== src/TerminalState/Json.antt =====
-- JSON values, and the tests that the classifier makes on them.
use revue.Prelude.{Bool, true, false, not, ◌==◌, Option, none, some, [], ◌∷◌, if◌then◌else◌}
use revue.Prelude.Int.{ℤ, pos, negsuc}
use revue.Prelude.Text.{Text, same}

-- A value of `json.loads`; of a float, its text and whether it is zero.
mutual
  pub data Json : Type 0 where
    null : Json
    boolean : Bool → Json
    integer : ℤ → Json
    floating : Text → Bool → Json
    string : Text → Json
    array : Elements → Json
    object : Members → Json

  pub data Elements : Type 0 where
    no_elements : Elements
    element : Json → Elements → Elements

  pub data Members : Type 0 where
    no_members : Members
    member : Text → Json → Members → Members

-- parsed.get(key)
unfoldable pub get_member : Text → Members → Option Json
get_member key no_members = none
get_member key (member k x m) = let rest = get_member key m in if same k key then some x else rest

-- key in parsed
unfoldable pub has_member : Text → Members → Bool
unfolding get_member
has_member key m = elim (get_member key m) [ none ↦ false | some x ↦ true ]

-- the `isinstance` tests
unfoldable pub as_string : Option Json → Option Text
as_string (some (string s)) = some s
as_string _ = none

unfoldable pub as_object : Option Json → Option Members
as_object (some (object m)) = some m
as_object _ = none

unfoldable pub is_list : Option Json → Bool
is_list (some (array xs)) = true
is_list _ = false

-- isinstance(x, (int, float)) and not isinstance(x, bool)
unfoldable pub is_number : Option Json → Bool
is_number (some (integer n)) = true
is_number (some (floating t z)) = true
is_number _ = false

-- x if isinstance(x, int) else None; a bool is an int
unfoldable pub as_int : Option Json → Option Json
as_int (some (integer n)) = some (integer n)
as_int (some (boolean b)) = some (boolean b)
as_int _ = none

-- a dict key: lists and dicts are not hashable
unfoldable pub is_hashable : Json → Bool
is_hashable (array xs) = false
is_hashable (object m) = false
is_hashable _ = true

-- bool(x)
unfoldable pub is_truthy : Json → Bool
is_truthy null = false
is_truthy (boolean b) = b
is_truthy (integer (pos n)) = not (n == 0)
is_truthy (integer (negsuc n)) = true
is_truthy (floating t z) = not z
is_truthy (string []) = false
is_truthy (string (c ∷ s)) = true
is_truthy (array no_elements) = false
is_truthy (array (element x xs)) = true
is_truthy (object no_members) = false
is_truthy (object (member k x m)) = true
