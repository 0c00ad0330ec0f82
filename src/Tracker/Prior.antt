-- ===== src/Tracker/Prior.antt =====
-- `build_prior`: the entries of the local store merged into those that are read from the platform.
-- Of an entry, the two sentinel fields (each may be missing) and the other fields as one value.
use revue.Prelude.{
  Bool, true, false, not, ◌&&◌, ◌||◌, Option, none, some, List, [], ◌∷◌, if◌then◌else◌,
}
use revue.Prelude.Text.{Text}
use revue.Prelude.Dict.{get, put}
use revue.Tracker.Sentinel.{text_gt}

pub record Prior (M : Type 0) : Type 0 where
  pub sentinel_state : Option Text
  pub sentinel_ts : Option Text
  pub metadata : M

-- entry.get(key, "")
unfoldable pub or_blank : Option Text → Text
or_blank none = []
or_blank (some t) = t

-- bool(s)
unfoldable pub is_given : Text → Bool
is_given [] = false
is_given (c ∷ s) = true

-- entry.setdefault(key, default)
unfoldable pub set_default : Option Text → Text → Option Text
set_default none default = some default
set_default (some t) default = some t

module _ {M : Type 0} where
  -- the merged entry of a fingerprint that both have
  unfoldable pub merge_entry : Prior M → Prior M → Prior M
  unfolding or_blank is_given set_default text_gt
  merge_entry api local =
      let api_ts = or_blank api.sentinel_ts in
      let local_ts = or_blank local.sentinel_ts in
      if is_given api_ts && (not (is_given local_ts) || text_gt api_ts local_ts)
      then record local {
        sentinel_state = some (or_blank api.sentinel_state);
        sentinel_ts = some api_ts;
      }
      else if is_given local_ts
      then record local {
        sentinel_state = set_default local.sentinel_state (or_blank api.sentinel_state);
      }
      else local

  -- merged[fp] of a local entry
  unfoldable pub merged_entry : Option (Prior M) → Prior M → Prior M
  unfolding merge_entry
  merged_entry none local = local
  merged_entry (some api) local = merge_entry api local

  unfoldable pub merge_all : List (Text × Prior M) → List (Text × Prior M) → List (Text × Prior M)
  unfolding merged_entry get put
  merge_all merged [] = merged
  merge_all merged ((fp, local) ∷ prior_unresolved) =
      merge_all (put fp (merged_entry (get fp merged) local) merged) prior_unresolved

  unfoldable pub build_prior : List (Text × Prior M) → List (Text × Prior M) → List (Text × Prior M)
  unfolding merge_all
  build_prior prior_unresolved api_fps = merge_all api_fps prior_unresolved
