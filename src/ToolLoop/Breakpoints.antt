-- ===== src/ToolLoop/Breakpoints.antt =====
-- The cache breakpoints in the requests of `anthropic_tool_loop`.
use revue.Prelude.{◌≡◌, refl, ap, List, [], ◌∷◌, ◌++◌, arith, ℕ, ◌+◌, ◌≤◌, if◌then◌else◌}
use revue.Prelude.Text.{Text, codes, same}
use revue.ToolLoop.Dispatch.{Called}
use revue.ToolLoop.Messages.{
  Block, text_block, tool_use_block, tool_result_block, opaque, Content, plain, blocks,
  ToolResultBlock, Message, assistant_blocks, strip_blocks, strip_content, strip_cache, as_blocks,
  message,
}
use revue.ToolLoop.Anthropic.{tool_results, mark_last, extend}

abbrev cached_results : List ToolResultBlock → ℕ
cached_results [] = 0
cached_results (r ∷ rs) = (if r.cached then 1 else 0) + cached_results rs

module _ {J : Type 0} where
  -- the tool_result blocks with a cache_control
  abbrev cached_blocks : List (Block J) → ℕ
  cached_blocks [] = 0
  cached_blocks (text_block t ∷ bs) = cached_blocks bs
  cached_blocks (tool_use_block i n x ∷ bs) = cached_blocks bs
  cached_blocks (tool_result_block r ∷ bs) = (if r.cached then 1 else 0) + cached_blocks bs
  cached_blocks (opaque x ∷ bs) = cached_blocks bs

  abbrev cached_content : Content J → ℕ
  cached_content (plain t) = 0
  cached_content (blocks bs) = cached_blocks bs

  -- those of the user's messages
  abbrev pub breakpoints : List (Message J) → ℕ
  breakpoints [] = 0
  breakpoints (m ∷ ms) =
      (if same m.role (codes "user") then cached_content m.content else 0) + breakpoints ms

  cached-strip : (bs : List (Block J)) → cached_blocks (strip_blocks bs) ≡ 0
  unfolding strip_blocks
  cached-strip [] = refl
  cached-strip (text_block t ∷ bs) = cached-strip bs
  cached-strip (tool_use_block i n x ∷ bs) = cached-strip bs
  cached-strip (tool_result_block r ∷ bs) = omega (arith, cached-strip bs)
  cached-strip (opaque x ∷ bs) = cached-strip bs

  cached_content-strip : (c : Content J) → cached_content (strip_content c) ≡ 0
  unfolding strip_content
  cached_content-strip (plain t) = refl
  cached_content-strip (blocks bs) = cached-strip bs

  breakpoints-strip : (ms : List (Message J)) → breakpoints (strip_cache ms) ≡ 0
  unfolding strip_cache
  breakpoints-strip [] = refl
  breakpoints-strip (m ∷ ms) = ground (arith, breakpoints-strip ms, cached_content-strip m.content)

  breakpoints-append :
      (ms ns : List (Message J)) → breakpoints (ms ++ ns) ≡ breakpoints ms + breakpoints ns
  breakpoints-append [] ns = omega arith
  breakpoints-append (m ∷ ms) ns = omega (arith, breakpoints-append ms ns)

  cached-snoc_text :
      (bs : List (Block J)) (t : Text) → cached_blocks (bs ++ text_block t ∷ []) ≡ cached_blocks bs
  cached-snoc_text [] t = refl
  cached-snoc_text (text_block t' ∷ bs) t = cached-snoc_text bs t
  cached-snoc_text (tool_use_block i n x ∷ bs) t = cached-snoc_text bs t
  cached-snoc_text (tool_result_block r ∷ bs) t =
      ap (λ n. (if r.cached then 1 else 0) + n) (cached-snoc_text bs t)
  cached-snoc_text (opaque x ∷ bs) t = cached-snoc_text bs t

pub breakpoints-snoc :
    {J : Type 0} (ms : List (Message J)) (bs : List (Block J)) (t : Text)
    → breakpoints (ms ++ message (codes "user") (bs ++ text_block t ∷ []) ∷ [])
      ≡ breakpoints (ms ++ message (codes "user") bs ∷ [])
unfolding same
breakpoints-snoc ms bs t = omega (
  arith,
  cached-snoc_text bs t,
  breakpoints-append ms (message (codes "user") (bs ++ text_block t ∷ []) ∷ []),
  breakpoints-append ms (message (codes "user") bs ∷ []),
)

cached-as_blocks :
    (J : Type 0) (rs : List ToolResultBlock)
    → cached_blocks (as_blocks {J = J} rs) ≡ cached_results rs
unfolding as_blocks
cached-as_blocks J [] = refl
cached-as_blocks J (r ∷ rs) = ap (λ n. (if r.cached then 1 else 0) + n) (cached-as_blocks J rs)

cached-mark_last :
    (rs : List ToolResultBlock) → cached_results rs ≡ 0 → cached_results (mark_last rs) ≤ 1
unfolding mark_last
cached-mark_last [] h = omega arith
cached-mark_last (r ∷ rs) h = ground (arith, cached-mark_last rs, h)

module _ {J : Type 0} (format_sorted : List Text → Text)
    (handlers : List (Text × (J → Called))) where
  cached-tool_results :
      (bs : List (Block J)) → cached_results (tool_results format_sorted handlers bs) ≡ 0
  unfolding tool_results
  cached-tool_results [] = refl
  cached-tool_results (text_block t ∷ bs) = cached-tool_results bs
  cached-tool_results (tool_use_block i n x ∷ bs) = omega (arith, cached-tool_results bs)
  cached-tool_results (tool_result_block r ∷ bs) = cached-tool_results bs
  cached-tool_results (opaque x ∷ bs) = cached-tool_results bs

  -- A turn that calls tools leaves one breakpoint at most, whatever there was before.
  pub breakpoints-extend :
      (ms : List (Message J)) (content : List (Block J))
      → breakpoints (extend format_sorted handlers ms content) ≤ 1
  unfolding extend
  breakpoints-extend ms content =
      let before = ms ++ message (codes "assistant") (assistant_blocks content) ∷ [] in
      let rs = tool_results format_sorted handlers content in
      let user = message {J = J} (codes "user") (as_blocks (mark_last rs)) in
      ground (
        arith,
        breakpoints-strip before,
        breakpoints-append (strip_cache before) (user ∷ []),
        cached-as_blocks J (mark_last rs),
        cached-mark_last rs (cached-tool_results content),
      )
