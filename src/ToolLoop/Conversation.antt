-- ===== src/ToolLoop/Conversation.antt =====
-- The conversation that `anthropic_tool_loop` sends: turns that alternate, each tool_use answered.
use revue.Prelude.{
  ◌≡◌, refl, sym, ◌∙◌, ap, subst, Bool, true, false, not, List, [], ◌∷◌, ◌++◌, Bool-cases, inl, inr,
}
use revue.Prelude.Text.{Text, codes, same}
use revue.ToolLoop.Dispatch.{Called}
use revue.ToolLoop.Messages.{
  Block, text_block, tool_use_block, tool_result_block, opaque, Content, plain, blocks,
  ToolResultBlock, Message, assistant_blocks, strip_blocks, strip_content, strip_cache, as_blocks,
  message,
}
use revue.ToolLoop.Anthropic.{tool_results, mark_last, has_success, extend}

module _ {J : Type 0} where
  -- the ids of the tool_use blocks
  abbrev pub uses_in : List (Block J) → List Text
  uses_in [] = []
  uses_in (text_block t ∷ bs) = uses_in bs
  uses_in (tool_use_block i n x ∷ bs) = i ∷ uses_in bs
  uses_in (tool_result_block r ∷ bs) = uses_in bs
  uses_in (opaque x ∷ bs) = uses_in bs

  -- the ids that the tool_result blocks answer
  abbrev pub results_in : List (Block J) → List Text
  results_in [] = []
  results_in (text_block t ∷ bs) = results_in bs
  results_in (tool_use_block i n x ∷ bs) = results_in bs
  results_in (tool_result_block r ∷ bs) = r.tool_use_id ∷ results_in bs
  results_in (opaque x ∷ bs) = results_in bs

  abbrev pub content_uses : Content J → List Text
  content_uses (plain t) = []
  content_uses (blocks bs) = uses_in bs

  abbrev pub content_results : Content J → List Text
  content_results (plain t) = []
  content_results (blocks bs) = results_in bs

abbrev pub role_of : Bool → Text
role_of true = codes "user"
role_of false = codes "assistant"

-- The roles alternate, from the user's (true) or the assistant's (false) to the one that is next in
-- the end, and each message answers the tool_use blocks of the one before it, one by one; ids and
-- asked are what is to be answered at the start and in the end.
abbrev pub IsConversation :
    {J : Type 0} → Bool → List Text → Bool → List Text → List (Message J) → Type 0
IsConversation user ids next asked [] = (user ≡ next) × (ids ≡ asked)
IsConversation user ids next asked (m ∷ ms) =
    (m.role ≡ role_of user)
    × (content_results m.content ≡ ids)
    × IsConversation (not user) (content_uses m.content) next asked ms

-- the ids of results
abbrev ids_of : List ToolResultBlock → List Text
ids_of [] = []
ids_of (r ∷ rs) = r.tool_use_id ∷ ids_of rs

ids-mark_last : (rs : List ToolResultBlock) → ids_of (mark_last rs) ≡ ids_of rs
unfolding mark_last
ids-mark_last [] = refl
ids-mark_last (r ∷ rs) = elim (Bool-cases (has_success rs)) [
  | inl e ↦ rw (e, mark_last) (ap (λ ids. r.tool_use_id ∷ ids) (ids-mark_last rs))
  | inr e ↦ elim (Bool-cases r.is_error) [
    | inl f ↦ rw (e, f, mark_last)
    | inr f ↦ rw (e, f, mark_last)
  ]
]

uses-as_blocks : (J : Type 0) (rs : List ToolResultBlock) → uses_in (as_blocks {J = J} rs) ≡ []
unfolding as_blocks
uses-as_blocks J [] = refl
uses-as_blocks J (r ∷ rs) = uses-as_blocks J rs

results-as_blocks :
    (J : Type 0) (rs : List ToolResultBlock) → results_in (as_blocks {J = J} rs) ≡ ids_of rs
unfolding as_blocks
results-as_blocks J [] = refl
results-as_blocks J (r ∷ rs) = ap (λ ids. r.tool_use_id ∷ ids) (results-as_blocks J rs)

module _ {J : Type 0} where
  IsConversation-snoc :
      (user : Bool) (ids : List Text) (next : Bool) (asked : List Text) (ms : List (Message J))
      (m : Message J)
      → IsConversation user ids next asked ms
      → m.role ≡ role_of next
      → content_results m.content ≡ asked
      → IsConversation user ids (not next) (content_uses m.content) (ms ++ m ∷ [])
  IsConversation-snoc user ids next asked [] m h role answers =
      (role ∙ ap role_of (sym h.0), answers ∙ sym h.1, (ap not h.0, refl))
  IsConversation-snoc user ids next asked (n ∷ ms) m h role answers = (
    h.0,
    h.1,
    IsConversation-snoc (not user) (content_uses n.content) next asked ms m h.2 role answers,
  )

  uses-strip : (bs : List (Block J)) → uses_in (strip_blocks bs) ≡ uses_in bs
  unfolding strip_blocks
  uses-strip [] = refl
  uses-strip (text_block t ∷ bs) = uses-strip bs
  uses-strip (tool_use_block i n x ∷ bs) = ap (λ ids. i ∷ ids) (uses-strip bs)
  uses-strip (tool_result_block r ∷ bs) = uses-strip bs
  uses-strip (opaque x ∷ bs) = uses-strip bs

  results-strip : (bs : List (Block J)) → results_in (strip_blocks bs) ≡ results_in bs
  unfolding strip_blocks
  results-strip [] = refl
  results-strip (text_block t ∷ bs) = results-strip bs
  results-strip (tool_use_block i n x ∷ bs) = results-strip bs
  results-strip (tool_result_block r ∷ bs) = ap (λ ids. r.tool_use_id ∷ ids) (results-strip bs)
  results-strip (opaque x ∷ bs) = results-strip bs

  content_uses-strip : (c : Content J) → content_uses (strip_content c) ≡ content_uses c
  unfolding strip_content
  content_uses-strip (plain t) = refl
  content_uses-strip (blocks bs) = uses-strip bs

  content_results-strip : (c : Content J) → content_results (strip_content c) ≡ content_results c
  unfolding strip_content
  content_results-strip (plain t) = refl
  content_results-strip (blocks bs) = results-strip bs

  IsConversation-strip :
      (user : Bool) (ids : List Text) (next : Bool) (asked : List Text) (ms : List (Message J))
      → IsConversation user ids next asked ms
      → IsConversation user ids next asked (strip_cache ms)
  unfolding strip_cache
  IsConversation-strip user ids next asked [] h = h
  IsConversation-strip user ids next asked (m ∷ ms) h =
      let later = IsConversation-strip (not user) (content_uses m.content) next asked ms h.2 in
      elim (Bool-cases (same m.role (codes "user"))) [
        | inl e ↦
            rw (e, strip_cache)
              (
                h.0,
                content_results-strip m.content ∙ h.1,
                subst (λ uses. IsConversation (not user) uses next asked (strip_cache ms))
                    (sym (content_uses-strip m.content)) later,
              )
        | inr e ↦ rw (e, strip_cache) (h.0, h.1, later)
      ]

  uses-assistant_blocks : (bs : List (Block J)) → uses_in (assistant_blocks bs) ≡ uses_in bs
  unfolding assistant_blocks
  uses-assistant_blocks [] = refl
  uses-assistant_blocks (text_block t ∷ bs) = uses-assistant_blocks bs
  uses-assistant_blocks (tool_use_block i n x ∷ bs) = ap (λ ids. i ∷ ids) (uses-assistant_blocks bs)
  uses-assistant_blocks (tool_result_block r ∷ bs) = uses-assistant_blocks bs
  uses-assistant_blocks (opaque x ∷ bs) = uses-assistant_blocks bs

  results-assistant_blocks : (bs : List (Block J)) → results_in (assistant_blocks bs) ≡ []
  unfolding assistant_blocks
  results-assistant_blocks [] = refl
  results-assistant_blocks (text_block t ∷ bs) = results-assistant_blocks bs
  results-assistant_blocks (tool_use_block i n x ∷ bs) = results-assistant_blocks bs
  results-assistant_blocks (tool_result_block r ∷ bs) = results-assistant_blocks bs
  results-assistant_blocks (opaque x ∷ bs) = results-assistant_blocks bs

  module _ (format_sorted : List Text → Text) (handlers : List (Text × (J → Called))) where
    ids-tool_results :
        (bs : List (Block J)) → ids_of (tool_results format_sorted handlers bs) ≡ uses_in bs
    unfolding tool_results
    ids-tool_results [] = refl
    ids-tool_results (text_block t ∷ bs) = ids-tool_results bs
    ids-tool_results (tool_use_block i n x ∷ bs) = ap (λ ids. i ∷ ids) (ids-tool_results bs)
    ids-tool_results (tool_result_block r ∷ bs) = ids-tool_results bs
    ids-tool_results (opaque x ∷ bs) = ids-tool_results bs

    -- A turn that calls tools continues the conversation, with nothing left to answer.
    pub extend-IsConversation :
        (ms : List (Message J)) (content : List (Block J))
        → IsConversation true [] false [] ms
        → IsConversation true [] false [] (extend format_sorted handlers ms content)
    unfolding extend
    extend-IsConversation ms content h =
        let assistant = message (codes "assistant") (assistant_blocks content) in
        let rs = tool_results format_sorted handlers content in
        let user = message {J = J} (codes "user") (as_blocks (mark_last rs)) in
        let turn =
          IsConversation-snoc true [] false [] ms assistant h refl
            (results-assistant_blocks content) in
        let stripped =
          IsConversation-strip true [] true (uses_in (assistant_blocks content))
            (ms ++ assistant ∷ []) turn in
        let answers : results_in (as_blocks {J = J} (mark_last rs))
            ≡ uses_in (assistant_blocks content) =
          results-as_blocks J (mark_last rs)
          ∙ ids-mark_last rs
          ∙ ids-tool_results content
          ∙ sym (uses-assistant_blocks content) in
        subst
          (λ asked.
            IsConversation true [] false asked (strip_cache (ms ++ assistant ∷ []) ++ user ∷ []))
          (uses-as_blocks J (mark_last rs))
          (IsConversation-snoc true [] true (uses_in (assistant_blocks content))
            (strip_cache (ms ++ assistant ∷ [])) user stripped refl answers)
