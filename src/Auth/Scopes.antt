-- ===== src/Auth/Scopes.antt =====
-- The scopes of a token (svc-forum/src/lib/auth-jwt.ts) and of the caller
-- (svc-forum/src/middleware/auth.ts): texts between white space.
pub mod Laws
pub mod Same
use Prim.Native.Char.{Char, code}
use Prim.Native.String
use agent_forum.Prelude.{
  ℕ, ◌≡◌, refl, sym, ap, ◌∙◌, arith, String, Bool, true, false, not, ◌||◌, List, [], ◌∷◌, ◌==◌,
  contains, All, if◌then◌else◌, Bool-cases, inl, inr,
}
use agent_forum.Js.{
  Value, str, is_space, trim, trim_start, trim_end, keep_space, distinct_from, template,
}
use agent_forum.Mentions.{sort}

abbrev pub prepend : Char → List String → List String
prepend c [] = String.◌∷◌ c String.[] ∷ []
prepend c (w ∷ ws) = String.◌∷◌ c w ∷ ws

-- The first letter of a word, before the rest of the text and its words.
abbrev pub extend : Char → String → List String → List String
extend c String.[] ws = String.◌∷◌ c String.[] ∷ ws
extend c (String.◌∷◌ d s) ws =
    if is_space (code d) then String.◌∷◌ c String.[] ∷ ws else prepend c ws

-- `split(/\s+/).filter(Boolean)`; of a trimmed text that is not empty, `split(/\s+/)` alone.
unfoldable pub words : String → List String
words String.[] = []
words (String.◌∷◌ c s) = let rest = words s in if is_space (code c) then rest else extend c s rest

-- `join(' ')`
unfoldable pub join_words : List String → String
join_words [] = ""
join_words (w ∷ []) = w
join_words (w ∷ v ∷ ws) = String.◌++◌ w (String.◌++◌ " " (join_words (v ∷ ws)))

-- The set of a token's scopes; a claim that is no text grants none.
unfoldable pub scopes_of : Value → List String
unfolding distinct_from
scopes_of (str s) = distinct_from [] (words s)
scopes_of v = []

unfoldable pub parse_scope : String → List String
unfolding distinct_from
parse_scope scope = if trim scope == "" then [] else sort (distinct_from [] (words (trim scope)))

words_test : words " forum.read  forum.write" ≡ "forum.read" ∷ "forum.write" ∷ []
unfolding words is_space
words_test = refl
