-- ===== src/Auth/Scopes/Same.antt =====
-- The caller's scopes and the token's, as sets.
use agent_forum.Prelude.{
  ◌≡◌, refl, sym, ap, ◌∙◌, arith, String, true, ◌&&◌, ◌||◌, List, [], ◌∷◌, ◌==◌, eq_iff, contains,
  All, Bool-cases, inl, inr,
}
use agent_forum.Js.Sets.{contains-distinct_from}
use agent_forum.Js.{Value, undefined, null, bool, num, str, arr, obj, trim, distinct_from}
use agent_forum.Mentions.{insert_sorted, sort}
use agent_forum.Auth.Scopes.{words, join_words, scopes_of, parse_scope}
use agent_forum.Auth.Scopes.Laws.{IsWord, words-IsWord, words-trim, words-join_words}

contains-insert_sorted :
    (w s : String) (ws : List String) → contains (insert_sorted w ws) s ≡ (w == s || contains ws s)
unfolding insert_sorted
contains-insert_sorted w s [] = refl
contains-insert_sorted w s (v ∷ ws) =
    let rest = contains-insert_sorted w s ws in ground (arith, rest)

contains-sort : (ws : List String) (s : String) → contains (sort ws) s ≡ contains ws s
unfolding sort
contains-sort [] s = refl
contains-sort (w ∷ ws) s =
    contains-insert_sorted w s (sort ws) ∙ ap (λ b. w == s || b) (contains-sort ws s)

distinct_from-IsWord : (seen ws : List String) → All IsWord ws → All IsWord (distinct_from seen ws)
unfolding distinct_from
distinct_from-IsWord seen [] h = tt
distinct_from-IsWord seen (w ∷ ws) h = elim (Bool-cases (contains seen w)) [
  | inl e ↦ rw e (distinct_from-IsWord seen ws h.1)
  | inr e ↦ rw e (h.0, distinct_from-IsWord (w ∷ seen) ws h.1)
]

scopes_of-IsWord : (v : Value) → All IsWord (scopes_of v)
unfolding scopes_of
scopes_of-IsWord (str s) = distinct_from-IsWord [] (words s) (words-IsWord s)
scopes_of-IsWord undefined = tt
scopes_of-IsWord null = tt
scopes_of-IsWord (bool b) = tt
scopes_of-IsWord (num n) = tt
scopes_of-IsWord (arr vs) = tt
scopes_of-IsWord (obj fs) = tt

parse_scope-words : (s : String) → parse_scope s ≡ sort (distinct_from [] (words s))
unfolding parse_scope words distinct_from sort
parse_scope-words s = elim (Bool-cases (trim s == "")) [
  | inl e ↦
      let blank : words s ≡ [] = sym (words-trim s) ∙ ap words ((eq_iff (trim s) "").0 e) in
      rw (e, blank) refl
  | inr e ↦ rw (e, words-trim s) refl
]

-- Scopes that are words, without white space, come back sorted and each once when they are joined
-- to one text and parsed again.
pub parse_scope-join_words :
    (ws : List String) → All IsWord ws → parse_scope (join_words ws) ≡ sort (distinct_from [] ws)
parse_scope-join_words ws h =
    parse_scope-words (join_words ws)
    ∙ ap (λ vs. sort (distinct_from [] vs)) (words-join_words ws h)

-- The caller has a scope exactly if it is a word of the token's scope claim: joining and parsing
-- the scopes again neither adds nor loses one.
pub contains-parse_scope :
    (claim : Value) (s : String)
    → contains (parse_scope (join_words (scopes_of claim))) s ≡ contains (scopes_of claim) s
contains-parse_scope claim s =
    ap (λ ws. contains ws s) (parse_scope-join_words (scopes_of claim) (scopes_of-IsWord claim))
    ∙ contains-sort (distinct_from [] (scopes_of claim)) s
    ∙ all (contains-distinct_from [] (scopes_of claim) s)
  where
    all :
        contains (distinct_from [] (scopes_of claim)) s ≡ (contains (scopes_of claim) s && true)
        → contains (distinct_from [] (scopes_of claim)) s ≡ contains (scopes_of claim) s
    all h = ground (arith, h)
