-- ===== src/Auth/Scopes/Laws.antt =====
-- The caller's scopes and the token's.
use Prim.Native.Char.{Char, code}
use Prim.Native.String
use text.Mathlib.TextLemmas.{cons-append, nil-append}
use agent_forum.Prelude.{
  ◌≡◌, refl, sym, ap, ◌∙◌, String, true, false, List, [], ◌∷◌, All, Bool-cases, inl, inr,
}
use agent_forum.Js.{is_space, trim, trim_start, trim_end, keep_space}
use agent_forum.Auth.Scopes.{prepend, extend, words, join_words}

-- A letter and more, without white space.
abbrev pub HasNoSpace : String → Type 0
HasNoSpace String.[] = Unit
HasNoSpace (String.◌∷◌ c s) = (is_space (code c) ≡ false) × HasNoSpace s

abbrev pub IsWord : String → Type 0
IsWord String.[] = ⊥
IsWord (String.◌∷◌ c s) = (is_space (code c) ≡ false) × HasNoSpace s

prepend-IsWord :
    (c : Char) (ws : List String)
    → is_space (code c) ≡ false
    → All IsWord ws
    → All IsWord (prepend c ws)
prepend-IsWord c [] h hs = ((h, tt), tt)
prepend-IsWord c (String.[] ∷ ws) h hs = absurd hs.0
prepend-IsWord c (String.◌∷◌ d w ∷ ws) h hs = ((h, hs.0), hs.1)

pub words-IsWord : (s : String) → All IsWord (words s)
unfolding words
words-IsWord String.[] = tt
words-IsWord (String.◌∷◌ c String.[]) = elim (Bool-cases (is_space (code c))) [
  | inl e ↦ rw e tt
  | inr e ↦ rw e ((e, tt), tt)
]
words-IsWord (String.◌∷◌ c (String.◌∷◌ d s)) =
    let rest = words-IsWord (String.◌∷◌ d s) in
    elim (Bool-cases (is_space (code c))) [
      | inl e ↦ rw e rest
      | inr e ↦ elim (Bool-cases (is_space (code d))) [
        | inl f ↦ rw (e, f) ((e, tt), rw f at rest)
        | inr f ↦ rw (e, f) (prepend-IsWord c _ e (rw f at rest))
      ]
    ]

-- How the words of a text begin.
words-space : (c : Char) (s : String) → is_space (code c) ≡ true → words (String.◌∷◌ c s) ≡ words s
unfolding words
words-space c s e = rw e refl

words-letter :
    (c : Char) (s : String)
    → is_space (code c) ≡ false
    → words (String.◌∷◌ c s) ≡ extend c s (words s)
unfolding words
words-letter c s e = rw e refl

extend-space :
    (c d : Char) (s : String) (ws : List String)
    → is_space (code d) ≡ true
    → extend c (String.◌∷◌ d s) ws ≡ String.◌∷◌ c String.[] ∷ ws
extend-space c d s ws e = rw e refl

extend-letter :
    (c d : Char) (s : String) (ws : List String)
    → is_space (code d) ≡ false
    → extend c (String.◌∷◌ d s) ws ≡ prepend c ws
extend-letter c d s ws e = rw e refl

trim_start-space :
    (c : Char) (s : String) → is_space (code c) ≡ true → trim_start (String.◌∷◌ c s) ≡ trim_start s
unfolding trim_start
trim_start-space c s e = rw e refl

trim_start-letter :
    (c : Char) (s : String)
    → is_space (code c) ≡ false
    → trim_start (String.◌∷◌ c s) ≡ String.◌∷◌ c s
unfolding trim_start
trim_start-letter c s e = rw e refl

-- White space at the ends makes no word.
words-trim_start : (s : String) → words (trim_start s) ≡ words s
unfolding trim_start
words-trim_start String.[] = refl
words-trim_start (String.◌∷◌ c s) = elim (Bool-cases (is_space (code c))) [
  | inl e ↦ ap words (trim_start-space c s e) ∙ words-trim_start s ∙ sym (words-space c s e)
  | inr e ↦ ap words (trim_start-letter c s e)
]

keep_space-space : (c : Char) → is_space (code c) ≡ true → keep_space c String.[] ≡ String.[]
unfolding keep_space
keep_space-space c e = rw e refl

keep_space-letter :
    (c : Char) → is_space (code c) ≡ false → keep_space c String.[] ≡ String.◌∷◌ c String.[]
unfolding keep_space
keep_space-letter c e = rw e refl

-- The first letter sees the same of a text and of its trimmed form.
extend-keep_space :
    (c d : Char) (s : String) (ws : List String)
    → extend c (keep_space d s) ws ≡ extend c (String.◌∷◌ d s) ws
unfolding keep_space
extend-keep_space c d String.[] ws = elim (Bool-cases (is_space (code d))) [
  | inl e ↦ ap (λ s. extend c s ws) (keep_space-space d e) ∙ sym (extend-space c d String.[] ws e)
  | inr e ↦ ap (λ s. extend c s ws) (keep_space-letter d e)
]
extend-keep_space c d (String.◌∷◌ x s) ws = refl

extend-trim_end :
    (c : Char) (s : String) (ws : List String) → extend c (trim_end s) ws ≡ extend c s ws
unfolding trim_end
extend-trim_end c String.[] ws = refl
extend-trim_end c (String.◌∷◌ d s) ws = extend-keep_space c d (trim_end s) ws

words-keep_space : (c : Char) (s : String) → words (keep_space c s) ≡ words (String.◌∷◌ c s)
unfolding keep_space
words-keep_space c String.[] = elim (Bool-cases (is_space (code c))) [
  | inl e ↦ ap words (keep_space-space c e) ∙ sym (words-space c String.[] e)
  | inr e ↦ ap words (keep_space-letter c e)
]
words-keep_space c (String.◌∷◌ d s) = refl

words-trim_end : (s : String) → words (trim_end s) ≡ words s
unfolding trim_end
words-trim_end String.[] = refl
words-trim_end (String.◌∷◌ c s) =
    words-keep_space c (trim_end s) ∙ elim (Bool-cases (is_space (code c))) [
      | inl e ↦ words-space c (trim_end s) e ∙ words-trim_end s ∙ sym (words-space c s e)
      | inr e ↦
          words-letter c (trim_end s) e
          ∙ ap (extend c (trim_end s)) (words-trim_end s)
          ∙ extend-trim_end c s (words s)
          ∙ sym (words-letter c s e)
    ]

pub words-trim : (s : String) → words (trim s) ≡ words s
unfolding trim
words-trim s = words-trim_end (trim_start s) ∙ words-trim_start s

-- The words of a word, and of a word before a space.
words-word : (s : String) → IsWord s → words s ≡ s ∷ []
unfolding words
words-word String.[] h = absurd h
words-word (String.◌∷◌ c String.[]) h = words-letter c String.[] h.0
words-word (String.◌∷◌ c (String.◌∷◌ d s)) h =
    words-letter c (String.◌∷◌ d s) h.0
    ∙ extend-letter c d s _ h.1.0
    ∙ ap (prepend c) (words-word (String.◌∷◌ d s) h.1)

space-append : (t : String) → String.◌++◌ " " t ≡ String.◌∷◌ " " t
space-append t = cons-append " " String.[] t ∙ ap (String.◌∷◌ " ") (nil-append t)

words-before_space :
    (s t : String) → IsWord s → words (String.◌++◌ s (String.◌++◌ " " t)) ≡ s ∷ words t
unfolding is_space
words-before_space String.[] t h = absurd h
words-before_space (String.◌∷◌ c String.[]) t h =
    ap words (cons-append c String.[] (String.◌++◌ " " t))
    ∙ ap (λ s. words (String.◌∷◌ c s)) (nil-append (String.◌++◌ " " t) ∙ space-append t)
    ∙ words-letter c (String.◌∷◌ " " t) h.0
    ∙ extend-space c " " t _ refl
    ∙ ap (λ ws. String.◌∷◌ c String.[] ∷ ws) (words-space " " t refl)
words-before_space (String.◌∷◌ c (String.◌∷◌ d s)) t h =
    let rest = String.◌++◌ " " t in
    let more = cons-append d s rest in
    ap words (cons-append c (String.◌∷◌ d s) rest)
    ∙ words-letter c (String.◌++◌ (String.◌∷◌ d s) rest) h.0
    ∙ ap (λ r. extend c r (words (String.◌++◌ (String.◌∷◌ d s) rest))) more
    ∙ extend-letter c d (String.◌++◌ s rest) _ h.1.0
    ∙ ap (prepend c) (words-before_space (String.◌∷◌ d s) t h.1)

pub words-join_words : (ws : List String) → All IsWord ws → words (join_words ws) ≡ ws
unfolding join_words words
words-join_words [] h = refl
words-join_words (w ∷ []) h = words-word w h.0
words-join_words (w ∷ v ∷ ws) h =
    words-before_space w (join_words (v ∷ ws)) h.0 ∙ ap (λ r. w ∷ r) (words-join_words (v ∷ ws) h.1)
