-- ===== src/Js.antt =====
-- Values of a request body, and the parts of the language's library that the source uses on them:
-- truthiness, `typeof`, `String.prototype.trim`. A number is a non-negative integer.
pub mod Sets
use Prim.Native.Char.{Char, code}
use Prim.Native.String
use agent_forum.Prelude.{
  ℕ, ◌≡◌, refl, String, Bool, true, false, not, ◌&&◌, ◌||◌, Option, none, some, List, [], ◌∷◌, leb,
  nat_eq, ◌==◌, if◌then◌else◌, any, contains,
}

mutual
  pub data Fields : Type 0 where
    field : String → Value → Fields → Fields
    end : Fields

  pub data Items : Type 0 where
    cons : Value → Items → Items
    nil : Items

  pub data Value : Type 0 where
    obj : Fields → Value
    arr : Items → Value
    str : String → Value
    num : ℕ → Value
    bool : Bool → Value
    undefined null : Value

abbrev pub items : Items → List Value
items nil = []
items (cons v vs) = v ∷ items vs

-- `!!v`
abbrev pub truthy : Value → Bool
truthy undefined = false
truthy null = false
truthy (bool b) = b
truthy (num n) = not (nat_eq n 0)
truthy (str s) = not (s == "")
truthy (arr vs) = true
truthy (obj fs) = true

-- A template literal: its parts, joined.
abbrev pub template : List String → String
template [] = ""
template (s ∷ ss) = String.◌++◌ s (template ss)

-- An optional text is used if it is not empty.
abbrev pub text_given : Option String → Bool
text_given none = false
text_given (some s) = not (s == "")

abbrev pub text_or_null : Option String → Value
text_or_null none = null
text_or_null (some s) = str s

-- The entries of `new Set(…)`, in order of insertion.
unfoldable pub distinct_from : List String → List String → List String
distinct_from seen [] = []
distinct_from seen (s ∷ ss) =
    let fresh = s ∷ distinct_from (s ∷ seen) ss in
    let known = distinct_from seen ss in if contains seen s then known else fresh

-- `v !== undefined`
abbrev pub is_given : Value → Bool
is_given undefined = false
is_given v = true

-- The white space and line terminators that `trim` takes off.
unfoldable pub is_space : ℕ → Bool
is_space c =
    (leb 9 c && leb c 13)
    || nat_eq c 32
    || nat_eq c 160
    || nat_eq c 0x1680
    || (leb 0x2000 c && leb c 0x200a)
    || any (nat_eq c) (0x2028 ∷ 0x2029 ∷ 0x202f ∷ 0x205f ∷ 0x3000 ∷ 0xfeff ∷ [])

unfoldable pub trim_start : String → String
unfolding is_space
trim_start String.[] = String.[]
trim_start (String.◌∷◌ c s) = if is_space (code c) then trim_start s else String.◌∷◌ c s

-- A space is kept where something that is no space follows it.
unfoldable pub keep_space : Char → String → String
unfolding is_space
keep_space c String.[] = if is_space (code c) then String.[] else String.◌∷◌ c String.[]
keep_space c (String.◌∷◌ d s) = String.◌∷◌ c (String.◌∷◌ d s)

unfoldable pub trim_end : String → String
unfolding keep_space
trim_end String.[] = String.[]
trim_end (String.◌∷◌ c s) = keep_space c (trim_end s)

unfoldable pub trim : String → String
unfolding trim_start trim_end
trim s = trim_end (trim_start s)

-- `typeof v === 'string' && v.trim() ? v.trim() : undefined`
unfoldable pub trimmed_text : Value → Option String
trimmed_text (str s) = let t = trim s in if t == "" then none else some t
trimmed_text v = none

trim_test : trim "  a b \n" ≡ "a b"
unfolding trim
trim_test = refl
