-- ===== src/Mentions.antt =====
-- The mentions of a message (svc-forum/src/lib/data-access/shared.ts): the explicit ones, those in
-- the text, and the principals behind the agent ids. The regular expression is a walk over the
-- text.
use Prim.Native.Char.{code}
use agent_forum.Prelude.{
  ℕ, zero, suc, ◌≡◌, refl, String, Bool, true, false, not, ◌&&◌, ◌||◌, Option, none, some, List, [],
  ◌∷◌, ◌==◌, is_text, is_some, ltb, nat_eq, contains, filter, length, if◌then◌else◌,
}
use agent_forum.Js.{Value, undefined, null, str, arr, items, text_given, distinct_from, template}
use agent_forum.Http.{Result, ok, err, http_error, ◌>>=◌}
use agent_forum.Ids.{codes, is_alnum, is_id_char, is_valid_agent_id}
use agent_forum.Store.{Prisma, Db, Principal}
use agent_forum.Messages.{MentionPrincipal}

-- The order of `sort()` on texts.
unfoldable pub codes_leb : List ℕ → List ℕ → Bool
codes_leb [] ds = true
codes_leb (c ∷ cs) [] = false
codes_leb (c ∷ cs) (d ∷ ds) = ltb c d || (nat_eq c d && codes_leb cs ds)

unfoldable pub insert_sorted : String → List String → List String
unfolding codes_leb
insert_sorted s [] = s ∷ []
insert_sorted s (t ∷ ts) =
    if codes_leb (codes s) (codes t) then s ∷ t ∷ ts else t ∷ insert_sorted s ts

unfoldable pub sort : List String → List String
unfolding insert_sorted
sort [] = []
sort (s ∷ ss) = insert_sorted s (sort ss)

-- The text of an entry, where it is an agent id.
unfoldable pub agent_id_of : Value → Option String
agent_id_of (str s) = if is_valid_agent_id s then some s else none
agent_id_of v = none

-- `String(m)` in an error's message, where the entry is a text.
abbrev shown : Value → String
shown (str s) = s
shown v = ""

-- Each entry has to be an agent id; the error's message names the entry that is none.
unfoldable pub collect_mentions : List Value → Result (List String)
unfolding agent_id_of
collect_mentions [] = ok []
collect_mentions (m ∷ ms) = elim (agent_id_of m) [
  | none ↦ err (http_error 400 (template ("invalid mention: " ∷ shown m ∷ [])))
  | some id ↦ collect_mentions ms >>= λ ids. ok (id ∷ ids)
]

unfoldable pub normalize_mentions : Value → Result (List String)
unfolding collect_mentions distinct_from sort
normalize_mentions undefined = ok []
normalize_mentions null = ok []
normalize_mentions (arr vs) =
    collect_mentions (items vs) >>= λ ids. ok (sort (distinct_from [] ids))
normalize_mentions v = err (http_error 400 "mentions must be an array of agent ids")

-- [a-z0-9._-]{0,n}, as much as there is
take_id : ℕ → String → String
unfolding is_id_char
take_id zero s = ""
take_id (suc n) String.[] = ""
take_id (suc n) (String.◌∷◌ c s) = if is_id_char (code c) then String.◌∷◌ c (take_id n s) else ""

-- The name that `@([a-z0-9][a-z0-9._-]{1,127})` matches after an `@`, or nothing.
name_in : String → String
unfolding is_alnum take_id
name_in String.[] = ""
name_in (String.◌∷◌ c s) =
    let more = take_id 127 s in
    if is_alnum (code c) && not (more == "") then String.◌∷◌ c more else ""

-- What must not stand before the `@`: [a-z0-9@._-]
joins_word : Option ℕ → Bool
unfolding is_id_char
joins_word none = false
joins_word (some c) = is_id_char c || nat_eq c b'@'

-- The names in the text from a place, behind a match of which `skip` code points are left.
names_from : Option ℕ → ℕ → String → List String
unfolding name_in joins_word
names_from before skip String.[] = []
names_from before (suc skip) (String.◌∷◌ c s) = names_from (some (code c)) skip s
names_from before zero (String.◌∷◌ c s) =
    let name = if nat_eq (code c) b'@' then name_in s else "" in
    let rest = names_from (some (code c)) (length (codes name)) s in
    if name == "" || joins_word before then rest else name ∷ rest

unfoldable pub extract_mentions_from_content : String → List String
unfolding names_from distinct_from sort is_valid_agent_id
extract_mentions_from_content content =
    sort (distinct_from [] (filter is_valid_agent_id (names_from none 0 content)))

-- The last row for an agent id, as in a Map that is filled in order.
abbrev pub last_for : List Principal → String → Option Principal
last_for [] id = none
last_for (p ∷ ps) id =
    let later = last_for ps id in
    if is_some later
    then later
    else if is_text p.agent_id id && text_given p.agent_id
    then some p
    else none

-- Whether a principal is among those that are asked for.
abbrev pub is_asked : List String → Principal → Bool
is_asked ids p = elim p.agent_id [ none ↦ false | some id ↦ contains ids id ]

unfoldable pub find_principals_by_agent_ids : Prisma → List String → Db → String → Option Principal
find_principals_by_agent_ids prisma [] db = λ id. none
find_principals_by_agent_ids prisma (a ∷ ids) db =
    last_for (prisma.find_many (is_asked (a ∷ ids)) db.principals)

-- The known among the candidates, in their order.
unfoldable pub mention_principals :
    (String → Option Principal) → List String → List MentionPrincipal
mention_principals known [] = []
mention_principals known (id ∷ ids) =
    let rest = mention_principals known ids in
    elim (known id) [
      | none ↦ rest
      | some p ↦ record { agent_id = id; principal_id = p.id; display_name = p.display_name } ∷ rest
    ]

extract_test :
    extract_mentions_from_content "ask @codex, mail a@b.co; @codex @al-2 @x" ≡ "al-2" ∷ "codex" ∷ []
unfolding extract_mentions_from_content agent_forum.Js.trim
extract_test = refl
