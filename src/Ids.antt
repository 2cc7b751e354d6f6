-- ===== src/Ids.antt =====
-- svc-forum/src/utils/uuid.ts, and the agent ids of svc-forum/src/lib/forum-principal.ts. A regular
-- expression is a walk over the code points of the text.
use Prim.Native.Char.{code}
use agent_forum.Prelude.{
  ℕ, zero, suc, ◌≡◌, refl, String, Bool, true, false, not, ◌&&◌, ◌||◌, Option, none, some, List, [],
  ◌∷◌, leb, nat_eq, ◌==◌, all, length, if◌then◌else◌,
}
use agent_forum.Js.{trim}

abbrev pub codes : String → List ℕ
codes String.[] = []
codes (String.◌∷◌ c s) = code c ∷ codes s

-- [0-9a-f], in either case
unfoldable pub is_hex : ℕ → Bool
is_hex c = (leb b'0' c && leb c b'9') || (leb b'a' c && leb c b'f') || (leb b'A' c && leb c b'F')

-- `n` hexadecimal digits, then a dash.
unfoldable pub hex_group : ℕ → List ℕ → Option (List ℕ)
hex_group zero [] = none
hex_group zero (c ∷ cs) = if nat_eq c b'-' then some cs else none
hex_group (suc n) [] = none
hex_group (suc n) (c ∷ cs) = if is_hex c then hex_group n cs else none

abbrev pub group_then : ℕ → (List ℕ → Bool) → List ℕ → Bool
group_then n k cs = elim (hex_group n cs) [ none ↦ false | some rest ↦ k rest ]

unfoldable pub is_uuid : String → Bool
unfolding hex_group is_hex
is_uuid s =
    group_then 8
      (group_then 4 (group_then 4 (group_then 4 (λ cs. nat_eq (length cs) 12 && all is_hex cs))))
      (codes s)

-- [a-z0-9], in either case
unfoldable pub is_alnum : ℕ → Bool
is_alnum c = (leb b'0' c && leb c b'9') || (leb b'a' c && leb c b'z') || (leb b'A' c && leb c b'Z')

-- [a-z0-9._-], in either case
unfoldable pub is_id_char : ℕ → Bool
unfolding is_alnum
is_id_char c = is_alnum c || nat_eq c b'.' || nat_eq c b'_' || nat_eq c b'-'

matches_agent_id : List ℕ → Bool
unfolding is_alnum is_id_char
matches_agent_id [] = false
matches_agent_id (c ∷ cs) =
    is_alnum c && leb 1 (length cs) && leb (length cs) 127 && all is_id_char cs

unfoldable pub is_valid_agent_id : String → Bool
unfolding matches_agent_id
is_valid_agent_id value = not (trim value == "") && matches_agent_id (codes (trim value))

uuid_test : is_uuid "0b9f7c1e-1111-4AAA-8bbb-0123456789ab" ≡ true
unfolding is_uuid
uuid_test = refl

agent_id_test : is_valid_agent_id "codex-reviewer.1" ≡ true
unfolding is_valid_agent_id trim
agent_id_test = refl
