-- ===== src/Client/Paths.antt =====
-- The ids in the client's URLs.
use Prim.Native.Char.{code}
use agent_forum.Prelude.{
  ℕ, zero, suc, ◌≡◌, refl, ap, arith, String, Bool, true, ◌&&◌, ◌||◌, some, List, [], ◌∷◌, all,
  length, nat_eq, if◌then◌else◌, Bool-cases, Option-cases, inl, inr,
}
use agent_forum.Ids.{codes, is_hex, hex_group, group_then, is_alnum, is_uuid}

-- [a-zA-Z0-9-_.]
abbrev pub is_safe : ℕ → Bool
is_safe c = is_alnum c || nat_eq c b'-' || nat_eq c b'_' || nat_eq c b'.'

unfoldable pub safe_path_segment : String → String
unfolding is_alnum
safe_path_segment String.[] = String.[]
safe_path_segment (String.◌∷◌ c s) =
    let rest = safe_path_segment s in if is_safe (code c) then String.◌∷◌ c rest else rest

hex-safe : (c : ℕ) → is_hex c ≡ true → is_safe c ≡ true
unfolding is_hex is_alnum
hex-safe c h = ground (arith, h)

all-hex : (cs : List ℕ) → all is_hex cs ≡ true → all is_safe cs ≡ true
all-hex [] h = refl
all-hex (c ∷ cs) h = let rest = all-hex cs in let here = hex-safe c in ground (arith, h, rest, here)

-- What a group of digits leaves decides the rest.
hex_group-safe :
    (n : ℕ) (cs rest : List ℕ)
    → hex_group n cs ≡ some rest
    → all is_safe rest ≡ true
    → all is_safe cs ≡ true
unfolding hex_group
hex_group-safe zero [] rest h k = cc
hex_group-safe zero (c ∷ cs) rest h k = elim (Bool-cases (nat_eq c b'-')) [
  | inr e ↦ cc (rw e at h)
  | inl e ↦
      let same : cs ≡ rest = ground (arith, rw e at h) in
      let more : all is_safe cs ≡ true = rw same k in ground (arith, more, e)
]
hex_group-safe (suc n) [] rest h k = cc
hex_group-safe (suc n) (c ∷ cs) rest h k = elim (Bool-cases (is_hex c)) [
  | inr e ↦ cc (rw e at h)
  | inl e ↦
      let more = hex_group-safe n cs rest (rw e at h) k in
      let here = hex-safe c e in ground (arith, more, here)
]

group_then-safe :
    (n : ℕ) (k : List ℕ → Bool) (cs : List ℕ)
    → ((rest : List ℕ) → k rest ≡ true → all is_safe rest ≡ true)
    → group_then n k cs ≡ true
    → all is_safe cs ≡ true
group_then-safe n k cs h e = elim (Option-cases (hex_group n cs)) [
  | inl none_left ↦ cc (rw (group_then, none_left) at e)
  | inr (rest, left) ↦ hex_group-safe n cs rest left (h rest (rw (group_then, left) at e))
]

safe_path_segment-all : (s : String) → all is_safe (codes s) ≡ true → safe_path_segment s ≡ s
unfolding safe_path_segment is_alnum
safe_path_segment-all String.[] h = refl
safe_path_segment-all (String.◌∷◌ c s) h =
    let here : is_safe (code c) ≡ true = ground (arith, h) in
    let rest = safe_path_segment-all s (ground (arith, h)) in rw here (ap (String.◌∷◌ c) rest)

abbrev last_group : List ℕ → Bool
last_group cs = nat_eq (length cs) 12 && all is_hex cs

-- A complete UUID passes through the cleaning of a path segment unchanged.
pub safe_path_segment-is_uuid : (s : String) → is_uuid s ≡ true → safe_path_segment s ≡ s
unfolding is_uuid
safe_path_segment-is_uuid s h =
    let last : (cs : List ℕ) → last_group cs ≡ true → all is_safe cs ≡ true =
      λ cs e. all-hex cs (ground (arith, e)) in
    let two = λ (cs : List ℕ). group_then-safe 4 last_group cs last in
    let three = λ (cs : List ℕ). group_then-safe 4 (group_then 4 last_group) cs two in
    let four =
      λ (cs : List ℕ). group_then-safe 4 (group_then 4 (group_then 4 last_group)) cs three in
    safe_path_segment-all s
      (group_then-safe 8 (group_then 4 (group_then 4 (group_then 4 last_group))) (codes s) four h)
