-- ===== src/Pagination.antt =====
-- svc-forum/src/utils/pagination.ts: the page and the limit of a list's query. A number is exact,
-- where the source rounds one above 2^53.
use agent_forum.Prelude.{
  ℕ, ◌+◌, ◌*◌, ◌-◌, ◌≤◌, ◌≡◌, refl, arith, String, Bool, ◌&&◌, Option, none, some, List, [], ◌∷◌,
  leb, nat_eq, if◌then◌else◌, Option-cases, inl, inr,
}
use agent_forum.Js.{trim_start, template}
use agent_forum.Http.{http_error, Result, ok, err, Result-cases, ◌>>=◌}
use agent_forum.Ids.{codes}

-- NaN, or an integer: a natural number, or one with a minus.
pub data Parsed : Type 0 where
  nan : Parsed
  natural : ℕ → Parsed
  minus : ℕ → Parsed

abbrev pub is_digit : ℕ → Bool
is_digit c = leb b'0' c && leb c b'9'

-- The digits that come next; what follows them is ignored.
unfoldable pub digits : ℕ → List ℕ → ℕ
digits n [] = n
digits n (c ∷ cs) = let rest = digits (n * 10 + (c - b'0')) cs in if is_digit c then rest else n

unfoldable pub unsigned : List ℕ → Option ℕ
unfolding digits
unsigned [] = none
unsigned (c ∷ cs) = if is_digit c then some (digits 0 (c ∷ cs)) else none

abbrev pub natural_of : Option ℕ → Parsed
natural_of none = nan
natural_of (some n) = natural n

abbrev pub minus_of : Option ℕ → Parsed
minus_of none = nan
minus_of (some n) = minus n

unfoldable pub signed : List ℕ → Parsed
unfolding unsigned
signed [] = nan
signed (c ∷ cs) =
    if nat_eq c b'-'
    then minus_of (unsigned cs)
    else if nat_eq c b'+'
    then natural_of (unsigned cs)
    else natural_of (unsigned (c ∷ cs))

-- `Number.parseInt(s, 10)`
unfoldable pub parse_int : String → Parsed
unfolding signed trim_start
parse_int s = signed (codes (trim_start s))

pub record Paging : Type 0 where
  pub page : ℕ
  pub limit : ℕ

-- An integer between 1 and the bound, if there is one.
abbrev pub in_range : Option ℕ → Parsed → Option ℕ
in_range bound nan = none
in_range bound (minus n) = none
in_range none (natural n) = if leb 1 n then some n else none
in_range (some m) (natural n) = if leb 1 n && leb n m then some n else none

abbrev pub given_or : Option ℕ → ℕ → String → Option String → Result ℕ
given_or bound d message none = ok d
given_or bound d message (some s) = elim (in_range bound (parse_int s)) [
  | none ↦ err (http_error 400 message)
  | some n ↦ ok n
]

-- `shown` is a number's text in the template.
unfoldable pub parse_pagination :
    (ℕ → String) → Option String → Option String → Paging → ℕ → Result Paging
parse_pagination shown page limit defaults max_limit =
    given_or none defaults.page "page must be a positive integer" page >>= λ p.
    given_or (some max_limit) defaults.limit
      (template ("limit must be an integer between 1 and " ∷ shown max_limit ∷ [])) limit
    >>= λ l. ok (record { page = p; limit = l })

parse_test : parse_int " +42x" ≡ natural 42
unfolding parse_int
parse_test = refl

in_range-bounds :
    (bound : Option ℕ) (x : Parsed) (n : ℕ)
    → in_range bound x ≡ some n
    → (1 ≤ n) × ((m : ℕ) → bound ≡ some m → n ≤ m)
in_range-bounds bound nan n h = cc
in_range-bounds bound (minus k) n h = cc
in_range-bounds none (natural k) n h = (ground (arith, h), λ m e. cc)
in_range-bounds (some b) (natural k) n h =
    let up : n ≤ b = ground (arith, h) in (ground (arith, h), λ m e. ground (arith, e, up))

given_or-bounds :
    (bound : Option ℕ) (d : ℕ) (message : String) (s : Option String) (n : ℕ)
    → 1 ≤ d
    → ((m : ℕ) → bound ≡ some m → d ≤ m)
    → given_or bound d message s ≡ ok n
    → (1 ≤ n) × ((m : ℕ) → bound ≡ some m → n ≤ m)
given_or-bounds bound d message none n low up h =
    let same : d ≡ n = ground (arith, h) in rw (← same) (low, up)
given_or-bounds bound d message (some s) n low up h =
    elim (Option-cases (in_range bound (parse_int s))) [
      | inl e ↦ cc (rw (given_or, e) at h)
      | inr (k, e) ↦
          let same : k ≡ n = ground (arith, rw (given_or, e) at h) in
          rw (← same) (in_range-bounds bound (parse_int s) k e)
    ]

-- A page and a limit that are let through are at least 1, and the limit is at most the bound, if the
-- defaults are.
pub parse_pagination-bounds :
    (shown : ℕ → String) (page limit : Option String) (defaults : Paging) (max_limit : ℕ)
    (r : Paging)
    → 1 ≤ defaults.page
    → 1 ≤ defaults.limit
    → defaults.limit ≤ max_limit
    → parse_pagination shown page limit defaults max_limit ≡ ok r
    → (1 ≤ r.page) × (1 ≤ r.limit) × (r.limit ≤ max_limit)
unfolding parse_pagination
parse_pagination-bounds shown page limit defaults max_limit r one two three h =
    elim (Result-cases (given_or none defaults.page "page must be a positive integer" page)) [
      | inr (x, e) ↦ cc (rw (e, ◌>>=◌) at h)
      | inl (p, e) ↦
          let message =
            template ("limit must be an integer between 1 and " ∷ shown max_limit ∷ []) in
          elim (Result-cases (given_or (some max_limit) defaults.limit message limit)) [
            | inr (x, f) ↦ cc (rw (e, ◌>>=◌, f, ◌>>=◌) at h)
            | inl (l, f) ↦
                let is_r : record { page = p; limit = l } ≡ r =
                  ground (arith, rw (e, ◌>>=◌, f, ◌>>=◌) at h) in
                let above = given_or-bounds none defaults.page _ page p one (λ m k. cc) e in
                let between =
                  given_or-bounds (some max_limit) defaults.limit message limit l two
                    (λ m k. ground (arith, k, three)) f in
                rw (← is_r) (above.0, between.0, between.1 max_limit refl)
          ]
    ]
