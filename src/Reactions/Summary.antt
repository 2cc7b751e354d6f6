-- ===== src/Reactions/Summary.antt =====
-- The summary of a message's reactions.
use agent_forum.Prelude.{
  ◌+◌, ◌≡◌, refl, sym, ◌∙◌, ap, arith, String, Bool, false, ◌||◌, Option, none, some, List, [], ◌∷◌,
  ◌++◌, ◌==◌, eq_iff, eq_comm, find, filter, any, length, map, All, if◌then◌else◌, Bool-cases, inl,
  inr,
}
use mathlib.Core.List.{append-nil, append_assoc}
use agent_forum.Store.{Reaction}
use agent_forum.Reactions.{
  ReactionSummary, principal_of, first_of, one_more, count_reaction, count_from,
}

abbrev pub is_for : String → ReactionSummary → Bool
is_for emoji s = s.emoji == emoji

abbrev pub shows : String → Reaction → Bool
shows emoji r = r.emoji == emoji

-- What an entry becomes with one more reaction, and with several.
abbrev pub counted : Reaction → Option ReactionSummary → Option ReactionSummary
counted r none = some (first_of r)
counted r (some s) = some (one_more r s)

-- The entry for an emoji: how many reactions show it, and whose they are.
abbrev pub tally : String → List Reaction → Option ReactionSummary
tally emoji [] = none
tally emoji (r ∷ rs) =
    some (record { emoji = emoji; count = length (r ∷ rs); principals = map principal_of (r ∷ rs) })

find-count_reaction :
    (emoji : String) (r : Reaction) (es : List ReactionSummary)
    → find (is_for emoji) (count_reaction r es)
      ≡ (if shows emoji r then counted r (find (is_for emoji) es) else find (is_for emoji) es)
unfolding count_reaction
find-count_reaction emoji r [] = ground arith
find-count_reaction emoji r (e ∷ es) =
    let rest = find-count_reaction emoji r es in
    ground (arith, rest, eq_iff e.emoji r.emoji, eq_iff e.emoji emoji, eq_iff r.emoji emoji, e)

-- An entry with the reactions of a list added to it.
abbrev with_more : List Reaction → ReactionSummary → ReactionSummary
with_more rs s = record s {
  count = s.count + length rs;
  principals = s.principals ++ map principal_of rs;
}

abbrev pub counted_all : Option ReactionSummary → List Reaction → Option ReactionSummary
counted_all o [] = o
counted_all o (r ∷ rs) = counted_all (counted r o) rs

pub find-count_from :
    (emoji : String) (es : List ReactionSummary) (rows : List Reaction)
    → find (is_for emoji) (count_from es rows)
      ≡ counted_all (find (is_for emoji) es) (filter (shows emoji) rows)
unfolding count_from
find-count_from emoji es [] = refl
find-count_from emoji es (r ∷ rows) =
    let rest = find-count_from emoji (count_reaction r es) rows in
    let one = find-count_reaction emoji r es in
    elim (Bool-cases (shows emoji r)) [
      | inl e ↦ rest ∙ (rw (one, e) refl)
      | inr e ↦ rest ∙ (rw (one, e) refl)
    ]

counted_all-some :
    (s : ReactionSummary) (rs : List Reaction) → counted_all (some s) rs ≡ some (with_more rs s)
counted_all-some s [] =
    let none_more : s.count ≡ s.count + 0 = omega arith in
    λ i. some (record s { count = none_more i; principals = sym (append-nil s.principals) i })
counted_all-some s (r ∷ rs) =
    counted_all-some (one_more r s) rs
    ∙ (λ i. some (record s { count = both i; principals = names i }))
  where
    both : s.count + 1 + length rs ≡ s.count + length (r ∷ rs)
    both = omega arith

    names :
        (s.principals ++ principal_of r ∷ []) ++ map principal_of rs
        ≡ s.principals ++ map principal_of (r ∷ rs)
    names = append_assoc s.principals (principal_of r ∷ []) (map principal_of rs)

pub filter-shows :
    (emoji : String) (rows : List Reaction) → All (λ r. r.emoji ≡ emoji) (filter (shows emoji) rows)
filter-shows emoji [] = tt
filter-shows emoji (r ∷ rows) = elim (Bool-cases (shows emoji r)) [
  | inl e ↦ rw e ((eq_iff r.emoji emoji).0 e, filter-shows emoji rows)
  | inr e ↦ rw e (filter-shows emoji rows)
]

pub counted_all-none :
    (emoji : String) (rs : List Reaction)
    → All (λ r. r.emoji ≡ emoji) rs
    → counted_all none rs ≡ tally emoji rs
counted_all-none emoji [] h = refl
counted_all-none emoji (r ∷ rs) h =
    counted_all-some (first_of r) rs
    ∙ (rw h.0 (
        ap (λ n. some (record { emoji = emoji; count = n; principals = map principal_of (r ∷ rs) }))
          (omega arith)))

has-count_reaction :
    (emoji : String) (r : Reaction) (es : List ReactionSummary)
    → any (is_for emoji) (count_reaction r es) ≡ (r.emoji == emoji || any (is_for emoji) es)
unfolding count_reaction
has-count_reaction emoji r [] = refl
has-count_reaction emoji r (e ∷ es) =
    let rest = has-count_reaction emoji r es in
    ground (arith, rest, eq_iff e.emoji r.emoji, eq_iff e.emoji emoji, eq_iff r.emoji emoji)

-- No two entries have the same emoji.
abbrev pub AreDistinct : List ReactionSummary → Type 0
AreDistinct [] = Unit
AreDistinct (s ∷ ss) = (any (is_for s.emoji) ss ≡ false) × AreDistinct ss

count_reaction-AreDistinct :
    (r : Reaction) (es : List ReactionSummary) → AreDistinct es → AreDistinct (count_reaction r es)
unfolding count_reaction
count_reaction-AreDistinct r [] h = (refl, tt)
count_reaction-AreDistinct r (e ∷ es) h =
    let rest = count_reaction-AreDistinct r es h.1 in
    let here = has-count_reaction e.emoji r es in
    elim (Bool-cases (e.emoji == r.emoji)) [
      | inl k ↦ rw k h
      | inr k ↦ rw k (ground (arith, here, h.0, eq_comm r.emoji e.emoji), rest)
    ]

pub count_from-AreDistinct :
    (es : List ReactionSummary) (rows : List Reaction)
    → AreDistinct es
    → AreDistinct (count_from es rows)
unfolding count_from
count_from-AreDistinct es [] h = h
count_from-AreDistinct es (r ∷ rows) h =
    count_from-AreDistinct (count_reaction r es) rows (count_reaction-AreDistinct r es h)
