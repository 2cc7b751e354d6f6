-- ===== src/Reactions/Sorted.antt =====
-- The order of a message's reactions in their summary.
use agent_forum.Prelude.{
  ◌≤◌, ◌≡◌, refl, ◌∙◌, ap, arith, String, Bool, true, false, ◌||◌, some, List, [], ◌∷◌, eq_iff,
  eq_comm, find, filter, any, All, All-map, if◌then◌else◌, Bool-cases, inl, inr,
}
use agent_forum.Store.{Reaction}
use agent_forum.Reactions.{
  ReactionSummary, Order, comes_after, insert_summary, sort_summaries, count_from,
  summarize_reactions,
}
use agent_forum.Reactions.Summary.{
  is_for, shows, tally, AreDistinct, find-count_from, filter-shows, counted_all-none,
  count_from-AreDistinct,
}

-- Entries with more reactions come first.
abbrev pub IsMostUsedFirst : List ReactionSummary → Type 0
IsMostUsedFirst [] = Unit
IsMostUsedFirst (s ∷ ss) = All (λ t. t.count ≤ s.count) ss × IsMostUsedFirst ss

module _ (locale_compare : String → String → Order) where
  after-count : (a b : ReactionSummary) → comes_after locale_compare a b ≡ true → a.count ≤ b.count
  unfolding comes_after
  after-count a b h = ground (arith, h)

  before-count :
      (a b : ReactionSummary) → comes_after locale_compare a b ≡ false → b.count ≤ a.count
  unfolding comes_after
  before-count a b h = ground (arith, h)

  insert-All :
      (P : ReactionSummary → Type 0) (a : ReactionSummary) (ss : List ReactionSummary)
      → P a
      → All P ss
      → All P (insert_summary locale_compare a ss)
  unfolding insert_summary
  insert-All P a [] h hs = (h, tt)
  insert-All P a (b ∷ bs) h hs = elim (Bool-cases (comes_after locale_compare a b)) [
    | inl e ↦ rw e (hs.0, insert-All P a bs h hs.1)
    | inr e ↦ rw e (h, hs)
  ]

  insert-IsMostUsedFirst :
      (a : ReactionSummary) (ss : List ReactionSummary)
      → IsMostUsedFirst ss
      → IsMostUsedFirst (insert_summary locale_compare a ss)
  unfolding insert_summary
  insert-IsMostUsedFirst a [] h = (tt, tt)
  insert-IsMostUsedFirst a (b ∷ bs) h = elim (Bool-cases (comes_after locale_compare a b)) [
    | inl e ↦ rw e (
      insert-All (λ t. t.count ≤ b.count) a bs (after-count a b e) h.0,
      insert-IsMostUsedFirst a bs h.1,
    )
    | inr e ↦
        let le = before-count a b e in rw e ((le, All-map bs (λ t k. omega (arith, k, le)) h.0), h)
  ]

  sort-IsMostUsedFirst :
      (ss : List ReactionSummary) → IsMostUsedFirst (sort_summaries locale_compare ss)
  unfolding sort_summaries
  sort-IsMostUsedFirst [] = tt
  sort-IsMostUsedFirst (s ∷ ss) =
      insert-IsMostUsedFirst s (sort_summaries locale_compare ss) (sort-IsMostUsedFirst ss)

  any-insert :
      (p : ReactionSummary → Bool) (a : ReactionSummary) (ss : List ReactionSummary)
      → any p (insert_summary locale_compare a ss) ≡ (p a || any p ss)
  unfolding insert_summary
  any-insert p a [] = refl
  any-insert p a (b ∷ bs) = let rest = any-insert p a bs in ground (arith, rest)

  any-sort :
      (p : ReactionSummary → Bool) (ss : List ReactionSummary)
      → any p (sort_summaries locale_compare ss) ≡ any p ss
  unfolding sort_summaries
  any-sort p [] = refl
  any-sort p (s ∷ ss) =
      any-insert p s (sort_summaries locale_compare ss) ∙ ap (λ b. p s || b) (any-sort p ss)

  insert-AreDistinct :
      (a : ReactionSummary) (ss : List ReactionSummary)
      → any (is_for a.emoji) ss ≡ false
      → AreDistinct ss
      → AreDistinct (insert_summary locale_compare a ss)
  unfolding insert_summary
  insert-AreDistinct a [] h hs = (refl, tt)
  insert-AreDistinct a (b ∷ bs) h hs =
      let here = any-insert (is_for b.emoji) a bs in
      elim (Bool-cases (comes_after locale_compare a b)) [
        | inl e ↦ rw e (
          ground (arith, here, hs.0, h, eq_comm a.emoji b.emoji),
          insert-AreDistinct a bs (ground (arith, h)) hs.1,
        )
        | inr e ↦ rw e (h, hs)
      ]

  sort-AreDistinct :
      (ss : List ReactionSummary) → AreDistinct ss → AreDistinct (sort_summaries locale_compare ss)
  unfolding sort_summaries
  sort-AreDistinct [] h = tt
  sort-AreDistinct (s ∷ ss) h =
      insert-AreDistinct s (sort_summaries locale_compare ss) (any-sort (is_for s.emoji) ss ∙ h.0)
        (sort-AreDistinct ss h.1)

  find-insert :
      (emoji : String) (a : ReactionSummary) (ss : List ReactionSummary)
      → any (is_for a.emoji) ss ≡ false
      → find (is_for emoji) (insert_summary locale_compare a ss) ≡ find (is_for emoji) (a ∷ ss)
  unfolding insert_summary
  find-insert emoji a [] h = refl
  find-insert emoji a (b ∷ bs) h =
      let rest = find-insert emoji a bs (ground (arith, h)) in
      ground (arith, rest, h, eq_iff a.emoji emoji, eq_iff b.emoji emoji, eq_iff b.emoji a.emoji)

  find-sort :
      (emoji : String) (ss : List ReactionSummary)
      → AreDistinct ss
      → find (is_for emoji) (sort_summaries locale_compare ss) ≡ find (is_for emoji) ss
  unfolding sort_summaries
  find-sort emoji [] h = refl
  find-sort emoji (s ∷ ss) h =
      find-insert emoji s (sort_summaries locale_compare ss) (any-sort (is_for s.emoji) ss ∙ h.0)
      ∙ ap (λ o. if is_for emoji s then some s else o) (find-sort emoji ss h.1)

  -- However `localeCompare` orders the emojis, the summary of reactions has at most one entry for an
  -- emoji; the entry counts the reactions with that emoji and lists who gave them, in the order of
  -- the reactions, there is none if nobody gave that emoji, and entries with more reactions come
  -- first.
  pub summarize_exact :
      (rows : List Reaction)
      → let summary = summarize_reactions locale_compare rows in
        ((emoji : String) → find (is_for emoji) summary ≡ tally emoji (filter (shows emoji) rows))
        × AreDistinct summary
        × IsMostUsedFirst summary
  unfolding summarize_reactions
  summarize_exact rows =
      let distinct = count_from-AreDistinct [] rows tt in
      (
        λ emoji.
            find-sort emoji (count_from [] rows) distinct
            ∙ (find-count_from emoji [] rows)
            ∙ counted_all-none emoji (filter (shows emoji) rows) (filter-shows emoji rows),
        sort-AreDistinct (count_from [] rows) distinct,
        sort-IsMostUsedFirst (count_from [] rows),
      )
