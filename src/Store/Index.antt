-- ===== src/Store/Index.antt =====
-- Unique indexes of svc-forum/prisma/schema.prisma: what keeps the rows of a table apart, and where
-- a new row is found.
use agent_forum.Prelude.{
  Bool, true, false, not, ◌||◌, ◌≡◌, refl, ◌∙◌, arith, none, some, List, [], ◌∷◌, ◌++◌, find,
  filter, any, map_where, Bool-cases, inl, inr,
}

module _ {Row : Type 0} where
  -- No two rows clash.
  abbrev pub IsUnique : (Row → Row → Bool) → List Row → Type 0
  IsUnique clash [] = Unit
  IsUnique clash (r ∷ rs) = (any (clash r) rs ≡ false) × IsUnique clash rs

  pub find-none : (p : Row → Bool) (t : List Row) → any p t ≡ false → find p t ≡ none
  find-none p [] h = refl
  find-none p (r ∷ rs) h = let rest = find-none p rs in ground (arith, h, rest)

  pub none-find : (p : Row → Bool) (t : List Row) → find p t ≡ none → any p t ≡ false
  none-find p [] h = refl
  none-find p (r ∷ rs) h = let rest = none-find p rs in ground (arith, h, rest)

  pub any-none :
      (p q : Row → Bool)
      → ((r : Row) → p r ≡ true → q r ≡ true)
      → (t : List Row) → any q t ≡ false
      → any p t ≡ false
  any-none p q imp [] h = refl
  any-none p q imp (r ∷ rs) h =
      let rest = any-none p q imp rs in let here = imp r in ground (arith, h, rest, here)

  pub find-last :
      (p : Row → Bool) (t : List Row) (new : Row)
      → any p t ≡ false
      → p new ≡ true
      → find p (t ++ new ∷ []) ≡ some new
  find-last p [] new h k = rw k
  find-last p (r ∷ rs) new h k = let rest = find-last p rs new in ground (arith, h, k, rest)

  pub filter-last :
      (p : Row → Bool) (t : List Row) (new : Row)
      → any p t ≡ false
      → p new ≡ true
      → filter (λ q. not (p q)) (t ++ new ∷ []) ≡ t
  filter-last p [] new h k = rw k
  filter-last p (r ∷ rs) new h k = let rest = filter-last p rs new in ground (arith, h, k, rest)

  pub any-last :
      (p : Row → Bool) (t : List Row) (new : Row) → any p (t ++ new ∷ []) ≡ (any p t || p new)
  any-last p [] new = ground arith
  any-last p (r ∷ rs) new = let rest = any-last p rs new in ground (arith, rest)

  any-filter :
      (p keep : Row → Bool) (t : List Row) → any p t ≡ false → any p (filter keep t) ≡ false
  any-filter p keep [] h = refl
  any-filter p keep (r ∷ rs) h = let rest = any-filter p keep rs in ground (arith, h, rest)

  pub find-holds : (p : Row → Bool) (t : List Row) (r : Row) → find p t ≡ some r → p r ≡ true
  find-holds p [] r h = cc
  find-holds p (q ∷ qs) r h =
      let rest = find-holds p qs r in
      elim (Bool-cases (p q)) [
        | inl e ↦ let same : q ≡ r = ground (arith, h, e) in rw (← same) e
        | inr e ↦ rest (rw e at h)
      ]

  pub find-any :
      (q w : Row → Bool) (t : List Row) (r : Row) → find q t ≡ some r → w r ≡ true → any w t ≡ true
  find-any q w [] r h k = cc
  find-any q w (s ∷ ss) r h k =
      let rest = find-any q w ss r in
      elim (Bool-cases (q s)) [
        | inl e ↦
            let same : s ≡ r = ground (arith, h, e) in
            let k' : w s ≡ true = rw same k in ground (arith, k')
        | inr e ↦ let later = rest (rw e at h) k in ground (arith, later)
      ]

  -- A row that is found before a write that keeps its key is found after it, changed.
  pub find-map_where :
      (q which : Row → Bool) (change : Row → Row) (t : List Row) (r : Row)
      → ((s : Row) → q (change s) ≡ q s)
      → find q t ≡ some r
      → which r ≡ true
      → find q (map_where which change t) ≡ some (change r)
  find-map_where q which change [] r keeps h w = cc
  find-map_where q which change (s ∷ ss) r keeps h w =
      let rest = find-map_where q which change ss r keeps in
      let here = keeps s in
      elim (Bool-cases (q s)) [
        | inl e ↦
            let same : s ≡ r = ground (arith, h, e) in
            let w' : which s ≡ true = rw same w in ground (arith, w', here, e, same)
        | inr e ↦ let later = rest (rw e at h) w in ground (arith, later, here, e)
      ]

  module _ (clash : Row → Row → Bool) where
    pub create-IsUnique :
        ((r s : Row) → clash r s ≡ clash s r)
        → (t : List Row) (new : Row) → any (clash new) t ≡ false
        → IsUnique clash t
        → IsUnique clash (t ++ new ∷ [])
    create-IsUnique comm [] new h u = (refl, tt)
    create-IsUnique comm (r ∷ rs) new h u =
        let last = any-last (clash r) rs new in
        let same = comm r new in
        (ground (arith, h, u.0, last, same), create-IsUnique comm rs new (ground (arith, h)) u.1)

    pub delete-IsUnique :
        (keep : Row → Bool) (t : List Row) → IsUnique clash t → IsUnique clash (filter keep t)
    delete-IsUnique keep [] u = tt
    delete-IsUnique keep (r ∷ rs) u = elim (Bool-cases (keep r)) [
      | inl e ↦ rw e (any-filter (clash r) keep rs u.0, delete-IsUnique keep rs u.1)
      | inr e ↦ rw e (delete-IsUnique keep rs u.1)
    ]

    any-map_where :
        (which : Row → Bool) (change : Row → Row) (p : Row → Bool)
        → ((s : Row) → p (change s) ≡ p s)
        → (t : List Row) → any p (map_where which change t) ≡ any p t
    any-map_where which change p same [] = refl
    any-map_where which change p same (r ∷ rs) =
        let rest = any-map_where which change p same rs in
        let here = same r in ground (arith, rest, here)

    any-left :
        (r s : Row)
        → ((q : Row) → clash r q ≡ clash s q)
        → (t : List Row) → any (clash r) t ≡ any (clash s) t
    any-left r s same [] = refl
    any-left r s same (q ∷ qs) =
        let rest = any-left r s same qs in let here = same q in ground (arith, rest, here)

    -- A write that leaves the columns of the index alone.
    pub update-IsUnique :
        (which : Row → Bool) (change : Row → Row)
        → ((r s : Row) → clash (change r) s ≡ clash r s)
        → ((r s : Row) → clash r (change s) ≡ clash r s)
        → (t : List Row) → IsUnique clash t
        → IsUnique clash (map_where which change t)
    update-IsUnique which change left right [] u = tt
    update-IsUnique which change left right (r ∷ rs) u =
        let rest = update-IsUnique which change left right rs u.1 in
        elim (Bool-cases (which r)) [
          | inl e ↦ rw e (
            any-map_where which change (clash (change r)) (right (change r)) rs
                ∙ any-left (change r) r (left r) rs
                ∙ u.0,
            rest,
          )
          | inr e ↦ rw e (any-map_where which change (clash r) (right r) rs ∙ u.0, rest)
        ]
