-- ===== src/Tests/Memory.antt =====
-- A driver over lists in memory, which satisfies the laws of the driver and never fails on its own.
use agent_forum.Prelude.{
  ℕ, ◌≤◌, ◌≡◌, refl, subst, String, Bool, true, false, Option, none, some, List, [], ◌∷◌, ◌++◌,
  arith, find, filter, any, length, map_where, leb, All, Any, All-map, inl, inr, if◌then◌else◌, not,
  take, drop, sort_by, Option-cases, Bool-cases,
}
use agent_forum.Js.{template}
use agent_forum.Http.{Result, ok, err, db_error, p2002, p2025}
use agent_forum.Store.{Prisma, IsReliable, insert_new}

module _ {Row : Type 0} where
  abbrev pub later : (Row → ℕ) → Row → Option Row → Option Row
  later key x none = some x
  later key x (some y) = if leb (key x) (key y) then some y else some x

  abbrev pub latest : (Row → Bool) → (Row → ℕ) → List Row → Option Row
  latest p key [] = none
  latest p key (x ∷ xs) = if p x then later key x (latest p key xs) else latest p key xs

  abbrev pub fresh_id : List Row → String
  fresh_id [] = "id"
  fresh_id (x ∷ xs) = template ("i" ∷ fresh_id xs ∷ [])

  abbrev pub create_row : (Row → Row → Bool) → (String → Row) → List Row → Result (Row × List Row)
  create_row clash r t =
      if any (clash (r (fresh_id t))) t
      then err (db_error p2002)
      else ok (r (fresh_id t), t ++ r (fresh_id t) ∷ [])

  abbrev pub changed : (Row → Bool) → (Row → Row) → List Row → Option Row → Result (Row × List Row)
  changed p f t none = err (db_error p2025)
  changed p f t (some old) = ok (f old, map_where p f t)

  abbrev pub update_row : (Row → Bool) → (Row → Row) → List Row → Result (Row × List Row)
  update_row p f t = changed p f t (find p t)

  abbrev pub removed : (Row → Bool) → List Row → Option Row → Result (Row × List Row)
  removed p t none = err (db_error p2025)
  removed p t (some old) = ok (old, filter (λ q. not (p q)) t)

  abbrev pub delete_row : (Row → Bool) → List Row → Result (Row × List Row)
  delete_row p t = removed p t (find p t)

  pub latest-none :
      (p : Row → Bool) (key : Row → ℕ) (t : List Row)
      → latest p key t ≡ none
      → All (λ q. p q ≡ false) t
  latest-none p key [] h = tt
  latest-none p key (x ∷ xs) h = (ground arith, latest-none p key xs (ground arith))

  abbrev pub IsLatest : (Row → Bool) → (Row → ℕ) → List Row → Row → Type 0
  IsLatest p key t r = (p r ≡ true) × Any (λ q. q ≡ r) t × All (λ q. p q ≡ true → key q ≤ key r) t

  pub latest-some :
      (p : Row → Bool) (key : Row → ℕ) (t : List Row) (r : Row)
      → latest p key t ≡ some r
      → IsLatest p key t r
  latest-some p key [] r h = cc
  latest-some p key (x ∷ xs) r h = elim (Bool-cases (p x)) [
    | inr skip ↦
        let (one, two, three) = latest-some p key xs r (ground arith) in
        (one, inr two, (λ k. cc, three))
    | inl take ↦ elim (Option-cases (latest p key xs)) [
      | inl e ↦
          let same : x ≡ r = ground arith in
          (
            rw (← same) take,
            inl same,
            (
              λ k. rw same (omega arith),
              All-map {P = λ q. p q ≡ false} xs (λ q a k. cc) (latest-none p key xs e),
            ),
          )
      | inr (y, e) ↦
          let (one, two, three) = latest-some p key xs y e in
          elim (Bool-cases (leb (key x) (key y))) [
            | inl le ↦
                let same : y ≡ r = ground arith in
                subst (IsLatest p key (x ∷ xs)) same (one, inr two, (λ k. ground arith, three))
            | inr gt ↦
                let same : x ≡ r = ground arith in
                let above : key y ≤ key x = ground arith in
                subst (IsLatest p key (x ∷ xs)) same (
                  take,
                  inl refl,
                  (
                    λ k. omega arith,
                    All-map {P = λ q. p q ≡ true → key q ≤ key y} xs
                        (λ q a k. omega (arith, a k, above)) three,
                  ),
                )
          ]
    ]
  ]

  pub create_row-ok :
      (clash : Row → Row → Bool) (r : String → Row) (t : List Row) (new : Row) (t' : List Row)
      → create_row clash r t ≡ ok (new, t')
      → (new ≡ r (fresh_id t)) × (t' ≡ t ++ new ∷ []) × (any (clash new) t ≡ false)
  create_row-ok clash r t new t' h = ground arith

  pub update_row-ok :
      (p : Row → Bool) (f : Row → Row) (t : List Row) (r : Row) (t' : List Row)
      → update_row p f t ≡ ok (r, t')
      → (old : Row) × (find p t ≡ some old) × (r ≡ f old) × (t' ≡ map_where p f t)
  update_row-ok p f t r t' h = elim (Option-cases (find p t)) [
    | inl e ↦ cc (rw e at h)
    | inr (old, e) ↦ (old, e, ground arith, ground arith)
  ]

  pub create_row-clash :
      (clash : Row → Row → Bool) (r : String → Row) (t : List Row)
      → any (clash (r (fresh_id t))) t ≡ true
      → create_row clash r t ≡ err (db_error p2002)
  create_row-clash clash r t h = rw h

  pub update_row-missing :
      (p : Row → Bool) (f : Row → Row) (t : List Row)
      → find p t ≡ none
      → update_row p f t ≡ err (db_error p2025)
  update_row-missing p f t h = rw h

  pub update_row-p2025 :
      (p : Row → Bool) (f : Row → Row) (t : List Row)
      → update_row p f t ≡ err (db_error p2025)
      → find p t ≡ none
  update_row-p2025 p f t h = elim (Option-cases (find p t)) [
    | inl e ↦ e
    | inr (r, e) ↦ cc (rw e at h)
  ]

  pub delete_row-ok :
      (p : Row → Bool) (t : List Row) (r : Row) (t' : List Row)
      → delete_row p t ≡ ok (r, t')
      → (find p t ≡ some r) × (t' ≡ filter (λ q. not (p q)) t)
  delete_row-ok p t r t' h = elim (Option-cases (find p t)) [
    | inl e ↦ cc (rw e at h)
    | inr (old, e) ↦ (ground (arith, e), ground (arith, e))
  ]

  pub delete_row-missing :
      (p : Row → Bool) (t : List Row) → find p t ≡ none → delete_row p t ≡ err (db_error p2025)
  delete_row-missing p t h = rw h

  pub delete_row-works :
      (p : Row → Bool) (t : List Row) (old : Row)
      → find p t ≡ some old
      → delete_row p t ≡ ok (old, filter (λ q. not (p q)) t)
  delete_row-works p t old h = rw h

  abbrev pub update_rows : (Row → Bool) → (Row → Row) → List Row → Result (ℕ × List Row)
  update_rows p f t = ok (length (filter p t), map_where p f t)

  pub update_rows-ok :
      (p : Row → Bool) (f : Row → Row) (t : List Row) (n : ℕ) (t' : List Row)
      → update_rows p f t ≡ ok (n, t')
      → (n ≡ length (filter p t)) × (t' ≡ map_where p f t)
  update_rows-ok p f t n t' h = ground arith

  abbrev pub create_rows : (Row → Row → Bool) → List (String → Row) → List Row → Result (List Row)
  create_rows clash rs t = ok (insert_new fresh_id clash rs t)

  pub create_rows-ok :
      (clash : Row → Row → Bool) (rs : List (String → Row)) (t t' : List Row)
      → create_rows clash rs t ≡ ok t'
      → t' ≡ insert_new fresh_id clash rs t
  create_rows-ok clash rs t t' h = ground arith

  pub create_row-works :
      (clash : Row → Row → Bool) (r : String → Row) (t : List Row)
      → any (clash (r (fresh_id t))) t ≡ false
      → create_row clash r t ≡ ok (r (fresh_id t), t ++ r (fresh_id t) ∷ [])
  create_row-works clash r t h = rw h

  pub update_row-works :
      (p : Row → Bool) (f : Row → Row) (t : List Row) (old : Row)
      → find p t ≡ some old
      → update_row p f t ≡ ok (f old, map_where p f t)
  update_row-works p f t old h = rw h

abbrev pub memory : Prisma
memory = record {
  find_unique = find;
  find_many = filter;
  find_ordered = λ before p t. sort_by before (filter p t);
  find_page = λ before p skip n t. take n (drop skip (sort_by before (filter p t)));
  find_latest = latest;
  count = λ p t. length (filter p t);
  create = create_row;
  update = update_row;
  update_many = update_rows;
  delete = delete_row;
  create_many = create_rows;
  new_id = fresh_id;
  find_unique_law = λ p t. refl;
  find_many_law = λ p t. refl;
  find_ordered_law = λ before p t. refl;
  find_page_law = λ before p skip n t. refl;
  count_law = λ p t. refl;
  find_latest_some = latest-some;
  find_latest_none = latest-none;
  create_ok = create_row-ok;
  create_clash = create_row-clash;
  update_ok = update_row-ok;
  update_missing = update_row-missing;
  update_p2025 = update_row-p2025;
  delete_ok = delete_row-ok;
  delete_missing = delete_row-missing;
  update_many_ok = update_rows-ok;
  create_many_ok = create_rows-ok;
}

pub memory-IsReliable : IsReliable memory
memory-IsReliable = record {
  create_works = create_row-works;
  update_works = update_row-works;
  delete_works = delete_row-works;
  update_many_works = λ p f t. refl;
  create_many_works = λ clash rs t. refl;
}
