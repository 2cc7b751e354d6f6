-- ===== src/Notifications/Inbox/Laws.antt =====
-- What a recipient is shown of his notifications.
use native.Mathlib.Nat.{suc-mul}
use agent_forum.Prelude.{
  ℕ, zero, suc, ◌+◌, ◌*◌, ◌-◌, ◌≤◌, ◌≡◌, refl, sym, ap, ◌∙◌, arith, min, String, Bool, true, ◌||◌,
  List, [], ◌∷◌, ◌++◌, ◌==◌, eq_iff, filter, length, take, drop, insert_by, sort_by, All, All-map,
  Bool-cases, inl, inr,
}
use agent_forum.Store.{Prisma, Db, NotificationFact}
use agent_forum.Notifications.Inbox.{
  Filter, newer, number_or, has_listed_thread, is_listed, find_notifications_for_principal,
}

module _ {A : Type 0} where
  take-nil : (n : ℕ) → take {A = A} n [] ≡ []
  take-nil zero = refl
  take-nil (suc n) = refl

  take-add : (a b : ℕ) (xs : List A) → take (a + b) xs ≡ take a xs ++ take b (drop a xs)
  take-add zero b xs = let same : 0 + b ≡ b = omega arith in ap (λ n. take n xs) same
  take-add (suc a) b [] =
      let same : suc a + b ≡ suc (a + b) = omega arith in
      ap (λ n. take n []) same ∙ sym (take-nil b)
  take-add (suc a) b (x ∷ xs) =
      let same : suc a + b ≡ suc (a + b) = omega arith in
      ap (λ n. take n (x ∷ xs)) same ∙ ap (λ r. x ∷ r) (take-add a b xs)

  length-take : (n : ℕ) (xs : List A) → length (take n xs) ≤ n
  length-take zero xs = omega arith
  length-take (suc n) [] = omega arith
  length-take (suc n) (x ∷ xs) = let rest = length-take n xs in omega (arith, rest)

  module _ (P : A → Type 0) where
    All-take : (n : ℕ) (xs : List A) → All P xs → All P (take n xs)
    All-take zero xs h = tt
    All-take (suc n) [] h = tt
    All-take (suc n) (x ∷ xs) h = (h.0, All-take n xs h.1)

    All-drop : (n : ℕ) (xs : List A) → All P xs → All P (drop n xs)
    All-drop zero xs h = h
    All-drop (suc n) [] h = tt
    All-drop (suc n) (x ∷ xs) h = All-drop n xs h.1

    All-insert_by :
        (before : A → A → Bool) (x : A) (xs : List A)
        → P x
        → All P xs
        → All P (insert_by before x xs)
    All-insert_by before x [] h hs = (h, tt)
    All-insert_by before x (y ∷ ys) h hs = elim (Bool-cases (before y x)) [
      | inl e ↦ rw e (hs.0, All-insert_by before x ys h hs.1)
      | inr e ↦ rw e (h, hs)
    ]

    All-sort_by : (before : A → A → Bool) (xs : List A) → All P xs → All P (sort_by before xs)
    All-sort_by before [] h = tt
    All-sort_by before (x ∷ xs) h =
        All-insert_by before x (sort_by before xs) h.0 (All-sort_by before xs h.1)

  All-filter : (p : A → Bool) (xs : List A) → All (λ x. p x ≡ true) (filter p xs)
  All-filter p [] = tt
  All-filter p (x ∷ xs) = elim (Bool-cases (p x)) [
    | inl e ↦ rw e (e, All-filter p xs)
    | inr e ↦ rw e (All-filter p xs)
  ]

module _ (prisma : Prisma) (recipient : String) (opts : Filter) where
  -- The notification is the recipient's, and its thread may be listed.
  abbrev pub IsShown : Db → NotificationFact → Type 0
  IsShown db f =
      (f.recipient_principal_id ≡ recipient)
      × ((opts.include_hidden_thread_facts
            || has_listed_thread (prisma.find_unique (λ t. t.id == f.thread_id) db.threads))
          ≡ true)

  -- The notifications that are listed are all the recipient's own, and unless the filter includes the
  -- others their threads are neither hidden nor deleted nor archived; there are at most as many as
  -- the limit, which is at most 100, and the total counts all that may be listed.
  pub notifications-AreShown :
      (db : Db)
      → let found = find_notifications_for_principal prisma recipient opts db in
        All (IsShown db) found.items
        × (length found.items ≤ found.limit)
        × (found.limit ≤ 100)
        × (found.total ≡ length (filter (is_listed prisma recipient opts db) db.notification_facts))
  unfolding find_notifications_for_principal
  notifications-AreShown db =
      let listed = is_listed prisma recipient opts db in
      let limit = min (number_or opts.limit 20) 100 in
      let skip = (number_or opts.page 1 - 1) * limit in
      let all = filter listed db.notification_facts in
      let law = prisma.find_page_law newer listed skip limit db.notification_facts in
      (
        rw law (
            All-take (IsShown db) limit (drop skip (sort_by newer all)) (
              All-drop (IsShown db) skip (sort_by newer all) (
                All-sort_by (IsShown db) newer all (
                  All-map all
                    (λ f h. (
                      (eq_iff f.recipient_principal_id recipient).0 (ground (arith, h)),
                      ground (arith, h),
                    ))
                    (All-filter listed db.notification_facts))))),
        rw law (length-take limit (drop skip (sort_by newer all))),
        omega arith,
        prisma.count_law listed db.notification_facts,
      )

-- The first pages of somebody's notifications, one after another.
abbrev pub first_pages : Prisma → String → Filter → Db → ℕ → List NotificationFact
first_pages prisma recipient opts db zero = []
first_pages prisma recipient opts db (suc k) =
    first_pages prisma recipient opts db k
    ++ (find_notifications_for_principal prisma recipient (record opts { page = suc k }) db).items

-- One page, among all that may be listed.
page_exact :
    (prisma : Prisma) (recipient : String) (opts : Filter) (db : Db) (k : ℕ)
    → 1 ≤ opts.limit
    → opts.limit ≤ 100
    → (find_notifications_for_principal prisma recipient (record opts { page = suc k }) db).items
      ≡ take opts.limit (
          drop
            (k * opts.limit)
            (sort_by newer (filter (is_listed prisma recipient opts db) db.notification_facts)))
unfolding find_notifications_for_principal
page_exact prisma recipient opts db k one two =
    let listed = is_listed prisma recipient opts db in
    let sorted = sort_by newer (filter listed db.notification_facts) in
    let limit : min (number_or opts.limit 20) 100 ≡ opts.limit = ground (arith, one, two) in
    let before : number_or (suc k) 1 - 1 ≡ k = ground arith in
    prisma.find_page_law newer listed
      ((number_or (suc k) 1 - 1) * min (number_or opts.limit 20) 100)
      (min (number_or opts.limit 20) 100) db.notification_facts
    ∙ (λ i. take (limit i) (drop (before i * limit i) sorted))

-- The first k pages are the k * limit newest notifications that may be listed, newest first: paging
-- neither repeats nor leaves out one, if the limit is between 1 and 100.
pub first_pages_exact :
    (prisma : Prisma) (recipient : String) (opts : Filter) (db : Db) (k : ℕ)
    → 1 ≤ opts.limit
    → opts.limit ≤ 100
    → first_pages prisma recipient opts db k
      ≡ take
          (k * opts.limit)
          (sort_by newer (filter (is_listed prisma recipient opts db) db.notification_facts))
first_pages_exact prisma recipient opts db zero one two =
    let none_yet : 0 ≡ 0 * opts.limit = omega arith in
    ap
      (λ n.
        take n (sort_by newer (filter (is_listed prisma recipient opts db) db.notification_facts)))
      none_yet
first_pages_exact prisma recipient opts db (suc k) one two =
    let rest = first_pages_exact prisma recipient opts db k one two in
    let page = page_exact prisma recipient opts db k one two in
    let sorted =
      sort_by newer (filter (is_listed prisma recipient opts db) db.notification_facts) in
    (λ i. rest i ++ page i)
    ∙ sym (take-add (k * opts.limit) opts.limit sorted)
    ∙ ap (λ n. take n sorted) (sym (suc-mul k opts.limit))
