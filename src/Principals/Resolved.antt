-- ===== src/Principals/Resolved.antt =====
-- Whom the resolution of a principal answers.
use agent_forum.Prelude.{
  ℕ, ◌≡◌, refl, sym, ap, ◌∙◌, arith, String, Bool, true, false, Option, none, some, List, [], ◌∷◌,
  ◌==◌, eq_iff, eq_self, find, inl, inr, Bool-cases, Option-cases,
}
use agent_forum.Http.{ok}
use agent_forum.Store.{Prisma, Db, Principal}
use agent_forum.Store.Index.{IsUnique, find-last, find-map_where, find-holds, find-any, none-find}
use agent_forum.Principals.{
  ResolveParams, seen_at, principal_row, differ, given_text, has_subject, find_principal,
  touch_or_create, resolve_tx,
}
use agent_forum.Principals.Attempts.{
  create_principal_row-ok, update_principal_row-ok, touch-ok, create-ok,
}

-- No two rows have the same primary key.
abbrev pub same_id : Principal → Principal → Bool
same_id p q = p.id == q.id

-- The principal that is answered: the one of the token's subject, who is not disabled and whose
-- agent id, if both are known, is the token's; he was seen now, and he is found from now on.
pub record HasResolved (params : ResolveParams) (now : ℕ) (db' : Db) (p : Principal) : Type 0 where
  pub subject : p.auth_subject ≡ params.auth_subject
  pub agrees : differ params.agent_id p.agent_id ≡ false
  pub enabled : (p.status == "disabled") ≡ false
  pub seen : p.last_seen_at ≡ now
  pub found : find (has_subject params.auth_subject) db'.principals ≡ some p

agrees_with_own : (a : Option String) → differ a (given_text a) ≡ false
agrees_with_own none = refl
agrees_with_own (some a) = ground (arith, eq_self a)

-- A primary key belongs to one row.
find-same_id :
    (subject : String) (t : List Principal) (existing old : Principal)
    → IsUnique same_id t
    → find (has_subject subject) t ≡ some existing
    → find (λ q. q.id == existing.id) t ≡ some old
    → old ≡ existing
find-same_id subject [] existing old u h k = cc
find-same_id subject (p ∷ ps) existing old u h k = elim (Bool-cases (has_subject subject p)) [
  | inl e ↦
      let same : p ≡ existing = ground (arith, h, e) in
      let own : (p.id == existing.id) ≡ true = rw same (eq_self existing.id) in
      let first : p ≡ old = ground (arith, k, own) in sym first ∙ same
  | inr e ↦
      let later : find (has_subject subject) ps ≡ some existing = rw e at h in
      let apart : (p.id == existing.id) ≡ false = elim (Bool-cases (p.id == existing.id)) [
        | inr d ↦ d
        | inl d ↦ cc (u.0, find-any (has_subject subject) (same_id p) ps existing later d)
      ] in
      find-same_id subject ps existing old u.1 later (rw apart at k)
]

module _ (prisma : Prisma) (params : ResolveParams) (now : ℕ) where
  touched :
      (existing p : Principal) (db db' : Db)
      → IsUnique same_id db.principals
      → find_principal prisma params.auth_subject db ≡ some existing
      → touch_or_create prisma params now (some existing) db ≡ ok (p, db')
      → HasResolved params now db' p
  unfolding find_principal
  touched existing p db db' u known h =
      let (agrees, enabled, e) = touch-ok prisma params now existing p db db' h in
      let (old, by_id, changed, kept) =
        update_principal_row-ok prisma (λ q. q.id == existing.id) (seen_at now) p db db' e in
      let here : find (has_subject params.auth_subject) db.principals ≡ some existing =
        sym (prisma.find_unique_law (has_subject params.auth_subject) db.principals) ∙ known in
      let own : old ≡ existing =
        find-same_id params.auth_subject db.principals existing old u here by_id in
      let subject =
        (eq_iff existing.auth_subject params.auth_subject).0
          (find-holds (has_subject params.auth_subject) db.principals existing here) in
      let is_p : p ≡ seen_at now existing = changed ∙ ap (seen_at now) own in
      record {
        subject = rw is_p subject;
        agrees = rw is_p agrees;
        enabled = enabled;
        seen = rw is_p refl;
        found =
            rw (kept, is_p)
              (find-map_where (has_subject params.auth_subject) (λ q. q.id == existing.id)
                (seen_at now) db.principals existing (λ s. refl) here (eq_self existing.id));
      }

  created :
      (p : Principal) (db db' : Db)
      → find_principal prisma params.auth_subject db ≡ none
      → touch_or_create prisma params now none db ≡ ok (p, db')
      → HasResolved params now db' p
  unfolding find_principal
  created p db db' unknown h =
      let (row, kept, _) =
        create_principal_row-ok prisma (principal_row params now) p db db'
          (create-ok prisma params now p db db' h) in
      let absent =
        none-find (has_subject params.auth_subject) db.principals (
          sym (prisma.find_unique_law (has_subject params.auth_subject) db.principals) ∙ unknown) in
      record {
        subject = rw row refl;
        agrees = rw row (agrees_with_own params.agent_id);
        enabled = rw row refl;
        seen = rw row refl;
        found = rw kept (
            find-last (has_subject params.auth_subject) db.principals p absent
              (rw row (eq_self params.auth_subject)));
      }

  -- A resolution that returns answers the principal of the given subject, old or new: he is not
  -- disabled, his agent id is the given one where both are known, his last visit is now, and from now
  -- on he is the one that is found for the subject, if no two principals have the same primary key.
  pub resolve_tx-HasResolved :
      (p : Principal) (db db' : Db)
      → IsUnique same_id db.principals
      → resolve_tx prisma params now db ≡ ok (p, db')
      → HasResolved params now db' p
  unfolding resolve_tx
  resolve_tx-HasResolved p db db' u h =
      elim (Option-cases (find_principal prisma params.auth_subject db)) [
        | inl e ↦ created p db db' e (rw e at h)
        | inr (existing, e) ↦ touched existing p db db' u e (rw e at h)
      ]
