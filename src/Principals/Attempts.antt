-- ===== src/Principals/Attempts.antt =====
-- What the parts of a resolution have written when they return.
use agent_forum.Prelude.{
  ℕ, ◌≡◌, ◌∙◌, arith, String, Bool, false, some, [], ◌∷◌, ◌++◌, ◌==◌, find, any, map_where, inl,
  inr,
}
use agent_forum.Http.{ok, Result-cases}
use agent_forum.Store.{Prisma, Db, Principal, same_principal}
use agent_forum.Store.Transaction.Laws.{>>=-ok, lift-throw_if-ok}
use agent_forum.Principals.{
  ResolveParams, seen_at, principal_row, differ, alias_changed, is_disabled, create_principal_row,
  update_principal_row, touch, create, agent_id_free,
}

module _ (prisma : Prisma) where
  pub create_principal_row-ok :
      (row : String → Principal) (p : Principal) (db db' : Db)
      → create_principal_row prisma row db ≡ ok (p, db')
      → (p ≡ row (prisma.new_id db.principals))
        × (db' ≡ record db { principals = db.principals ++ p ∷ [] })
        × (any (same_principal p) db.principals ≡ false)
  unfolding create_principal_row
  create_principal_row-ok row p db db' h =
      elim (Result-cases (prisma.create same_principal row db.principals)) [
        | inl ((new, ps), e) ↦
            let (one, two, three) = prisma.create_ok same_principal row db.principals new ps e in
            (ground (arith, e), ground (arith, e), ground (arith, e))
        | inr (x, e) ↦ cc (rw (e, create_principal_row) at h)
      ]

  pub update_principal_row-ok :
      (which : Principal → Bool) (change : Principal → Principal) (p : Principal) (db db' : Db)
      → update_principal_row prisma which change db ≡ ok (p, db')
      → (old : Principal) × (find which db.principals ≡ some old)
        × (p ≡ change old)
        × (db' ≡ record db { principals = map_where which change db.principals })
  unfolding update_principal_row
  update_principal_row-ok which change p db db' h =
      elim (Result-cases (prisma.update which change db.principals)) [
        | inl ((new, ps), e) ↦
            let (old, found, changed, all) = prisma.update_ok which change db.principals new ps e in
            (old, found, ground (arith, e), ground (arith, e))
        | inr (x, e) ↦ cc (rw (e, update_principal_row) at h)
      ]

  -- The parts of a transaction that has found the subject, and of one that has not.
  pub touch-ok :
      (params : ResolveParams) (now : ℕ) (existing p : Principal) (db db' : Db)
      → touch prisma params now existing db ≡ ok (p, db')
      → (differ params.agent_id existing.agent_id ≡ false)
        × ((p.status == "disabled") ≡ false)
        × (update_principal_row prisma (λ q. q.id == existing.id) (seen_at now) db ≡ ok (p, db'))
  unfolding touch
  touch-ok params now existing p db db' h =
      let (same, h1) =
        lift-throw_if-ok (differ params.agent_id existing.agent_id) alias_changed _ db h in
      let (updated, mid, e, h2) =
        >>=-ok (update_principal_row prisma (λ q. q.id == existing.id) (seen_at now)) _ h1 in
      let (active, h3) = lift-throw_if-ok (updated.status == "disabled") is_disabled _ mid h2 in
      let is_p : updated ≡ p = ground (arith, h3) in
      let is_left : mid ≡ db' = ground (arith, h3) in
      (same, rw (← is_p) active, e ∙ (λ i. ok (is_p i, is_left i)))

  pub create-ok :
      (params : ResolveParams) (now : ℕ) (p : Principal) (db db' : Db)
      → create prisma params now db ≡ ok (p, db')
      → create_principal_row prisma (principal_row params now) db ≡ ok (p, db')
  unfolding create
  create-ok params now p db db' h = elim (Result-cases (agent_id_free prisma params.agent_id db)) [
    | inl (x, e) ↦ rw e at h
    | inr (x, e) ↦ cc (rw e at h)
  ]
