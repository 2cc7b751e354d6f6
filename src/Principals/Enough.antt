-- ===== src/Principals/Enough.antt =====
-- How often the resolution of a principal calls itself.
use agent_forum.Prelude.{
  ℕ, suc, ◌≡◌, ◌<◌, refl, sym, ap, ◌∙◌, arith, String, true, false, Option, none, some, ◌==◌,
  eq_self, is_some, find, map_where, if◌then◌else◌, inl, inr, Bool-cases, Option-cases,
}
use agent_forum.Http.{Error, db_error, Code, Result, ok, err}
use agent_forum.Store.{Prisma, IsReliable, Db, Env, Principal, commit, ◌>>=◌}
use agent_forum.Store.Index.{find-any, none-find}
use agent_forum.Principals.{
  ResolveParams, seen_at, differ, is_clash, settled, has_subject, find_principal, touch,
  update_principal_row, resolve_tx, resolve_from, resolve_principal,
}

-- An attempt that does not fail on a unique index.
abbrev DoesNotClash : {A : Type 0} → Result A → Type 0
DoesNotClash r = (e : Error) → r ≡ err e → is_clash e ≡ false

-- The commit is not refused for a clash.
abbrev pub IsNoClash : Option Code → Type 0
IsNoClash none = Unit
IsNoClash (some c) = is_clash (db_error c) ≡ false

commit-DoesNotClash :
    {A : Type 0} (c : Option Code) (r : Result (A × Db))
    → IsNoClash c
    → DoesNotClash r
    → DoesNotClash (commit c r)
commit-DoesNotClash none r h k e eq = k e eq
commit-DoesNotClash (some code) (err x) h k e eq = k e eq
commit-DoesNotClash (some code) (ok r) h k e eq =
    let same : db_error code ≡ e = ground (arith, eq) in ap is_clash (sym same) ∙ h

settled-same :
    (seen after : Db) (found : Option Principal) (a b : Result Principal × Db)
    (end : Result (Principal × Db))
    → (is_some found ≡ true → a ≡ b)
    → settled seen after found a end ≡ settled seen after found b end
settled-same seen after found a b (ok x) h = refl
settled-same seen after none a b (err e) h = refl
settled-same seen after (some p) a b (err e) h =
    ap (λ x. if is_clash e then x else (err e, seen)) (h refl)

settled-ends :
    (seen after : Db) (found : Option Principal) (a b : Result Principal × Db)
    (end : Result (Principal × Db))
    → DoesNotClash end
    → settled seen after found a end ≡ settled seen after found b end
settled-ends seen after found a b (ok x) h = refl
settled-ends seen after found a b (err e) h = rw (h e refl) refl

module _ (prisma : Prisma) (reliable : IsReliable prisma) where
  -- A write to the row that has been found works.
  update-works :
      (now : ℕ) (subject : String) (db : Db) (existing : Principal)
      → find_principal prisma subject db ≡ some existing
      → (p : Principal) × (after : Db) × (update_principal_row prisma
            (λ q. q.id == existing.id)
            (seen_at now)
            db
          ≡ ok (p, after))
  unfolding find_principal update_principal_row
  update-works now subject db existing h =
      let here = sym (prisma.find_unique_law (has_subject subject) db.principals) ∙ h in
      let there =
        find-any (has_subject subject) (λ q. q.id == existing.id) db.principals existing here
          (eq_self existing.id) in
      elim (Option-cases (find (λ q. q.id == existing.id) db.principals)) [
        | inl e ↦ cc (none-find (λ q. q.id == existing.id) db.principals e, there)
        | inr (old, e) ↦ (
          seen_at now old,
          record db {
            principals = map_where (λ q. q.id == existing.id) (seen_at now) db.principals;
          },
          rw
              (
                update_principal_row,
                reliable.update_works (λ q. q.id == existing.id) (seen_at now) db.principals old e,
              )
              refl,
        )
      ]

  resolve_tx-DoesNotClash :
      (params : ResolveParams) (now : ℕ) (db : Db) (existing : Principal)
      → find_principal prisma params.auth_subject db ≡ some existing
      → DoesNotClash (resolve_tx prisma params now db)
  unfolding resolve_tx touch
  resolve_tx-DoesNotClash params now db existing h e eq =
      let (p, after, works) = update-works now params.auth_subject db existing h in
      elim (Bool-cases (differ params.agent_id existing.agent_id)) [
        | inl d ↦ ground (arith, rw (h, d) at eq)
        | inr d ↦ elim (Bool-cases (p.status == "disabled")) [
          | inl s ↦ ground (arith, rw (h, d, ◌>>=◌, works, s) at eq)
          | inr s ↦ cc (rw (h, d, ◌>>=◌, works, s) at eq)
        ]
      ]

  module _ (env : Env) (meanwhile : ℕ → Db → Db) (params : ResolveParams) where
    abbrev IsKnown : Db → Type 0
    IsKnown db = is_some (find_principal prisma params.auth_subject db) ≡ true

    once :
        ((k : ℕ) → 1 < k → IsNoClash (env.refuses k))
        → ((k : ℕ) (db : Db) → IsKnown db → IsKnown (env.others k db))
        → (extra k : ℕ) (db : Db) → 1 < k
        → IsKnown db
        → resolve_from prisma env meanwhile params (suc extra) k db
          ≡ resolve_from prisma env meanwhile params 1 k db
    unfolding resolve_from
    once accepted stays extra k db later known =
        elim (Option-cases (find_principal prisma params.auth_subject (env.others k db))) [
          | inl e ↦ cc (rw e at (stays k db known))
          | inr (p, e) ↦
              let seen = env.others k db in
              let after = meanwhile k seen in
              settled-ends seen after (find_principal prisma params.auth_subject after)
                (resolve_from prisma env meanwhile params extra (suc k) after)
                (resolve_from prisma env meanwhile params 0 (suc k) after)
                (commit (env.refuses k) (resolve_tx prisma params (env.now k) seen))
                (commit-DoesNotClash (env.refuses k) _ (accepted k later)
                  (resolve_tx-DoesNotClash params (env.now k) (env.others k db) p e))
        ]

    -- Two attempts are enough: with more of them the resolution ends in the same way, so the call
    -- that resolve_principal makes of itself without a bound ends. The first attempt may fail in any
    -- way, for a clash with a row that others have inserted as well; it is assumed that the driver is
    -- reliable, that nobody removes the principal in between, and that the second attempt and those
    -- after it, which find him, are not refused for a clash.
    pub resolve_principal_enough :
        ((k : ℕ) → 1 < k → IsNoClash (env.refuses k))
        → ((k : ℕ) (db : Db) → IsKnown db → IsKnown (env.others k db))
        → (extra : ℕ) (db : Db)
        → resolve_from prisma env meanwhile params (suc (suc extra)) 1 db
          ≡ resolve_principal prisma env meanwhile params db
    unfolding resolve_from resolve_principal
    resolve_principal_enough accepted stays extra db =
        let seen = env.others 1 db in
        let after = meanwhile 1 seen in
        settled-same seen after (find_principal prisma params.auth_subject after)
          (resolve_from prisma env meanwhile params (suc extra) 2 after)
          (resolve_from prisma env meanwhile params 1 2 after)
          (commit (env.refuses 1) (resolve_tx prisma params (env.now 1) seen))
          (once accepted stays extra 2 after (omega arith))
