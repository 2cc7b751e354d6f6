-- ===== src/Routes/Notifications/Shown.antt =====
-- What a caller is shown of his notifications.
use agent_forum.Prelude.{
  ℕ, ◌≤◌, ◌≡◌, refl, sym, ap, arith, String, Bool, true, false, not, ◌||◌, Option, none, some, [],
  ◌∷◌, ◌==◌, eq_comm, contains, find, length, All, All-map,
}
use agent_forum.Js.{template}
use agent_forum.Http.{ok, http_error, throw_if}
use agent_forum.Store.{Prisma, Db, Thread}
use agent_forum.Store.Io.Laws.{check_db-ok}
use agent_forum.Middleware.{User, join_names, require_read_scope}
use agent_forum.Governance.Visibility.{has_governance_authority}
use agent_forum.Pagination.{parse_pagination}
use agent_forum.Notifications.Inbox.{
  Facts, Filter, has_listed_thread, find_notifications_for_principal,
}
use agent_forum.Notifications.Inbox.Laws.{notifications-AreShown}
use agent_forum.Routes.Notifications.{
  default_paging, is_true, one_of, notification_reasons, notifications_handler,
}

-- The thread exists and is neither hidden nor deleted nor archived.
abbrev pub is_public : Option Thread → Bool
is_public none = false
is_public (some t) = not (t.status == "hidden" || t.status == "deleted" || t.status == "archived")

public_thread : (t : Option Thread) → has_listed_thread t ≡ is_public t
public_thread none = refl
public_thread (some t) =
    ground
      (arith, eq_comm t.status "hidden", eq_comm t.status "deleted", eq_comm t.status "archived")

module _ (prisma : Prisma) (user : Option User) (shown : ℕ → String)
    (type unread thread_id page limit : Option String) (db : Db) where
  -- What is shown, and to whom.
  pub record ShowsOwn (facts : Facts) (db' : Db) : Type 0 where
    pub caller : User
    pub signed_in : require_read_scope user ≡ ok caller
    pub own :
        All
          (λ f.
            (f.recipient_principal_id ≡ caller.id)
            × ((contains caller.scopes "forum.moderate"
                  || contains caller.scopes "forum.admin"
                  || is_public (find (λ t. t.id == f.thread_id) db.threads))
                ≡ true))
          facts.items
    pub few : length facts.items ≤ 100
    pub kept : db' ≡ db

  -- A request for notifications that is answered without an error was made by a caller with the read
  -- scope and shows him his own only, at most 100 of them; unless he has a governance scope their
  -- threads exist and are neither hidden nor deleted nor archived. Nothing is written.
  pub notifications_handler-ShowsOwn :
      (facts : Facts) (db' : Db)
      → notifications_handler prisma user shown type unread thread_id page limit db
        ≡ (ok facts, db')
      → ShowsOwn facts db'
  unfolding notifications_handler has_governance_authority
  notifications_handler-ShowsOwn facts db' h =
      let (caller, signed_in, h1) = check_db-ok (λ _. require_read_scope user) _ h in
      let (_, _, h2) =
        check_db-ok
          (λ _. throw_if (not (one_of notification_reasons type)) (
            http_error 400
              (template ("type must be one of: " ∷ join_names notification_reasons ∷ []))))
          _ h1 in
      let (_, _, h3) =
        check_db-ok
          (λ _.
            throw_if (not (one_of ("true" ∷ "false" ∷ []) unread))
              (http_error 400 "unread must be \"true\" or \"false\""))
          _ h2 in
      let (paging, _, h4) =
        check_db-ok (λ _. parse_pagination shown page limit default_paging 100) _ h3 in
      let opts : Filter = record {
        reason = type;
        unread_only = is_true unread;
        thread_id = thread_id;
        page = paging.page;
        limit = paging.limit;
        include_hidden_thread_facts = has_governance_authority (some caller.scopes);
      } in
      let same : find_notifications_for_principal prisma caller.id opts db ≡ facts =
        ground (arith, ap (λ p. p.0) h4) in
      let (own, few, most, _) = notifications-AreShown prisma caller.id opts db in
      rw (← same) (record {
        caller = caller;
        signed_in = signed_in;
        own =
            All-map _
              (λ f k.
                let law = prisma.find_unique_law (λ t. t.id == f.thread_id) db.threads in
                let open_to_all = public_thread (find (λ t. t.id == f.thread_id) db.threads) in
                (k.0, ground (arith, k.1, law, open_to_all)))
              own;
        few = omega (arith, few, most);
        kept = sym (ap (λ p. p.1) h4);
      })
