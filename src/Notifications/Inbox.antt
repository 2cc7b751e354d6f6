-- ===== src/Notifications/Inbox.antt =====
-- svc-forum/src/lib/data-access/notification-store.ts: a recipient's notifications, and which of them
-- are read.
pub mod Laws
pub mod Marked
use agent_forum.Prelude.{
  ℕ, ◌+◌, ◌*◌, ◌-◌, min, String, Bool, true, false, not, ◌&&◌, ◌||◌, Option, none, some, List, [],
  ◌∷◌, ◌==◌, is_none, is_some, is_text, contains, map, ltb, nat_eq, if◌then◌else◌, min,
}
use agent_forum.Http.{Result, ok, err}
use agent_forum.Ids.{codes}
use agent_forum.Mentions.{codes_leb}
use agent_forum.Store.{Prisma, Tx, Db, Thread, NotificationFact, return, ask, ◌>>=◌, ◌>>◌}
use agent_forum.Store.Io.{Io, check, write}

pub record Filter : Type 0 where
  pub reason : Option String
  pub unread_only : Bool
  pub thread_id : Option String
  pub page : ℕ
  pub limit : ℕ
  pub include_hidden_thread_facts : Bool

pub record Facts : Type 0 where
  pub items : List NotificationFact
  pub total : ℕ
  pub page : ℕ
  pub limit : ℕ
  pub unread_count : ℕ

-- `if (v) where.key = v`
abbrev pub equals_if_given : Option String → String → Bool
equals_if_given none s = true
equals_if_given (some v) s = v == "" || s == v

abbrev pub unlisted_statuses : List String
unlisted_statuses = "hidden" ∷ "deleted" ∷ "archived" ∷ []

-- `n || d`
abbrev pub number_or : ℕ → ℕ → ℕ
number_or n d = if nat_eq n 0 then d else n

-- [{ createdAt: 'desc' }, { id: 'desc' }]
abbrev pub newer : NotificationFact → NotificationFact → Bool
newer f g =
    ltb g.created_at f.created_at
    || (nat_eq f.created_at g.created_at
        && codes_leb (codes g.id) (codes f.id)
        && not (f.id == g.id))

abbrev pub has_listed_thread : Option Thread → Bool
has_listed_thread none = false
has_listed_thread (some t) = not (contains unlisted_statuses t.status)

abbrev pub read : ℕ → NotificationFact → NotificationFact
read now f = record f { read_at = some now }

abbrev pub is_unread : String → Filter → NotificationFact → Bool
is_unread recipient opts f =
    f.recipient_principal_id == recipient
    && is_none f.read_at
    && equals_if_given opts.reason f.reason

abbrev pub is_own_unread : List String → String → NotificationFact → Bool
is_own_unread ids recipient f =
    contains ids f.id && f.recipient_principal_id == recipient && is_none f.read_at

module _ (prisma : Prisma) where
  abbrev pub is_listed : String → Filter → Db → NotificationFact → Bool
  is_listed recipient opts db f =
      f.recipient_principal_id == recipient
      && equals_if_given opts.reason f.reason
      && (not opts.unread_only || is_none f.read_at)
      && equals_if_given opts.thread_id f.thread_id
      && (opts.include_hidden_thread_facts
          || has_listed_thread (prisma.find_unique (λ t. t.id == f.thread_id) db.threads))

  unfoldable pub find_notifications_for_principal : String → Filter → Db → Facts
  find_notifications_for_principal recipient opts db =
      let page = number_or opts.page 1 in
      let limit = min (number_or opts.limit 20) 100 in
      let listed = is_listed recipient opts db in
      record {
        items = prisma.find_page newer listed ((page - 1) * limit) limit db.notification_facts;
        total = prisma.count listed db.notification_facts;
        page = page;
        limit = limit;
        unread_count = prisma.count (is_unread recipient opts) db.notification_facts;
      }

  unfoldable pub update_fact_row :
      (NotificationFact → Bool) → (NotificationFact → NotificationFact) → Tx NotificationFact
  update_fact_row which change db = elim (prisma.update which change db.notification_facts) [
    | ok (f, fs) ↦ ok (f, record db { notification_facts = fs })
    | err e ↦ err e
  ]

  abbrev pub read_found :
      ℕ → String → String → Option NotificationFact → Tx (Option NotificationFact)
  read_found now id recipient none = return none
  read_found now id recipient (some existing) =
      if not (existing.recipient_principal_id == recipient)
      then return none
      else if is_some existing.read_at
      then return (some existing)
      else (update_fact_row (λ f. f.id == id) (read now) >>= λ f. return (some f))

  unfoldable pub mark_notification_fact_read : ℕ → String → String → Tx (Option NotificationFact)
  mark_notification_fact_read now id recipient =
      ask (λ db. prisma.find_unique (λ f. f.id == id) db.notification_facts) >>= λ found.
      read_found now id recipient found

  unfoldable pub mark_notification_facts_read : ℕ → List String → String → Tx ℕ
  mark_notification_facts_read now [] recipient db = ok (0, db)
  mark_notification_facts_read now (id ∷ ids) recipient db =
      elim (prisma.update_many (is_own_unread (id ∷ ids) recipient) (read now)
        db.notification_facts) [
          | ok (n, fs) ↦ ok (n, record db { notification_facts = fs })
          | err e ↦ err e
        ]
