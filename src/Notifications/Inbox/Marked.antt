-- ===== src/Notifications/Inbox/Marked.antt =====
-- What marking notifications as read does.
use agent_forum.Prelude.{
  ℕ, ◌≡◌, ◌≢◌, refl, arith, String, Bool, true, false, List, [], ◌∷◌, ◌==◌, eq_iff, filter, length,
  map_where, inl, inr,
}
use agent_forum.Http.{ok, Result-cases}
use agent_forum.Store.{Prisma, Db, NotificationFact}
use agent_forum.Notifications.Inbox.{read, is_own_unread, mark_notification_facts_read}

module _ (prisma : Prisma) (recipient : String) (now : ℕ) where
  filter-none :
      (p : NotificationFact → Bool) (fs : List NotificationFact)
      → ((f : NotificationFact) → p f ≡ false)
      → filter p fs ≡ []
  filter-none p [] h = refl
  filter-none p (f ∷ fs) h =
      let rest = filter-none p fs h in let here = h f in ground (arith, rest, here)

  none-map_where :
      (p : NotificationFact → Bool) (change : NotificationFact → NotificationFact)
      (fs : List NotificationFact)
      → ((f : NotificationFact) → p (change f) ≡ false)
      → filter p (map_where p change fs) ≡ []
  none-map_where p change [] h = refl
  none-map_where p change (f ∷ fs) h =
      let rest = none-map_where p change fs h in let here = h f in ground (arith, rest, here)

  same-map_where :
      (p q : NotificationFact → Bool) (change : NotificationFact → NotificationFact)
      (fs : List NotificationFact)
      → ((f : NotificationFact) → p f ≡ true → q f ≡ false)
      → ((f : NotificationFact) → p f ≡ true → q (change f) ≡ false)
      → filter q (map_where p change fs) ≡ filter q fs
  same-map_where p q change [] h k = refl
  same-map_where p q change (f ∷ fs) h k =
      let rest = same-map_where p q change fs h k in
      let here = h f in let there = k f in ground (arith, rest, here, there)

  -- Marking a batch as read changes the notifications that are the caller's, unread and in the batch,
  -- and counts them; none of them is unread then, so marking the batch again would change none; and
  -- the notifications of everybody else are the same as before.
  pub mark_notification_facts_read-IsRead :
      (ids : List String) (n : ℕ) (other : String) (db db' : Db)
      → other ≢ recipient
      → mark_notification_facts_read prisma now ids recipient db ≡ ok (n, db')
      → (n ≡ length (filter (is_own_unread ids recipient) db.notification_facts))
        × (filter (is_own_unread ids recipient) db'.notification_facts ≡ [])
        × (filter (λ f. f.recipient_principal_id == other) db'.notification_facts
            ≡ filter (λ f. f.recipient_principal_id == other) db.notification_facts)
  unfolding mark_notification_facts_read
  mark_notification_facts_read-IsRead [] n other db db' differs h =
      let none_own = filter-none (is_own_unread [] recipient) db.notification_facts (λ f. refl) in
      let is_n : 0 ≡ n = ground (arith, h) in
      let left : db ≡ db' = ground (arith, h) in
      rw (← is_n, ← left) (rw none_own refl, none_own, refl)
  mark_notification_facts_read-IsRead (id ∷ ids) n other db db' differs h =
      let own = is_own_unread (id ∷ ids) recipient in
      elim (Result-cases (prisma.update_many own (read now) db.notification_facts)) [
        | inr (x, e) ↦ cc (rw (mark_notification_facts_read, e) at h)
        | inl ((m, fs), e) ↦
            let (count, rows) = prisma.update_many_ok own (read now) db.notification_facts m fs e in
            let is_n : m ≡ n = ground (arith, rw (mark_notification_facts_read, e) at h) in
            let left : record db { notification_facts = fs } ≡ db' =
              ground (arith, rw (mark_notification_facts_read, e) at h) in
            rw (← is_n, ← left, rows)
              (
                count,
                none-map_where own (read now) db.notification_facts (λ f. ground arith),
                same-map_where own (λ f. f.recipient_principal_id == other) (read now)
                    db.notification_facts
                    (λ f k. ground (
                      arith,
                      k,
                      eq_iff f.recipient_principal_id other,
                      eq_iff f.recipient_principal_id recipient,
                      differs,
                    ))
                    (λ f k. ground (
                      arith,
                      k,
                      eq_iff f.recipient_principal_id other,
                      eq_iff f.recipient_principal_id recipient,
                      differs,
                    )),
              )
      ]
