-- ===== src/Governance/Lifecycle/Reach.antt =====
-- Chains of status changes under the state machine.
use agent_forum.Prelude.{
  String, ◌≡◌, refl, true, ◌⊎◌, inl, inr, ◌↔◌, List, [], ◌∷◌, contains, eq_iff, arith, Any,
}
use agent_forum.Http.{ok}
use agent_forum.Governance.Lifecycle.{
  Action, close, archive, hide, restore, resolve, soft_delete, assert_lifecycle_transition,
}

-- The table of the legal status changes, as relations between texts.
pub data IsLegal (s t : String) : Action → Type 0 where
  closing : s ≡ "open" → t ≡ "closed" → IsLegal s t close
  archiving : (s ≡ "open") ⊎ (s ≡ "closed") → t ≡ "archived" → IsLegal s t archive
  hiding : (s ≡ "open") ⊎ (s ≡ "closed") → t ≡ "hidden" → IsLegal s t hide
  restoring : (s ≡ "hidden") ⊎ (s ≡ "archived") ⊎ (s ≡ "closed") → t ≡ "open" → IsLegal s t restore
  resolving : s ≡ "open" → t ≡ "resolved" → IsLegal s t resolve
  deleting :
      (s ≡ "open") ⊎ (s ≡ "closed") ⊎ (s ≡ "resolved") ⊎ (s ≡ "archived") ⊎ (s ≡ "hidden")
      → t ≡ "deleted"
      → IsLegal s t soft_delete

IsLegal-of_ok : (a : Action) (s t : String) → assert_lifecycle_transition a s ≡ ok t → IsLegal s t a
unfolding assert_lifecycle_transition
IsLegal-of_ok close s t h = closing (ground (arith, eq_iff "open" s)) (ground arith)
IsLegal-of_ok archive s t h =
    archiving (ground (arith, eq_iff "open" s, eq_iff "closed" s)) (ground arith)
IsLegal-of_ok hide s t h =
    hiding (ground (arith, eq_iff "open" s, eq_iff "closed" s)) (ground arith)
IsLegal-of_ok restore s t h =
    restoring (ground (arith, eq_iff "hidden" s, eq_iff "archived" s, eq_iff "closed" s))
      (ground arith)
IsLegal-of_ok resolve s t h = resolving (ground (arith, eq_iff "open" s)) (ground arith)
IsLegal-of_ok soft_delete s t h =
    deleting
      (ground (
        arith,
        eq_iff "open" s,
        eq_iff "closed" s,
        eq_iff "resolved" s,
        eq_iff "archived" s,
        eq_iff "hidden" s,
      ))
      (ground arith)

ok_of_legal : (a : Action) (s t : String) → IsLegal s t a → assert_lifecycle_transition a s ≡ ok t
unfolding assert_lifecycle_transition
ok_of_legal _ s t (closing p q) = rw (p, q)
ok_of_legal _ s t (archiving (inl p) q) = rw (p, q)
ok_of_legal _ s t (archiving (inr p) q) = rw (p, q)
ok_of_legal _ s t (hiding (inl p) q) = rw (p, q)
ok_of_legal _ s t (hiding (inr p) q) = rw (p, q)
ok_of_legal _ s t (restoring (inl p) q) = rw (p, q)
ok_of_legal _ s t (restoring (inr (inl p)) q) = rw (p, q)
ok_of_legal _ s t (restoring (inr (inr p)) q) = rw (p, q)
ok_of_legal _ s t (resolving p q) = rw (p, q)
ok_of_legal _ s t (deleting (inl p) q) = rw (p, q)
ok_of_legal _ s t (deleting (inr (inl p)) q) = rw (p, q)
ok_of_legal _ s t (deleting (inr (inr (inl p))) q) = rw (p, q)
ok_of_legal _ s t (deleting (inr (inr (inr (inl p)))) q) = rw (p, q)
ok_of_legal _ s t (deleting (inr (inr (inr (inr p)))) q) = rw (p, q)

-- The guard accepts a status change exactly when the table of legal changes has it.
pub transition_iff :
    (a : Action) (s t : String) → (assert_lifecycle_transition a s ≡ ok t) ↔ IsLegal s t a
transition_iff a s t = (IsLegal-of_ok a s t, ok_of_legal a s t)

-- The statuses that a thread can come to by changes which the guard accepts.
pub data Reach (s : String) : String → Type 0 where
  here : Reach s s
  next :
      {t u : String} (a : Action) → Reach s t → assert_lifecycle_transition a t ≡ ok u → Reach s u

-- Where a change leads from a resolved thread, and that none leads from a deleted one.
final_step :
    (a : Action) (s t : String)
    → assert_lifecycle_transition a s ≡ ok t
    → (s ≡ "resolved") ⊎ (s ≡ "deleted")
    → (s ≡ "resolved") × (t ≡ "deleted")
unfolding assert_lifecycle_transition
final_step soft_delete s t h (inl e) = (e, cc (rw e at h))
final_step soft_delete s t h (inr e) = cc (rw e at h)
final_step _ s t h (inl e) = cc (rw e at h)
final_step _ s t h (inr e) = cc (rw e at h)

-- A chain of changes each of which the guard accepts, for the status that the one before has left,
-- leads from `resolved` to `resolved` or `deleted` only, and from `deleted` nowhere else. Changes
-- whose guard has read an older status are no such chain.
pub Reach-final :
    {s t : String} → (s ≡ "resolved") ⊎ (s ≡ "deleted") → Reach s t → (t ≡ s) ⊎ (t ≡ "deleted")
Reach-final e here = inl refl
Reach-final e (next {t} {u} a r h) = elim (Reach-final e r) [
  | inl same ↦ inr (final_step a t u h (rw same e)).1
  | inr gone ↦ inr (final_step a t u h (inr gone)).1
]

abbrev pub six_statuses : List String
six_statuses = "open" ∷ "closed" ∷ "resolved" ∷ "archived" ∷ "hidden" ∷ "deleted" ∷ []

legal_known : {a : Action} {s t : String} → IsLegal s t a → contains six_statuses t ≡ true
legal_known (closing p q) = rw q
legal_known (archiving p q) = rw q
legal_known (hiding p q) = rw q
legal_known (restoring p q) = rw q
legal_known (resolving p q) = rw q
legal_known (deleting p q) = rw q

open-Reach_known : {t : String} → Reach "open" t → contains six_statuses t ≡ true
open-Reach_known here = refl
open-Reach_known (next {t} {u} a r h) = legal_known (IsLegal-of_ok a t u h)

Reach-by : (s : String) (a : Action) (t : String) → Reach "open" s → IsLegal s t a → Reach "open" t
Reach-by s a t r l = next a r (ok_of_legal a s t l)

one_of_six : (t : String) → contains six_statuses t ≡ true → Any (λ s. t ≡ s) six_statuses
one_of_six t h = ground (
  arith,
  eq_iff "open" t,
  eq_iff "closed" t,
  eq_iff "resolved" t,
  eq_iff "archived" t,
  eq_iff "hidden" t,
  eq_iff "deleted" t,
)

known-Reach : (t : String) → Any (λ s. t ≡ s) six_statuses → Reach "open" t
known-Reach t (inl e) = rw e here
known-Reach t (inr (inl e)) = Reach-by "open" close t here (closing refl e)
known-Reach t (inr (inr (inl e))) = Reach-by "open" resolve t here (resolving refl e)
known-Reach t (inr (inr (inr (inl e)))) = Reach-by "open" archive t here (archiving (inl refl) e)
known-Reach t (inr (inr (inr (inr (inl e))))) = Reach-by "open" hide t here (hiding (inl refl) e)
known-Reach t (inr (inr (inr (inr (inr (inl e)))))) =
    Reach-by "open" soft_delete t here (deleting (inl refl) e)
known-Reach t (inr (inr (inr (inr (inr (inr e)))))) = absurd e

-- A new thread can come to each of the six statuses, and to no other.
pub open-Reach_iff : (t : String) → Reach "open" t ↔ (contains six_statuses t ≡ true)
open-Reach_iff t = (open-Reach_known, λ h. known-Reach t (one_of_six t h))
