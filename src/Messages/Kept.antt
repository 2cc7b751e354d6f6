-- ===== src/Messages/Kept.antt =====
-- What watching leaves of the participants' rows.
use agent_forum.Prelude.{
  ℕ, String, ◌≡◌, refl, ◌∙◌, ap, none, List, [], ◌∷◌, ◌++◌, ◌==◌, map_where, All, ◌⊎◌, inl, inr,
  Bool-cases, if◌then◌else◌,
}
use agent_forum.Store.{Participant}
use agent_forum.Messages.{watcher, rejoin}

-- A row that was there is left alone, or its owner comes back at a time: his role, his status, what
-- he has read and his waiver stay.
abbrev pub IsKept : ℕ → Participant → Participant → Type 0
IsKept joined p q = (q ≡ p) ⊎ (q ≡ record p { left_at = none; joined_at = joined })

-- Every row that was there is kept, in its place; a new one is a plain member's of the thread.
abbrev pub AreKept : String → ℕ → List Participant → List Participant → Type 0
AreKept th joined [] qs = All (λ q. q ≡ watcher th q.agent_id q.agent_name joined q.id) qs
AreKept th joined (p ∷ ps) [] = ⊥
AreKept th joined (p ∷ ps) (q ∷ qs) = IsKept joined p q × AreKept th joined ps qs

pub AreKept-self : (th : String) (joined : ℕ) (ps : List Participant) → AreKept th joined ps ps
AreKept-self th joined [] = tt
AreKept-self th joined (p ∷ ps) = (inl refl, AreKept-self th joined ps)

pub AreKept-append :
    (th : String) (joined : ℕ) (ps : List Participant) (q : Participant)
    → q ≡ watcher th q.agent_id q.agent_name joined q.id
    → AreKept th joined ps (ps ++ q ∷ [])
AreKept-append th joined [] q h = (h, tt)
AreKept-append th joined (p ∷ ps) q h = (inl refl, AreKept-append th joined ps q h)

IsKept-rejoin :
    (joined : ℕ) (id : String) (p : Participant)
    → IsKept joined p (if p.id == id then rejoin joined p else p)
IsKept-rejoin joined id p = elim (Bool-cases (p.id == id)) [
  | inl e ↦ rw e (inr refl)
  | inr e ↦ rw e (inl refl)
]

pub AreKept-rejoin :
    (th : String) (joined : ℕ) (id : String) (ps : List Participant)
    → AreKept th joined ps (map_where (λ p. p.id == id) (rejoin joined) ps)
AreKept-rejoin th joined id [] = tt
AreKept-rejoin th joined id (p ∷ ps) = (IsKept-rejoin joined id p, AreKept-rejoin th joined id ps)

IsKept-trans :
    (joined : ℕ) (p q r : Participant) → IsKept joined p q → IsKept joined q r → IsKept joined p r
IsKept-trans joined p q r (inl e) (inl k) = inl (k ∙ e)
IsKept-trans joined p q r (inr e) (inl k) = inr (k ∙ e)
IsKept-trans joined p q r (inl e) (inr k) =
    inr (k ∙ ap (λ (x : Participant). record x { left_at = none; joined_at = joined }) e)
IsKept-trans joined p q r (inr e) (inr k) =
    inr (k ∙ ap (λ (x : Participant). record x { left_at = none; joined_at = joined }) e)

-- A new row that is kept is still a plain member's.
watcher-IsKept :
    (th : String) (joined : ℕ) (q r : Participant)
    → q ≡ watcher th q.agent_id q.agent_name joined q.id
    → IsKept joined q r
    → r ≡ watcher th r.agent_id r.agent_name joined r.id
watcher-IsKept th joined q r h (inl e) = rw e h
watcher-IsKept th joined q r h (inr e) =
    rw e (ap (λ (x : Participant). record x { left_at = none; joined_at = joined }) h)

pub AreKept-trans :
    (th : String) (joined : ℕ) (ps qs rs : List Participant)
    → AreKept th joined ps qs
    → AreKept th joined qs rs
    → AreKept th joined ps rs
AreKept-trans th joined [] [] rs h k = k
AreKept-trans th joined [] (q ∷ qs) [] h k = absurd k
AreKept-trans th joined [] (q ∷ qs) (r ∷ rs) h k =
    (watcher-IsKept th joined q r h.0 k.0, AreKept-trans th joined [] qs rs h.1 k.1)
AreKept-trans th joined (p ∷ ps) [] rs h k = absurd h
AreKept-trans th joined (p ∷ ps) (q ∷ qs) [] h k = absurd k
AreKept-trans th joined (p ∷ ps) (q ∷ qs) (r ∷ rs) h k =
    (IsKept-trans joined p q r h.0 k.0, AreKept-trans th joined ps qs rs h.1 k.1)
