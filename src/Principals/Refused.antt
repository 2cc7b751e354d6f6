-- ===== src/Principals/Refused.antt =====
-- An agent id that is another's: the resolution is refused.
use agent_forum.Prelude.{◌≡◌, String, true, false, none, some, ◌==◌, find}
use agent_forum.Ids.{is_valid_agent_id}
use agent_forum.Store.{Prisma, Db, Principal}
use agent_forum.Principals.{ResolveParams, has_subject, has_agent_id}

module _ (prisma : Prisma) (params : ResolveParams) (agent_id : String) where
  -- The subject is new and the agent id another principal's, or the subject has another agent id.
  pub data IsConflict (db : Db) : Type 0 where
    taken :
        (other : Principal)
        → is_valid_agent_id agent_id ≡ true
        → find (has_subject params.auth_subject) db.principals ≡ none
        → find (has_agent_id agent_id) db.principals ≡ some other
        → IsConflict db
    renamed :
        (existing : Principal) (known : String)
        → find (has_subject params.auth_subject) db.principals ≡ some existing
        → existing.agent_id ≡ some known
        → (known == "") ≡ false
        → (agent_id == known) ≡ false
        → IsConflict db
