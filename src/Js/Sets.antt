-- ===== src/Js/Sets.antt =====
-- The entries of a set that is made from a list.
use agent_forum.Prelude.{◌≡◌, refl, arith, String, not, ◌&&◌, List, [], ◌∷◌, eq_iff, contains}
use agent_forum.Js.{distinct_from}

pub contains-distinct_from :
    (seen ss : List String) (r : String)
    → contains (distinct_from seen ss) r ≡ (contains ss r && not (contains seen r))
unfolding distinct_from
contains-distinct_from seen [] r = refl
contains-distinct_from seen (s ∷ ss) r =
    ground
      (arith, eq_iff s r, contains-distinct_from seen ss r, contains-distinct_from (s ∷ seen) ss r)
