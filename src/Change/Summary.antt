-- ===== src/Change/Summary.antt =====
-- The apply command's summary line against the steps of the change order.
use kusion.Base.{ℕ, suc, ◌+◌, List, [], ◌∷◌, ◌≡◌, arith, if◌then◌else◌}
use kusion.Change.{ActionType, create, update, delete, is_action, LineSummary, count_line}

-- The summary after a success message for each of a list of actions.
unfoldable pub count_lines : LineSummary → List ActionType → LineSummary
count_lines ls [] = ls
count_lines ls (a ∷ as') = count_lines (count_line ls a) as'

unfoldable pub occurrences : ActionType → List ActionType → ℕ
occurrences a [] = 0
occurrences a (b ∷ bs) = if is_action b a then suc (occurrences a bs) else occurrences a bs

-- The three counters are the numbers of creations, updates and deletions, and the steps that none
-- of them counts are those that change nothing.
count_lines-counts :
    (ls : LineSummary) (actions : List ActionType)
    → ((count_lines ls actions).created ≡ ls.created + occurrences create actions)
      × ((count_lines ls actions).updated ≡ ls.updated + occurrences update actions)
      × ((count_lines ls actions).deleted ≡ ls.deleted + occurrences delete actions)
unfolding count_lines occurrences count_line
count_lines-counts ls [] = ground arith
count_lines-counts ls (a ∷ as') = ground (arith, count_lines-counts (count_line ls a) as')
