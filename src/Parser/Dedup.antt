-- ===== src/Parser/Dedup.antt =====
-- `Deduplicate` of pkg/engine/operation/parser/parser.go and the dependencies that a resource ends with.
use kusion.Base.{String, List, [], ◌∷◌, ◌≡◌, if◌then◌else◌, contains, count, arith, eq_iff}
use kusion.Parser.{deduplicate_from, deduplicate}

-- how often a key stands in the result of the loop
count-deduplicate_from :
    (k : String) (seen ks : List String)
    → count k (deduplicate_from seen ks)
      ≡ (if contains k seen then 0 else if contains k ks then 1 else 0)
unfolding deduplicate_from contains count
count-deduplicate_from k seen [] = ground arith
count-deduplicate_from k seen (j ∷ js) =
    ground
      (arith, eq_iff j k, count-deduplicate_from k seen js, count-deduplicate_from k (j ∷ seen) js)

-- A key stands in the deduplicated list once if it is in the list, and not at all if it is not.
count-deduplicate :
    (k : String) (ks : List String) → count k (deduplicate ks) ≡ (if contains k ks then 1 else 0)
unfolding deduplicate contains
count-deduplicate k ks = count-deduplicate_from k [] ks
