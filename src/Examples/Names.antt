-- ===== src/Examples/Names.antt =====
-- Dotted names and file names.
use sardis.Common.{◌≡◌, List, [], ◌∷◌, String, string_comparable, arith, All}
use sardis.Common.Text.{Lacks}
use sardis.Util.Dots.{make_sparse, sparse_string, dot_join, dot_split}
use sardis.Util.Dots.Names.{sparse_string-dot_split-dot_join}

abbrev parts : List String
parts = "repo" ∷ "" ∷ "update" ∷ []

parts-Lacks : All (Lacks b'.') parts
parts-Lacks = omega arith

sparse_string-dot_split-dot_join_example :
    sparse_string (dot_split (dot_join parts)) ≡ make_sparse parts
sparse_string-dot_split-dot_join_example = sparse_string-dot_split-dot_join parts parts-Lacks
