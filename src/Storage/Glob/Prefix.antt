-- ===== src/Storage/Glob/Prefix.antt =====
-- internal/teststore/store.go: a literal prefix and a star.
use titip.Prelude.{◌≡◌, refl, true, false, [], ◌∷◌, ◌++◌, arith}
use titip.Text.{Text, codes}
use titip.Key.Escape.Safe.{Each}
use titip.Purge.Run.Removes.{IsLiteral}
use titip.Storage.Glob.{any_text, pieces_of, matches, match_glob}

matches-any_text : (t : Text) → Each IsLiteral t → matches (any_text ∷ []) t ≡ true
unfolding matches
matches-any_text [] h = refl
matches-any_text (c ∷ t) h = ground (arith, matches-any_text t h.1)

-- A pattern that is a literal prefix and a star matches what begins with the prefix.
prefix-matches :
    (prefix rest : Text)
    → Each IsLiteral (prefix ++ rest)
    → matches (pieces_of false (prefix ++ codes "*")) (prefix ++ rest) ≡ true
unfolding matches pieces_of
prefix-matches [] rest h = matches-any_text rest h
prefix-matches (c ∷ prefix) rest h = ground (arith, prefix-matches prefix rest h.1)

pub match_glob-prefix :
    (prefix rest : Text)
    → Each IsLiteral (prefix ++ rest)
    → match_glob (prefix ++ codes "*") (prefix ++ rest) ≡ true
unfolding match_glob
match_glob-prefix prefix rest h = prefix-matches prefix rest h
