-- ===== src/Token/Tests.antt =====
-- Runs of the functions of Token.
use twemcache.Base.{ℕ, List, [], ◌∷◌}
use twemcache.Token.{tokenize}
use twemcache.Token.Words.{Splits, words, tokenize-Splits}

-- "get  k"
abbrev line : List ℕ
line = b'g' ∷ b'e' ∷ b't' ∷ b' ' ∷ b' ' ∷ b'k' ∷ []

tokenize-Splits_example : Splits 7 (words line) (tokenize line)
tokenize-Splits_example = tokenize-Splits line
