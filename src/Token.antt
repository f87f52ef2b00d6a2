-- ===== src/Token.antt =====
-- The tokens of a request line: asc_tokenize, asc_set_noreply_maybe and asc_parse_type of
-- src/mc_ascii.c. A pointer into the line is the rest of the line from there on, up to the NUL that
-- ends it.
pub mod Words
pub mod Again
pub mod Names
mod Tests
use twemcache.Base.{
  ℕ, zero, suc, ◌+◌, ◌-◌, Bool, true, false, ◌&&◌, Option, none, some, List, [], ◌∷◌, length, ltb,
  ◌==◌, if◌then◌else◌,
}
use twemcache.Request.{
  ReqType, req_unknown, req_set, req_add, req_replace, req_append, req_prepend, req_appendrl,
  req_prependrl, req_cas, req_get, req_gets, req_incr, req_decr, req_delete, req_quit, req_stats,
  req_config, req_version, req_flushall, req_verbosity,
}

-- `none` is NULL.
pub record Token : Type 0 where
  pub val : Option (List ℕ)
  pub len : ℕ

abbrev pub token_max : ℕ
token_max = 8

-- The terminal token.
abbrev pub terminal : List ℕ → Token
terminal [] = record { val = none; len = 0 }
terminal (c ∷ rest) = record { val = some (c ∷ rest); len = 0 }

-- The loop of asc_tokenize with room for `room` tokens: a token starts at `s` and has `len` bytes so
-- far, and `rest` is at the end marker.
unfoldable pub tokenize_loop : ℕ → List ℕ → ℕ → List ℕ → List Token
tokenize_loop zero s len rest = terminal rest ∷ []
tokenize_loop (suc room) s len [] =
    if len == 0 then terminal [] ∷ [] else record { val = some s; len = len } ∷ terminal [] ∷ []
tokenize_loop (suc room) s len (c ∷ rest) =
    let saved = record { val = some s; len = len } ∷ tokenize_loop room rest 0 rest in
    let skipped = tokenize_loop (suc room) rest 0 rest in
    let longer = tokenize_loop (suc room) s (len + 1) rest in
    if c == b' ' then if len == 0 then skipped else saved else longer

-- asc_tokenize
unfoldable pub tokenize : List ℕ → List Token
unfolding tokenize_loop
tokenize command = tokenize_loop (token_max - 1) command 0 command

-- The bytes of a token, or from a pointer on.
abbrev pub take : ℕ → List ℕ → List ℕ
take zero str = []
take (suc n) [] = []
take (suc n) (c ∷ str) = c ∷ take n str

abbrev pub from : Option (List ℕ) → List ℕ
from none = []
from (some str) = str

abbrev pub text : Token → List ℕ
text t = take t.len (from t.val)

-- The str4cmp … str9cmp macros: the first bytes of a string.
abbrev pub starts : List ℕ → List ℕ → Bool
starts [] str = true
starts (c ∷ name) [] = false
starts (c ∷ name) (d ∷ str) = c == d && starts name str

-- token[i], where it was set.
abbrev pub get : List Token → ℕ → Token
get [] i = record { val = none; len = 0 }
get (t ∷ ts) zero = t
get (t ∷ ts) (suc i) = get ts i

abbrev noreply : List ℕ
noreply = b'n' ∷ b'o' ∷ b'r' ∷ b'e' ∷ b'p' ∷ b'l' ∷ b'y' ∷ []

-- asc_set_noreply_maybe: whether c->noreply is set.
pub set_noreply_maybe : List Token → Bool
set_noreply_maybe token =
    if ltb (length token) 2 then false else (t.len == 7) && starts noreply (from t.val)
  where
    t : Token
    t = get token (length token - 2)

-- The first entry whose string the value starts with.
abbrev pub first_match : List (List ℕ × ReqType) → List ℕ → ReqType
first_match [] str = req_unknown
first_match ((name, type) ∷ rest) str = if starts name str then type else first_match rest str

-- The strings that asc_parse_type compares a token of a length with, in order.
abbrev pub candidates : ℕ → List (List ℕ × ReqType)
candidates len =
    if len == 3
    then (b'g' ∷ b'e' ∷ b't' ∷ b' ' ∷ [], req_get)
      ∷ (b's' ∷ b'e' ∷ b't' ∷ b' ' ∷ [], req_set)
      ∷ (b'a' ∷ b'd' ∷ b'd' ∷ b' ' ∷ [], req_add)
      ∷ (b'c' ∷ b'a' ∷ b's' ∷ b' ' ∷ [], req_cas)
      ∷ []
    else if len == 4
    then (b'g' ∷ b'e' ∷ b't' ∷ b's' ∷ [], req_gets)
      ∷ (b'i' ∷ b'n' ∷ b'c' ∷ b'r' ∷ [], req_incr)
      ∷ (b'd' ∷ b'e' ∷ b'c' ∷ b'r' ∷ [], req_decr)
      ∷ (b'q' ∷ b'u' ∷ b'i' ∷ b't' ∷ [], req_quit)
      ∷ []
    else if len == 5
    then (b's' ∷ b't' ∷ b'a' ∷ b't' ∷ b's' ∷ [], req_stats) ∷ []
    else if len == 6
    then (b'a' ∷ b'p' ∷ b'p' ∷ b'e' ∷ b'n' ∷ b'd' ∷ [], req_append)
      ∷ (b'd' ∷ b'e' ∷ b'l' ∷ b'e' ∷ b't' ∷ b'e' ∷ [], req_delete)
      ∷ (b'c' ∷ b'o' ∷ b'n' ∷ b'f' ∷ b'i' ∷ b'g' ∷ [], req_config)
      ∷ []
    else if len == 7
    then (b'r' ∷ b'e' ∷ b'p' ∷ b'l' ∷ b'a' ∷ b'c' ∷ b'e' ∷ [], req_replace)
      ∷ (b'p' ∷ b'r' ∷ b'e' ∷ b'p' ∷ b'e' ∷ b'n' ∷ b'd' ∷ [], req_prepend)
      ∷ (b'v' ∷ b'e' ∷ b'r' ∷ b's' ∷ b'i' ∷ b'o' ∷ b'n' ∷ [], req_version)
      ∷ []
    else if len == 8
    then (b'a' ∷ b'p' ∷ b'p' ∷ b'e' ∷ b'n' ∷ b'd' ∷ b'r' ∷ b'l' ∷ [], req_appendrl) ∷ []
    else if len == 9
    then (b'f' ∷ b'l' ∷ b'u' ∷ b's' ∷ b'h' ∷ b'_' ∷ b'a' ∷ b'l' ∷ b'l' ∷ [], req_flushall)
      ∷ (b'p' ∷ b'r' ∷ b'e' ∷ b'p' ∷ b'e' ∷ b'n' ∷ b'd' ∷ b'r' ∷ b'l' ∷ [], req_prependrl)
      ∷ (b'v' ∷ b'e' ∷ b'r' ∷ b'b' ∷ b'o' ∷ b's' ∷ b'i' ∷ b't' ∷ b'y' ∷ [], req_verbosity)
      ∷ []
    else []

-- asc_parse_type
pub parse_type : List Token → ReqType
parse_type token =
    if ltb (length token) 2
    then req_unknown
    else first_match (candidates (get token 0).len) (from (get token 0).val)
