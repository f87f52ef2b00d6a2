-- ===== src/Ascii/Dispatch.antt =====
-- asc_dispatch and asc_parse of src/mc_ascii.c, and core_parse of src/mc_core.c: from the read buffer
-- to the command.
use twemcache.Ascii.{Server, set_conn, asc_rsp_client_error, asc_rsp_server_error, asc_rsp_version}
use twemcache.Ascii.Admin.{asc_process_flushall, asc_process_verbosity}
use twemcache.Ascii.Config.{asc_process_config}
use twemcache.Ascii.Counter.{asc_process_delta, asc_process_delete}
use twemcache.Ascii.Read.{asc_process_read}
use twemcache.Ascii.Storage.{asc_process_update, asc_process_annex}
use twemcache.Assoc.{Key}
use twemcache.Base.{
  drop, ℕ, ◌+◌, ◌-◌, Bool, false, not, ◌&&◌, ◌||◌, Option, none, some, List, [], ◌∷◌, length, ltb,
  ◌==◌, if◌then◌else◌,
}
use twemcache.Conn.{Conn, conn_wait, conn_close, set_state, on_ok, conn_add_msghdr}
use twemcache.Number.{Libc}
use twemcache.Request.{
  ReqType, req_unknown, req_set, req_add, req_replace, req_append, req_prepend, req_appendrl,
  req_prependrl, req_cas, req_get, req_gets, req_incr, req_decr, req_delete, req_quit, req_stats,
  req_config, req_version, req_flushall, req_verbosity,
}
use twemcache.Store.{Env}
use twemcache.Token.{Token, tokenize, parse_type, starts}

-- What the commands need from outside: the C library, the wall clock, MC_VERSION_STRING; and the
-- commands that are not modelled.
pub record Outside : Type 0 where
  pub libc : Libc
  pub sec : ℕ
  pub usec : ℕ
  pub version : List ℕ
  pub process_stats : Server → List Token → Server
  pub process_hotkey : Server → List Token → Server

pub data Status : Type 0 where
  mc_ok mc_eagain mc_error : Status

-- The bytes before a NUL.
abbrev pub c_string : List ℕ → List ℕ
c_string [] = []
c_string (c ∷ str) = if c == 0 then [] else c ∷ c_string str

-- memchr(): the bytes before the first '\n', if there is one.
abbrev pub line_of : List ℕ → Option (List ℕ)
line_of [] = none
line_of (c ∷ rest) =
    if c == b'\n'
    then some []
    else elim (line_of rest) [ none ↦ none | some line ↦ some (c ∷ line) ]

-- The line without a '\r' at its end, if it is longer than that.
abbrev pub last_is_cr : List ℕ → Bool
last_is_cr [] = false
last_is_cr (c ∷ []) = c == b'\r'
last_is_cr (c ∷ d ∷ rest) = last_is_cr (d ∷ rest)

abbrev pub without_last : List ℕ → List ℕ
without_last [] = []
without_last (c ∷ []) = []
without_last (c ∷ d ∷ rest) = c ∷ without_last (d ∷ rest)

abbrev pub chomp : List ℕ → List ℕ
chomp line = if ltb 1 (length line) && last_is_cr line then without_last line else line

abbrev pub skip_blanks : List ℕ → List ℕ
skip_blanks [] = []
skip_blanks (c ∷ str) = if c == b' ' then skip_blanks str else c ∷ str

-- What may stay in the buffer with no end of line: a get of many keys.
pub is_long_get : List ℕ → Bool
is_long_get unread =
    not (ltb 100 (length unread - length (skip_blanks unread)))
    && (starts (b'g' ∷ b'e' ∷ b't' ∷ b' ' ∷ []) (skip_blanks unread)
        || starts (b'g' ∷ b'e' ∷ b't' ∷ b's' ∷ b' ' ∷ []) (skip_blanks unread))

-- `rounds` bounds the rounds of a get; `none` is a get that still runs after so many.
module _ (hash : Key → ℕ) (env : Env) (grants : ℕ → Bool) (buffers : ℕ → Option ℕ) (rounds : ℕ)
    (outside : Outside) where
  -- The switch of asc_dispatch.
  pub process : ReqType → Server → List Token → Option Server
  process req_get w token = asc_process_read grants buffers hash rounds w token
  process req_gets w token = asc_process_read grants buffers hash rounds w token
  process req_set w token = some (asc_process_update hash env outside.libc w token)
  process req_cas w token = some (asc_process_update hash env outside.libc w token)
  process req_add w token = some (asc_process_update hash env outside.libc w token)
  process req_replace w token = some (asc_process_update hash env outside.libc w token)
  process req_append w token = some (asc_process_annex hash env outside.libc w token)
  process req_prepend w token = some (asc_process_annex hash env outside.libc w token)
  process req_appendrl w token = some (asc_process_annex hash env outside.libc w token)
  process req_prependrl w token = some (asc_process_annex hash env outside.libc w token)
  process req_incr w token = some (asc_process_delta hash env outside.libc w token)
  process req_decr w token = some (asc_process_delta hash env outside.libc w token)
  process req_delete w token = some (asc_process_delete hash env outside.libc w token)
  process req_stats w token = some (outside.process_stats w token)
  process req_flushall w token =
      some (asc_process_flushall hash outside.libc w outside.sec outside.usec token)
  process req_version w token = some (asc_rsp_version outside.version w)
  process req_quit w token = some (set_conn w (set_state w.conn conn_close))
  process req_verbosity w token = some (asc_process_verbosity outside.libc w token)
  process req_config w token = some (asc_process_config outside.libc outside.process_hotkey w token)
  process req_unknown w token = some (asc_rsp_client_error w)

  -- asc_dispatch of the request `req`.
  pub asc_dispatch : Server → List ℕ → Option Server
  unfolding process
  asc_dispatch w req =
      on_ok (conn_add_msghdr grants fresh) (λ c. some (asc_rsp_server_error (set_conn w c)))
        (λ c. process type (set_conn w (record c { req_type = type })) token)
    where
      fresh : Conn
      fresh = record w.conn { msg_curr = 0; msg_used = 0; iov_used = 0 }

      token : List Token
      token = tokenize req

      type : ReqType
      type = parse_type token

  -- asc_parse, where the line is one that the buffer holds.
  pub parse_line : Server → List ℕ → Option Server
  unfolding asc_dispatch
  parse_line w line = elim (asc_dispatch w (c_string (chomp line))) [
    | none ↦ none
    | some v ↦ some (set_conn v (record v.conn { unread = drop (length line + 1) v.conn.unread }))
  ]

  pub asc_parse : Server → Option (Server × Status)
  unfolding parse_line is_long_get
  asc_parse w = elim (line_of w.conn.unread) [
    | some line ↦ elim (parse_line w line) [ none ↦ none | some v ↦ some (v, mc_ok) ]
    | none ↦
        if ltb 1024 (length w.conn.unread) && not (is_long_get w.conn.unread)
        then some (set_conn w (set_state w.conn conn_close), mc_error)
        else some (w, mc_eagain)
  ]

  -- core_parse
  pub core_parse : Server → Option Server
  unfolding asc_parse
  core_parse w = parsed (asc_parse w)
    where
      parsed : Option (Server × Status) → Option Server
      parsed none = none
      parsed (some (v, mc_eagain)) = some (set_conn v (set_state v.conn conn_wait))
      parsed (some (v, status)) = some v
