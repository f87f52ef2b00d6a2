-- ===== src/Core/Swallowing.antt =====
-- The state CONN_SWALLOW against the stream of the client's bytes, however it is cut into reads.
use twemcache.Base.{
  drop, ℕ, ◌≤◌, ◌<◌, ◌≡◌, refl, sym, ap, ◌∙◌, Bool, true, false, List, [], ◌∷◌, ◌++◌, ltb, ◌==◌,
  if◌then◌else◌, arith, length,
}
use twemcache.Conn.{Conn, conn_new_cmd, set_state}
use twemcache.Core.{
  ReadResult, received, read_would_block, no_data, skip_leftovers, read_swallowed, swallow_step,
}
use twemcache.Core.Slices.{drop-split, drop-front}

-- One round of CONN_SWALLOW. `stream` is what the client has sent and the server has not read.
pub data SwallowStep : Conn → List ℕ → Conn → List ℕ → Type 0 where
  finished :
      (c : Conn) (stream : List ℕ) (r : ReadResult)
      → c.sbytes ≡ 0
      → SwallowStep c stream (swallow_step r true c).0 stream
  buffered :
      (c : Conn) (stream : List ℕ) (r : ReadResult)
      → 0 < c.sbytes
      → 0 < length c.unread
      → SwallowStep c stream (swallow_step r true c).0 stream
  arrived :
      (c : Conn) (bytes stream : List ℕ)
      → c.unread ≡ []
      → 0 < length bytes
      → length bytes ≤ c.sbytes
      → SwallowStep c (bytes ++ stream) (swallow_step (received bytes) true c).0 stream
  blocked :
      (c : Conn) (stream : List ℕ)
      → 0 < c.sbytes
      → c.unread ≡ []
      → SwallowStep c stream (swallow_step read_would_block true c).0 stream

pub data SwallowSteps : Conn → List ℕ → Conn → List ℕ → Type 0 where
  here : (c : Conn) (stream : List ℕ) → SwallowSteps c stream c stream
  next :
      {c d e : Conn} {s t u : List ℕ}
      → SwallowStep c s d t
      → SwallowSteps d t e u
      → SwallowSteps c s e u

-- What comes behind the bytes that are thrown away.
abbrev pub kept : Conn → List ℕ → List ℕ
kept c stream = drop c.sbytes (c.unread ++ stream)

-- The answer of a round, by the two tests that it makes.
step_by : ReadResult → Conn → Bool → Bool → Conn × Bool
step_by r c done more =
    if done
    then (set_state c conn_new_cmd, false)
    else if more
    then (skip_leftovers c, false)
    else read_swallowed r true c

swallow-by :
    (r : ReadResult) (c : Conn) (done more : Bool)
    → (c.sbytes == 0) ≡ done
    → ltb 0 (length c.unread) ≡ more
    → swallow_step r true c ≡ step_by r c done more
unfolding swallow_step step_by
swallow-by r c done more e k =
    ap (λ b. step_by r c b (ltb 0 (length c.unread))) e ∙ ap (λ b. step_by r c done b) k

skip-kept : (c : Conn) (stream : List ℕ) → kept (skip_leftovers c) stream ≡ kept c stream
unfolding skip_leftovers
skip-kept c stream =
    drop-split (if ltb c.sbytes (length c.unread) then c.sbytes else length c.unread) c.sbytes
      c.unread stream (ground arith) (ground arith)

received-kept :
    (c : Conn) (bytes stream : List ℕ)
    → c.unread ≡ []
    → 0 < length bytes
    → length bytes ≤ c.sbytes
    → kept (read_swallowed (received bytes) true c).0 stream ≡ kept c (bytes ++ stream)
unfolding read_swallowed
received-kept c [] stream e h k = elim h [ ]
received-kept c (b ∷ bytes) stream e h k = rw e (drop-front c.sbytes (b ∷ bytes) stream k)

blocked-kept :
    (c : Conn) (stream : List ℕ)
    → kept (read_swallowed read_would_block true c).0 stream ≡ kept c stream
unfolding read_swallowed no_data
blocked-kept c stream = refl

step-kept : {c d : Conn} {s t : List ℕ} → SwallowStep c s d t → kept d t ≡ kept c s
unfolding step_by
step-kept (finished c stream r h) = rw (swallow-by r c true _ (ground (arith, h)) refl) refl
step-kept (buffered c stream r h k) =
    rw (swallow-by r c false true (ground (arith, h)) (ground (arith, k))) (skip-kept c stream)
step-kept (arrived c bytes stream e h k) =
    let q : ltb 0 (length c.unread) ≡ false = ap (λ u. ltb 0 (length u)) e in
    rw (swallow-by (received bytes) c false false (ground (arith, h, k)) q)
      (received-kept c bytes stream e h k)
step-kept (blocked c stream h e) =
    let q : ltb 0 (length c.unread) ≡ false = ap (λ u. ltb 0 (length u)) e in
    rw (swallow-by read_would_block c false false (ground (arith, h)) q) (blocked-kept c stream)

steps-kept : {c d : Conn} {s t : List ℕ} → SwallowSteps c s d t → kept d t ≡ kept c s
steps-kept (here c stream) = refl
steps-kept (next a rest) = steps-kept rest ∙ step-kept a

-- Over any sequence of rounds of CONN_SWALLOW in which the socket delivers the stream in pieces
-- or would block, once no byte is left to swallow, exactly that many bytes are gone from what was
-- buffered and from the stream.
pub swallow-kept :
    (c d : Conn) (s t : List ℕ)
    → SwallowSteps c s d t
    → d.sbytes ≡ 0
    → d.unread ++ t ≡ drop c.sbytes (c.unread ++ s)
swallow-kept c d s t run e = ap (λ n. drop n (d.unread ++ t)) (sym e) ∙ steps-kept run
