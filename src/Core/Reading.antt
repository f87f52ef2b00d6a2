-- ===== src/Core/Reading.antt =====
-- The state CONN_NREAD against the stream of the client's bytes, however it is cut into reads.
use mathlib.Core.List.{append_assoc, append-nil}
use twemcache.Base.{
  drop, ℕ, ◌+◌, ◌-◌, ◌≤◌, ◌<◌, ◌≡◌, refl, sym, ap, ◌∙◌, true, false, Bool-cases, inl, inr, subst,
  List, [], ◌∷◌, ◌++◌, ltb, ◌==◌, if◌then◌else◌, arith, length,
}
use twemcache.Conn.{Conn, take}
use twemcache.Core.Slices.{
  take-split, drop-split, drop-length, take-front, drop-front, take-drop, length-take,
}
use twemcache.Core.{
  ReadResult, received, read_would_block, take_leftovers, no_data, read_value, nread_step,
}

-- One round of CONN_NREAD, where the socket delivers the front of the stream. `stream` is what the
-- client has sent and the server has not read.
pub data NreadStep : Conn → List ℕ → Conn → List ℕ → Type 0 where
  buffered :
      (c : Conn) (stream : List ℕ) (r : ReadResult)
      → (take_leftovers c).rlbytes ≡ 0
      → NreadStep c stream (nread_step r true c).0 stream
  arrived :
      (c : Conn) (bytes stream : List ℕ)
      → 0 < length bytes
      → length bytes ≤ (take_leftovers c).rlbytes
      → NreadStep c (bytes ++ stream) (nread_step (received bytes) true c).0 stream
  blocked :
      (c : Conn) (stream : List ℕ)
      → 0 < (take_leftovers c).rlbytes
      → NreadStep c stream (nread_step read_would_block true c).0 stream

pub data NreadSteps : Conn → List ℕ → Conn → List ℕ → Type 0 where
  here : (c : Conn) (stream : List ℕ) → NreadSteps c stream c stream
  next :
      {c d e : Conn} {s t u : List ℕ} → NreadStep c s d t → NreadSteps d t e u → NreadSteps c s e u

-- The block that is read in the end, and what comes behind it in the stream.
abbrev pub whole : Conn → List ℕ → List ℕ
whole c stream = c.nread ++ take c.rlbytes (c.unread ++ stream)

abbrev pub behind : Conn → List ℕ → List ℕ
behind c stream = drop c.rlbytes (c.unread ++ stream)

-- What goes to the value is bounded by both sides.
abbrev copies : ℕ → ℕ → ℕ
copies n have = if ltb n have then n else have

copies_le : (n have : ℕ) → copies n have ≤ n
copies_le n have = ground arith

copies_le_have : (n have : ℕ) → copies n have ≤ have
copies_le_have n have = ground arith

-- The leftovers of the read buffer.
leftovers-whole : (c : Conn) (stream : List ℕ) → whole (take_leftovers c) stream ≡ whole c stream
unfolding take_leftovers
leftovers-whole c stream =
    append_assoc c.nread _ _
    ∙ ap (λ b. c.nread ++ b)
        (take-split (copies c.rlbytes (length c.unread)) c.rlbytes c.unread stream
          (copies_le c.rlbytes (length c.unread)) (copies_le_have c.rlbytes (length c.unread)))

leftovers-behind : (c : Conn) (stream : List ℕ) → behind (take_leftovers c) stream ≡ behind c stream
unfolding take_leftovers
leftovers-behind c stream =
    drop-split (copies c.rlbytes (length c.unread)) c.rlbytes c.unread stream
      (copies_le c.rlbytes (length c.unread)) (copies_le_have c.rlbytes (length c.unread))

-- Once the buffer has no more to give, it is empty.
leftovers-empty : (c : Conn) → 0 < (take_leftovers c).rlbytes → (take_leftovers c).unread ≡ []
unfolding take_leftovers
leftovers-empty c h = elim (Bool-cases (ltb c.rlbytes (length c.unread))) [
  | inl more ↦ ground (arith, h, more)
  | inr all ↦ rw all (drop-length c.unread)
]

-- What a round keeps, and the most it leaves to read.
abbrev Kept : Conn → List ℕ → Conn → List ℕ → Type 0
Kept c s d t = (whole d t ≡ whole c s) × (behind d t ≡ behind c s) × (d.state ≡ c.state)

arrived-Kept :
    (c : Conn) (bytes stream : List ℕ)
    → 0 < length bytes
    → length bytes ≤ c.rlbytes
    → c.unread ≡ []
    → Kept c (bytes ++ stream) (read_value (received bytes) true c).0 stream
unfolding read_value
arrived-Kept c [] stream h k e = elim h [ ]
arrived-Kept c (b ∷ bytes) stream h k e = rw e (
  append_assoc c.nread (b ∷ bytes) _
      ∙ ap (λ r. c.nread ++ r) (take-front c.rlbytes (b ∷ bytes) stream k),
  drop-front c.rlbytes (b ∷ bytes) stream k,
  refl,
)

nread-buffered :
    (r : ReadResult) (c : Conn)
    → (take_leftovers c).rlbytes ≡ 0
    → nread_step r true c ≡ (take_leftovers c, false)
unfolding nread_step
nread-buffered r c e =
    let q : ((take_leftovers c).rlbytes == 0) ≡ true = ground (arith, e) in
    ap (λ b. if b then (take_leftovers c, false) else read_value r true (take_leftovers c)) q

nread-reads :
    (r : ReadResult) (c : Conn)
    → 0 < (take_leftovers c).rlbytes
    → nread_step r true c ≡ read_value r true (take_leftovers c)
unfolding nread_step
nread-reads r c h =
    let q : ((take_leftovers c).rlbytes == 0) ≡ false = ground (arith, h) in
    ap (λ b. if b then (take_leftovers c, false) else read_value r true (take_leftovers c)) q

leftovers-state : (c : Conn) → (take_leftovers c).state ≡ c.state
unfolding take_leftovers
leftovers-state c = refl

leftovers-Kept : (c : Conn) (stream : List ℕ) → Kept c stream (take_leftovers c) stream
leftovers-Kept c stream = (leftovers-whole c stream, leftovers-behind c stream, leftovers-state c)

blocked-Kept :
    (c d : Conn) (stream : List ℕ)
    → Kept c stream d stream
    → Kept c stream (read_value read_would_block true d).0 stream
unfolding read_value no_data
blocked-Kept c d stream k = k

step-Kept : {c d : Conn} {s t : List ℕ} → NreadStep c s d t → Kept c s d t
step-Kept (buffered c stream r e) = rw (nread-buffered r c e) (leftovers-Kept c stream)
step-Kept (arrived c bytes stream h k) =
    let room : 0 < (take_leftovers c).rlbytes = omega (arith, h, k) in
    let (w, b, q) = arrived-Kept (take_leftovers c) bytes stream h k (leftovers-empty c room) in
    let (w', b', q') = leftovers-Kept c (bytes ++ stream) in
    rw (nread-reads (received bytes) c room) (w ∙ w', b ∙ b', q ∙ q')
step-Kept (blocked c stream h) =
    rw (nread-reads read_would_block c h)
      (blocked-Kept c (take_leftovers c) stream (leftovers-Kept c stream))

steps-Kept : {c d : Conn} {s t : List ℕ} → NreadSteps c s d t → Kept c s d t
steps-Kept (here c stream) = (refl, refl, refl)
steps-Kept (next a rest) =
    let (w, b, q) = step-Kept a in let (w', b', q') = steps-Kept rest in (w' ∙ w, b' ∙ b, q' ∙ q)

-- Over any sequence of rounds of CONN_NREAD in which the socket delivers the stream in pieces or
-- would block, once no byte of the block is missing, the block is the next bytes of what was
-- buffered and of the stream, in order, and what is then buffered and left of the stream is the
-- rest.
pub nread-whole :
    (c d : Conn) (s t : List ℕ)
    → NreadSteps c s d t
    → d.rlbytes ≡ 0
    → (d.nread ≡ c.nread ++ take c.rlbytes (c.unread ++ s))
      × (d.unread ++ t ≡ drop c.rlbytes (c.unread ++ s))
      × (d.state ≡ c.state)
nread-whole c d s t run e =
    let (w, b, q) = steps-Kept run in
    (
      sym (append-nil d.nread) ∙ ap (λ n. d.nread ++ take n (d.unread ++ t)) (sym e) ∙ w,
      ap (λ n. drop n (d.unread ++ t)) (sym e) ∙ b,
      q,
    )

arrived-left :
    (c : Conn) (bytes : List ℕ)
    → 0 < length bytes
    → (read_value (received bytes) true c).0.rlbytes ≡ c.rlbytes - length bytes
unfolding read_value
arrived-left c [] h = elim h [ ]
arrived-left c (b ∷ bytes) h = refl

leftovers-short :
    (c : Conn)
    → 0 < (take_leftovers c).rlbytes
    → (take_leftovers c).rlbytes + length c.unread ≡ c.rlbytes
unfolding take_leftovers
leftovers-short c h = ground (arith, h)

-- Whether the block can be completed, and where that leads.
abbrev pub Completes : Conn → List ℕ → Type 0
Completes c s = (d : Conn) × (t : List ℕ) × NreadSteps c s d t × (d.rlbytes ≡ 0)

-- If the client has sent as many bytes as the block lacks, there are rounds of CONN_NREAD after
-- which none is missing.
pub nread-Completes :
    (c : Conn) (s : List ℕ) → c.rlbytes ≤ length c.unread + length s → Completes c s
nread-Completes c s h = elim (Bool-cases ((take_leftovers c).rlbytes == 0)) [
  | inl none_left ↦
      let e : (take_leftovers c).rlbytes ≡ 0 = ground (arith, none_left) in
      (
        _,
        s,
        next (buffered c s (received []) e) (here _ _),
        rw (nread-buffered (received []) c e) e,
      )
  | inr some_left ↦
      arriving (take_leftovers c).rlbytes refl (ground (arith, some_left))
        (short (ground (arith, some_left)))
]
  where
    short : 0 < (take_leftovers c).rlbytes → (take_leftovers c).rlbytes ≤ length s
    short l = omega (arith, h, leftovers-short c l)

    drained :
        (n : ℕ)
        → (take_leftovers c).rlbytes ≡ n
        → n ≤ length s
        → 0 < n
        → (nread_step (received (take n s)) true c).0.rlbytes ≡ 0
    drained n e k l = rw (nread-reads (received (take n s)) c (omega (arith, e, l))) (
        arrived-left (take_leftovers c) (take n s) (omega (arith, length-take n s k, l))
        ∙ omega (arith, e, length-take n s k))

    arriving : (n : ℕ) → (take_leftovers c).rlbytes ≡ n → 0 < n → n ≤ length s → Completes c s
    arriving n e l k =
        subst (λ s'. Completes c s') (take-drop n s)
          (
            _,
            drop n s,
            next
                (arrived c (take n s) (drop n s) (omega (arith, length-take n s k, l))
                  (omega (arith, length-take n s k, e)))
                (here _ _),
            drained n e k l,
          )
