-- ===== src/Conn/Room.antt =====
-- conn_ensure_iov_space: what making room keeps.
use twemcache.Base.{
  ◌≤◌, ℕ, ◌+◌, ◌*◌, ◌<◌, ◌≡◌, refl, Bool, true, false, Bool-cases, inl, inr, leb, arith,
}
use twemcache.Conn.{Conn, repoint, on_ok, conn_ensure_iov_space}
use twemcache.Conn.Bytes.{IsValid, repoint_lem, IsValid-resize}

-- What making room does: nothing to the messages.
abbrev pub Kept : Conn → Conn → Type 0
Kept c t =
    IsValid t
    × (t.iov ≡ c.iov)
    × (t.msg ≡ c.msg)
    × (t.msg_used ≡ c.msg_used)
    × (t.iov_used ≡ c.iov_used)
    × (t.msg_bytes ≡ c.msg_bytes)
    × (t.udp ≡ c.udp)

-- The last request for a larger array was refused, and it came after the first `before` ones.
abbrev pub Refused : (ℕ → Bool) → ℕ → Conn → Type 0
Refused grants before t = (n : ℕ) × (before ≤ n) × (t.reallocs ≡ n + 1) × (grants n ≡ false)

abbrev pub Roomy : (ℕ → Bool) → Conn → Conn × Bool → Type 0
Roomy grants c (t, false) = Kept c t × Refused grants c.reallocs t
Roomy grants c (t, true) = Kept c t × (t.iov_used < t.iov_size) × (c.reallocs ≤ t.reallocs)

module _ (grants : ℕ → Bool) where
  pub ensure-Roomy : (c : Conn) → IsValid c → Roomy grants c (conn_ensure_iov_space grants c)
  unfolding conn_ensure_iov_space
  ensure-Roomy c v = elim (Bool-cases (leb c.iov_size c.iov_used)) [
    | inl full ↦ rw full (grown (grants c.reallocs) (ground arith) refl)
    | inr room ↦ rw room ((v, refl, refl, refl, refl, refl, refl), ground arith, omega arith)
  ]
    where
      grown :
          (b : Bool)
          → c.iov_size ≡ c.iov_used
          → grants c.reallocs ≡ b
          → Roomy grants c (
              on_ok
                (record c { reallocs = c.reallocs + 1 }, b)
                (λ c'. (c', false))
                (λ c'. (
                  record c' { iov_size = c'.iov_size * 2; msg = repoint c'.msg_used 0 0 c'.msg },
                  true,
                )))
      grown false e refused = (
        (
          IsValid-resize c _ v refl refl refl (omega arith) (omega arith),
          refl,
          refl,
          refl,
          refl,
          refl,
          refl,
        ),
        (c.reallocs, omega arith, refl, refused),
      )
      grown true e granted =
          rw (repoint_lem c.msg_used 0 c.msg (λ i h. v.windows i (omega arith))) (
            (
              IsValid-resize c _ v refl refl refl (omega arith) (omega arith),
              refl,
              refl,
              refl,
              refl,
              refl,
              refl,
            ),
            omega (arith, v.iov_some, e),
            omega arith,
          )
