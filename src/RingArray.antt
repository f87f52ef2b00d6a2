-- ===== src/RingArray.antt =====
-- src/mc_ring_array.c: a ring of fixed capacity with one reader and one writer. Elements are copied
-- whole, so an element is a number; `data` is the function from slots to elements. Each of push and
-- pop is split where the other thread can interleave: at the snapshot it takes of the other's
-- position, and at the store of its own.
pub mod Queue
mod Tests
use twemcache.Base.{
  ℕ, zero, suc, ◌+◌, ◌-◌, ◌%◌, ◌^◌, Bool, Option, none, some, leb, ◌==◌, if◌then◌else◌, update,
}

pub record Ring : Type 0 where
  pub cap : ℕ
  pub rpos : ℕ
  pub wpos : ℕ
  pub slots : ℕ → ℕ

pub create : ℕ → (ℕ → ℕ) → Ring
create cap garbage = record { cap = cap; rpos = 0; wpos = 0; slots = garbage }

pub nelem : ℕ → ℕ → ℕ → ℕ
nelem rpos wpos cap = if leb rpos wpos then wpos - rpos else wpos + (cap - rpos + 1)

pub is_empty : ℕ → ℕ → Bool
is_empty rpos wpos = rpos == wpos

pub is_full : ℕ → ℕ → ℕ → Bool
unfolding nelem
is_full rpos wpos cap = nelem rpos wpos cap == cap

-- (pos + 1) % (cap + 1), on uint32_t.
pub next_pos : ℕ → ℕ → ℕ
next_pos pos cap = ((pos + 1) % 2 ^ 32) % ((cap + 1) % 2 ^ 32)

-- ring_array_push once it has read `rpos`; `none` is MC_ERROR.
pub push_at : ℕ → ℕ → Ring → Option Ring
unfolding is_full next_pos
push_at rpos elem arr =
    if is_full rpos arr.wpos arr.cap
    then none
    else some
        (record arr { slots = update arr.slots arr.wpos elem; wpos = next_pos arr.wpos arr.cap })

pub push : ℕ → Ring → Option Ring
unfolding push_at
push elem arr = push_at arr.rpos elem arr

-- ring_array_pop once it has read `wpos`: the element and the ring.
pub pop_at : ℕ → Ring → Option (ℕ × Ring)
unfolding is_empty next_pos
pop_at wpos arr =
    if is_empty arr.rpos wpos
    then none
    else some (arr.slots arr.rpos, record arr { rpos = next_pos arr.rpos arr.cap })

pub pop : Ring → Option (ℕ × Ring)
unfolding pop_at
pop arr = pop_at arr.wpos arr
