-- ===== src/Cache.antt =====
-- src/mc_cache.c: a pool of free buffers of one size, in a stack that doubles when it is full. A
-- buffer is its address; whether the C library grants memory is an argument, as is the address that
-- it gives.
pub mod Pool
use twemcache.Base.{
  ℕ, ◌+◌, ◌-◌, ◌*◌, Bool, true, false, Option, none, some, ltb, if◌then◌else◌, update,
}

-- `ptr` is an array of `freetotal` places, the first `freecurr` in use.
pub record Cache : Type 0 where
  pub ptr : ℕ → ℕ
  pub bufsize : ℕ
  pub freetotal : ℕ
  pub freecurr : ℕ

abbrev pub initial_pool_size : ℕ
initial_pool_size = 64

-- cache_create, where the memory and the mutex are granted; calloc zeroes `ptr`.
pub cache_create : ℕ → Cache
cache_create bufsize = record {
  ptr = λ i. 0;
  bufsize = bufsize;
  freetotal = initial_pool_size;
  freecurr = 0;
}

-- The top of the stack, if it is not empty.
pub take_free : Cache → Cache × ℕ
take_free c = (record c { freecurr = c.freecurr - 1 }, c.ptr (c.freecurr - 1))

-- cache_alloc: `fresh` is what mc_alloc would answer, and the flag says whether it was called.
unfoldable pub cache_alloc : Option ℕ → Cache → Cache × Option ℕ × Bool
unfolding take_free
cache_alloc fresh c =
    if ltb 0 c.freecurr
    then (let (c', object) = take_free c in (c', some object, false))
    else (c, fresh, true)

-- cache->ptr[cache->freecurr++] = buf
pub put_free : Cache → ℕ → Cache
put_free c buf = record c { ptr = update c.ptr c.freecurr buf; freecurr = c.freecurr + 1 }

-- cache_free: `grows` is whether mc_realloc would succeed. The result says whether the buffer was
-- given back to the C library.
pub cache_free : Bool → Cache → ℕ → Cache × Bool
unfolding put_free
cache_free grows c buf =
    if ltb c.freecurr c.freetotal
    then (put_free c buf, false)
    else if grows
    then (put_free (record c { freetotal = c.freetotal * 2 }) buf, false)
    else (c, true)
