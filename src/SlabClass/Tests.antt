-- ===== src/SlabClass/Tests.antt =====
-- Tests of slab_id, and its theorem at a concrete profile.
use Prim.Native.Nat.{◌*◌}
use twemcache.Base.{ℕ, ◌≡◌, refl, arith, some}
use twemcache.SlabClass.{search, slab_id, min_id}
use twemcache.SlabClass.Search.{Fits, slab_id-Fits}

-- Chunks of 100, 200, … bytes.
abbrev sizes : ℕ → ℕ
sizes id = 100 * id

smallest : slab_id sizes 4 201 ≡ 3
unfolding slab_id search
smallest = refl

too_large : slab_id sizes 4 401 ≡ 255
unfolding slab_id search
too_large = refl

slab_id-Fits_example :
    (search sizes 201 256 min_id 4 ≡ some (slab_id sizes 4 201))
    × Fits sizes 4 201 (slab_id sizes 4 201)
slab_id-Fits_example = slab_id-Fits sizes 4 201 (omega arith) (λ i j lo lt hi. omega arith)
