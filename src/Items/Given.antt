-- ===== src/Items/Given.antt =====
-- The item that _item_alloc gives: it carries what was asked for, is not linked, and has one more
-- reference than it had.
use twemcache.Assoc.{Key}
use twemcache.Base.{
  ℕ, ◌≡◌, true, false, Bool-cases, inl, inr, Option, none, some, if◌then◌else◌, arith,
}
use twemcache.Items.{Request, item_alloc, alloc_done, item_set_cas, item_get_from_lruq}
use twemcache.Link.{item_expired, item_reuse}
use twemcache.Slabs.{slab_get_item}
use twemcache.Store.{Settings, Env, Store, on_null}

-- What is known of the item at the address that a call returned.
abbrev pub Given : Request → Store × Option ℕ → Type 0
Given req (s, none) = Unit
Given req (s, some it) =
    ((s.items it).key ≡ req.key)
    × ((s.items it).nbyte ≡ req.nbyte)
    × ((s.items it).dataflags ≡ req.dataflags)
    × ((s.items it).exptime ≡ req.exptime)
    × ((s.items it).linked ≡ false)

module _ (cfg : Settings) (req : Request) where
  alloc_done-Given : (s : Store) (it : ℕ) → Given req (alloc_done cfg s it req, some it)
  unfolding alloc_done item_set_cas
  alloc_done-Given s it = ground arith

pub set_cas-Given :
    (s : Store) (it n : ℕ) (req : Request)
    → Given req (s, some it)
    → Given req (item_set_cas s it n, some it)
unfolding item_set_cas
set_cas-Given s it n req (k, b, d, x, l) = ground (arith, k, b, d, x, l)

-- An item with a cas has the one that it was given.
pub set_cas-cas :
    (s : Store) (it n : ℕ)
    → ((item_set_cas s it n).items it).has_cas ≡ true
    → ((item_set_cas s it n).items it).cas ≡ n
unfolding item_set_cas
set_cas-cas s it n h = ground (arith, h)

module _ (hash : Key → ℕ) (cfg : Settings) (env : Env) (req : Request) where
  slab-Given :
      (uit : Option ℕ) (r : Store × Option ℕ)
      → Given req (
          on_null r
            (λ s'. elim uit [
              | none ↦ (s', none)
              | some it ↦ (alloc_done cfg (item_reuse hash s' it) it req, some it)
            ])
            (λ s' it. (alloc_done cfg s' it req, some it)))
  slab-Given none (s, none) = tt
  slab-Given (some it) (s, none) = alloc_done-Given cfg req (item_reuse hash s it) it
  slab-Given uit (s, some it) = alloc_done-Given cfg req s it

  pub item_alloc-Given : (s : Store) (id : ℕ) → Given req (item_alloc hash cfg env s id req)
  unfolding item_alloc
  item_alloc-Given s id = chosen (item_get_from_lruq cfg s id)
    where
      from_slab : Option ℕ → Store × Option ℕ
      from_slab uit =
          on_null (slab_get_item hash cfg env s id)
            (λ s'. elim uit [
              | none ↦ (s', none)
              | some it ↦ (alloc_done cfg (item_reuse hash s' it) it req, some it)
            ])
            (λ s' it. (alloc_done cfg s' it req, some it))

      chosen :
          (o : Option ℕ)
          → Given req (elim o [
            | none ↦ from_slab none
            | some it ↦
                if item_expired s it
                then (alloc_done cfg (item_reuse hash s it) it req, some it)
                else from_slab (if cfg.evict_lru then some it else none)
          ])
      chosen none = slab-Given none (slab_get_item hash cfg env s id)
      chosen (some it) = elim (Bool-cases (item_expired s it)) [
        | inl e ↦ rw e (alloc_done-Given cfg req (item_reuse hash s it) it)
        | inr e ↦
            rw e (
              slab-Given (if cfg.evict_lru then some it else none)
                (slab_get_item hash cfg env s id))
      ]
