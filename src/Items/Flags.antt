-- ===== src/Items/Flags.antt =====
-- What the control flags of an item do not change: a key that has a live item with room for a user.
use twemcache.Assoc.{Key}
use twemcache.Base.{ℕ, ◌≡◌, refl, ap, sym, subst, fun_ext, ◌∙◌, Option, none, some, arith}
use twemcache.Items.{set_dataflags, is_stale, item_remove}
use twemcache.Items.Fetch.{fresh, live}
use twemcache.Items.Index.{index, index-same, SameIndex}
use twemcache.Items.Linked.{IsReady, IsReady-same, links}
use twemcache.Items.Refs.{HasRoom, remove-acquire}
use twemcache.Link.{item_acquire_refcount, item_2_slab}
use twemcache.Store.{Store}

-- The key has the live item `it`, which can take one more user.
pub record Served (hash : Key → ℕ) (key : Key) (it : ℕ) (s : Store) : Type 0 where
  pub ready : IsReady hash s
  pub hit : live hash s key ≡ some it
  pub room : HasRoom s it

module _ (s : Store) (it flags : ℕ) where
  flags-SameIndex : SameIndex s (set_dataflags s it flags)
  flags-SameIndex = record { keys = fun_ext λ q. ground arith; table = refl }

  flags-links : (q : ℕ) → links (set_dataflags s it flags) q ≡ links s q
  flags-links q = ground arith

  flags-stale : (q : ℕ) → is_stale (set_dataflags s it flags) q ≡ is_stale s q
  unfolding is_stale
  flags-stale q = ground arith

  flags-fresh :
      (hash : Key → ℕ) (o : Option ℕ) → fresh hash (set_dataflags s it flags) o ≡ fresh hash s o
  flags-fresh hash none = refl
  flags-fresh hash (some q) = rw (flags-stale q) refl

  flags-HasRoom : HasRoom s it → HasRoom (set_dataflags s it flags) it
  unfolding item_2_slab
  flags-HasRoom h = record {
    item_room = ground (arith, h.item_room);
    slab_room = ground (arith, h.slab_room);
  }

  pub flags-acquire :
      set_dataflags (item_acquire_refcount s it) it flags
      ≡ item_acquire_refcount (set_dataflags s it flags) it
  unfolding item_acquire_refcount item_2_slab
  flags-acquire =
      λ i. record (set_dataflags s it flags) { items = same_items i; slabs = same_slabs i }
    where
      same_items :
          (set_dataflags (item_acquire_refcount s it) it flags).items
          ≡ (item_acquire_refcount (set_dataflags s it flags) it).items
      same_items = fun_ext λ q. ground arith

      same_slabs :
          (set_dataflags (item_acquire_refcount s it) it flags).slabs
          ≡ (item_acquire_refcount (set_dataflags s it flags) it).slabs
      same_slabs = fun_ext λ q. ground arith

  pub flags-Served :
      (hash : Key → ℕ) (key : Key)
      → Served hash key it s
      → Served hash key it (set_dataflags s it flags)
  flags-Served hash key r = record {
    ready = IsReady-same hash s (set_dataflags s it flags) flags-SameIndex flags-links r.ready;
    hit =
        flags-fresh hash (index hash (set_dataflags s it flags) key)
        ∙ rw (index-same hash flags-SameIndex key) r.hit;
    room = flags-HasRoom r.room;
  }

module _ (hash : Key → ℕ) (key : Key) (it : ℕ) where
  fresh-is_it : (s : Store) (o : Option ℕ) → fresh hash s o ≡ some it → o ≡ some it
  fresh-is_it s none e = e
  fresh-is_it s (some q) e = ground (arith, e)

  -- One more user, who leaves again, changes nothing.
  pub remove-acquired :
      (s : Store) → Served hash key it s → item_remove (item_acquire_refcount s it) it ≡ s
  remove-acquired s r =
      remove-acquire s it r.room (r.ready.linked key it (fresh-is_it s (index hash s key) r.hit))

  -- The flags of the item are set between a get and the remove.
  pub remove-flagged :
      (s : Store) (flags : ℕ)
      → Served hash key it s
      → Served hash key it (item_remove (set_dataflags (item_acquire_refcount s it) it flags) it)
  remove-flagged s flags r =
      let kept = flags-Served s it flags hash key r in
      subst (λ x. Served hash key it x)
        (sym (
          ap (λ x. item_remove x it) (flags-acquire s it flags)
          ∙ remove-acquired (set_dataflags s it flags) kept))
        kept
