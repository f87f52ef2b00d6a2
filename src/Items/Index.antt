-- ===== src/Items/Index.antt =====
-- What the commands see of the store: the index from keys to items, and what linking, unlinking and
-- releasing an item do to it.
use twemcache.Base.{
  ℕ, ◌+◌, ◌^◌, ◌≡◌, refl, ◌∙◌, fun_ext, Bool, true, false, Option, none, some, ◌==◌, if◌then◌else◌,
  arith, key_eq, Bool-cases, inl, inr, ◌<◌,
}
use twemcache.Assoc
use twemcache.Assoc.{Key}
use twemcache.Assoc.Find.{find-insert, find-delete, power-delete}
use twemcache.Assoc.Inv
use twemcache.Assoc.Inv.{insert-IsValid, delete-IsValid}
use twemcache.Store.{Item, Settings, Env, Store, set_item, key_of}
use twemcache.Link.{
  item_acquire_refcount, item_release_refcount, item_link_q, item_unlink_q, slab_lruq_touch,
  clear_linked, assoc_delete, item_reuse,
}
use twemcache.Slabs.{slab_put_item}
use twemcache.Items.{item_link, item_unlink, item_remove, item_free, item_fresh_cas, assoc_insert}

module _ (hash : Key → ℕ) where
  -- assoc_find on the store.
  abbrev pub index : Store → Key → Option ℕ
  index s key = Assoc.find hash (key_of s) s.assoc key

  abbrev pub HasIndex : Store → Type 0
  HasIndex s = Assoc.Inv.IsValid hash (key_of s) s.assoc

-- The keys and the hash table of two stores are the same.
pub record SameIndex (s t : Store) : Type 0 where
  pub keys : key_of t ≡ key_of s
  pub table : t.assoc ≡ s.assoc

pub key_of-set :
    (s : Store) (p : ℕ) (it : Item) → it.key ≡ key_of s p → key_of (set_item s p it) ≡ key_of s
key_of-set s p it e = fun_ext λ q. ground arith

put-SameIndex : (s : Store) (it : ℕ) → SameIndex s (slab_put_item s it)
unfolding slab_put_item
put-SameIndex s it = record { keys = key_of-set s it _ refl; table = refl }

release-SameIndex : (s : Store) (it : ℕ) → SameIndex s (item_release_refcount s it)
unfolding item_release_refcount
release-SameIndex s it = record { keys = key_of-set s it _ refl; table = refl }

pub acquire-SameIndex : (s : Store) (it : ℕ) → SameIndex s (item_acquire_refcount s it)
unfolding item_acquire_refcount
acquire-SameIndex s it = record { keys = key_of-set s it _ refl; table = refl }

trans-SameIndex : {s t u : Store} → SameIndex s t → SameIndex t u → SameIndex s u
trans-SameIndex p q = record { keys = q.keys ∙ p.keys; table = q.table ∙ p.table }

refl-SameIndex : (s : Store) → SameIndex s s
refl-SameIndex s = record { keys = refl; table = refl }

maybe_freed :
    {s t : Store}
    → SameIndex s t
    → (it : ℕ) (b : Bool) → SameIndex s (if b then item_free t it else t)
unfolding item_free
maybe_freed p it true = trans-SameIndex p (put-SameIndex _ it)
maybe_freed p it false = p

pub remove-SameIndex : (s : Store) (it : ℕ) → SameIndex s (item_remove s it)
unfolding item_remove
remove-SameIndex s it = maybe_freed (released (s.items it).refcount) it _
  where
    released : (n : ℕ) → SameIndex s (if n == 0 then s else item_release_refcount s it)
    released n = elim (Bool-cases (n == 0)) [
      | inl e ↦ rw e (refl-SameIndex s)
      | inr e ↦ rw e (release-SameIndex s it)
    ]

touch-SameIndex :
    (cfg : Settings) (s : Store) (slab : ℕ) (allocated : Bool)
    → SameIndex s (slab_lruq_touch cfg s slab allocated)
unfolding slab_lruq_touch
touch-SameIndex cfg s slab allocated = record { keys = ground arith; table = ground arith }

link_q-SameIndex :
    (cfg : Settings) (s : Store) (it : ℕ) (allocated : Bool)
    → SameIndex s (item_link_q cfg s it allocated)
unfolding item_link_q
link_q-SameIndex cfg s it allocated =
    trans-SameIndex (record { keys = key_of-set s it _ refl; table = refl })
      (touch-SameIndex cfg _ _ allocated)

fresh_cas-SameIndex : (cfg : Settings) (s : Store) (it : ℕ) → SameIndex s (item_fresh_cas cfg s it)
unfolding item_fresh_cas
fresh_cas-SameIndex cfg s it = record { keys = fun_ext λ q. ground arith; table = ground arith }

module _ (hash : Key → ℕ) where
  -- Equal keys and tables give one index, and one invariant.
  pub index-same : {s t : Store} → SameIndex s t → (key : Key) → index hash t key ≡ index hash s key
  index-same p key = rw (p.keys, p.table)

  pub HasIndex-same : {s t : Store} → SameIndex s t → HasIndex hash s → HasIndex hash t
  HasIndex-same p h = rw (p.keys, p.table) h

module _ (hash : Key → ℕ) (cfg : Settings) (env : Env) where
  before_insert : Store → ℕ → Store
  before_insert s it = item_fresh_cas cfg (set_item s it (record (s.items it) { linked = true })) it

  before-SameIndex : (s : Store) (it : ℕ) → SameIndex s (before_insert s it)
  unfolding before_insert
  before-SameIndex s it =
      trans-SameIndex (record { keys = key_of-set s it _ refl; table = refl })
        (fresh_cas-SameIndex cfg _ it)

  index-insert :
      (s : Store) (it : ℕ) (key : Key)
      → index hash (assoc_insert hash cfg env s it) key
        ≡ (if key_eq key (key_of s it) then some it else index hash s key)
  unfolding assoc_insert
  index-insert s it key = find-insert hash (key_of s) cfg.hash_power _ s.assoc it key

  -- _item_link enters the item into the index under its key, and changes nothing else there.
  pub index-link :
      (s : Store) (it : ℕ) (key : Key)
      → index hash (item_link hash cfg env s it) key
        ≡ (if key_eq key (key_of s it) then some it else index hash s key)
  unfolding item_link before_insert
  index-link s it key =
      index-same hash
        (link_q-SameIndex cfg (assoc_insert hash cfg env (before_insert s it) it) it true) key
      ∙ index-insert (before_insert s it) it key
      ∙ rw ((before-SameIndex s it).keys, (before-SameIndex s it).table) refl

  -- It keeps the index well formed, if the key is new and the table's next size fits in 32 bits.
  pub link-HasIndex :
      (s : Store) (it : ℕ)
      → HasIndex hash s
      → index hash s (key_of s it) ≡ none
      → 2 ^ (s.assoc.hash_power + 1) < 2 ^ 32
      → HasIndex hash (item_link hash cfg env s it)
  unfolding item_link before_insert assoc_insert
  link-HasIndex s it h absent fits =
      HasIndex-same hash
        (link_q-SameIndex cfg (assoc_insert hash cfg env (before_insert s it) it) it true)
        (insert-IsValid hash (key_of (before_insert s it)) cfg.hash_power _
          (before_insert s it).assoc it (HasIndex-same hash (before-SameIndex s it) h)
          (rw ((before-SameIndex s it).keys, (before-SameIndex s it).table) absent)
          (rw (before-SameIndex s it).table fits))

module _ (hash : Key → ℕ) where
  cut : Store → ℕ → Store
  cut s it = assoc_delete hash (clear_linked s it) it

  index-cut :
      (s : Store) (it : ℕ) (key : Key)
      → HasIndex hash s
      → index hash (cut s it) key ≡ (if key_eq key (key_of s it) then none else index hash s key)
  unfolding cut
  index-cut s it key h =
      rw (key_of-set s it (record (s.items it) { linked = false }) refl)
        (find-delete hash (key_of s) s.assoc (key_of s it) key (h.distinct _))

  unlinked-SameIndex :
      (s : Store) (it : ℕ)
      → (s.items it).linked ≡ true
      → SameIndex (cut s it) (item_unlink hash s it)
  unfolding item_unlink cut item_unlink_q
  unlinked-SameIndex s it e = rw e (maybe_freed (record { keys = refl; table = refl }) it (_ == 0))

  -- _item_unlink takes the item's key out of the index, if the item is linked.
  pub index-unlink :
      (s : Store) (it : ℕ) (key : Key)
      → HasIndex hash s
      → (s.items it).linked ≡ true
      → index hash (item_unlink hash s it) key
        ≡ (if key_eq key (key_of s it) then none else index hash s key)
  index-unlink s it key h e = index-same hash (unlinked-SameIndex s it e) key ∙ index-cut s it key h

  cut-HasIndex : (s : Store) (it : ℕ) → HasIndex hash s → HasIndex hash (cut s it)
  unfolding cut
  cut-HasIndex s it h =
      rw (key_of-set s it (record (s.items it) { linked = false }) refl)
        (delete-IsValid hash (key_of s) s.assoc (key_of s it) h)

  pub unlink-HasIndex :
      (s : Store) (it : ℕ)
      → HasIndex hash s
      → (s.items it).linked ≡ true
      → HasIndex hash (item_unlink hash s it)
  unlink-HasIndex s it h e = HasIndex-same hash (unlinked-SameIndex s it e) (cut-HasIndex s it h)

  pub keys-unlink : (s : Store) (it : ℕ) → key_of (item_unlink hash s it) ≡ key_of s
  unfolding item_unlink item_unlink_q item_free slab_put_item
  keys-unlink s it = fun_ext λ q. ground arith

  pub power-unlink :
      (s : Store) (it : ℕ) → (item_unlink hash s it).assoc.hash_power ≡ s.assoc.hash_power
  power-unlink s it = elim (Bool-cases (s.items it).linked) [
    | inl e ↦ rw (unlinked-SameIndex s it e).table (unfold cut in power-delete hash _ s.assoc _)
    | inr e ↦ unfold item_unlink in rw e
  ]

  -- item_reuse takes the item's key out of the index.
  pub index-reuse :
      (s : Store) (it : ℕ) (key : Key)
      → HasIndex hash s
      → index hash (item_reuse hash s it) key
        ≡ (if key_eq key (key_of s it) then none else index hash s key)
  unfolding item_reuse cut item_unlink_q
  index-reuse s it key h = index-cut s it key h

  pub reuse-HasIndex : (s : Store) (it : ℕ) → HasIndex hash s → HasIndex hash (item_reuse hash s it)
  unfolding item_reuse cut item_unlink_q
  reuse-HasIndex s it h = cut-HasIndex s it h
