-- ===== src/Items/Refs.antt =====
-- Reference counts: a get and the matching remove cancel out.
use twemcache.Base.{
  ℕ, ◌≡◌, refl, ap, ◌∙◌, fun_ext, Bool, true, false, not, ◌&&◌, Option, none, some, update, ◌==◌,
  if◌then◌else◌, arith, Bool-cases, inl, inr, ◌-◌, ◌^◌, ◌<◌,
}
use twemcache.Assoc.{Key}
use twemcache.Store.{Store, incr16, decr16}
use twemcache.Link.{item_acquire_refcount, item_release_refcount, item_2_slab}
use twemcache.Items.{item_remove, item_get, item_found, is_stale}
use twemcache.Items.Index.{index}
use twemcache.Items.Linked.{IsReady, links}
use twemcache.Items.Fetch.{live, fresh}

update-restore {ℓ} :
    {A : Type ℓ} (f : ℕ → A) (p : ℕ) (u v : A) → v ≡ f p → update (update f p u) p v ≡ f
update-restore f p u v e = fun_ext λ q. ground (arith, e)

decr16-incr16 : (n : ℕ) → n < 2 ^ 16 → decr16 (incr16 n) ≡ n
decr16-incr16 n h = omega arith

-- Both counters have room for one more user.
pub record HasRoom (s : Store) (it : ℕ) : Type 0 where
  pub item_room : (s.items it).refcount < 2 ^ 16 - 1
  pub slab_room : (s.slabs (item_2_slab s it)).refcount < 2 ^ 16 - 1

slab_of-acquire :
    (s : Store) (it : ℕ) → item_2_slab (item_acquire_refcount s it) it ≡ item_2_slab s it
unfolding item_acquire_refcount item_2_slab
slab_of-acquire s it = ground arith

release-acquire :
    (s : Store) (it : ℕ) → HasRoom s it → item_release_refcount (item_acquire_refcount s it) it ≡ s
unfolding item_release_refcount item_acquire_refcount
release-acquire s it h = λ i. record s { items = same_items i; slabs = same_slabs i }
  where
    same_items : (item_release_refcount (item_acquire_refcount s it) it).items ≡ s.items
    same_items = update-restore s.items it _ _ (ground (arith, decr16-incr16 (s.items it).refcount))

    same_slabs : (item_release_refcount (item_acquire_refcount s it) it).slabs ≡ s.slabs
    same_slabs = rw (slab_of-acquire s it) (
        update-restore s.slabs (item_2_slab s it) _ _
          (ground (arith, decr16-incr16 (s.slabs (item_2_slab s it)).refcount)))

kept {ℓ} : {A : Type ℓ} (b : Bool) (x y : A) → (if b && not true then x else y) ≡ y
kept true x y = refl
kept false x y = refl

pub remove-acquire :
    (s : Store) (it : ℕ)
    → HasRoom s it
    → links s it ≡ true
    → item_remove (item_acquire_refcount s it) it ≡ s
unfolding item_remove
remove-acquire s it h l =
    rw used (rw (release-acquire s it h) (rw l (kept ((s.items it).refcount == 0) _ _)))
  where
    used : (((item_acquire_refcount s it).items it).refcount == 0) ≡ false
    used = unfold item_acquire_refcount in ground (arith, h.item_room)

item_found-hit :
    (hash : Key → ℕ) (s : Store) (p : ℕ)
    → is_stale s p ≡ false
    → item_found hash s (some p) ≡ (item_acquire_refcount s p, some p)
unfolding item_found
item_found-hit hash s p good = rw good

-- In a ready store, the get of a key with a live item takes a reference to it.
pub get-acquires :
    (hash : Key → ℕ) (s : Store) (key : Key) (it : ℕ)
    → live hash s key ≡ some it
    → item_get hash s key ≡ (item_acquire_refcount s it, some it)
unfolding item_get
get-acquires hash s key it e = found (index hash s key) e
  where
    found :
        (o : Option ℕ)
        → fresh hash s o ≡ some it
        → item_found hash s o ≡ (item_acquire_refcount s it, some it)
    found none f = cc
    found (some p) f = elim (Bool-cases (is_stale s p)) [
      | inl stale ↦ absurd (ground (arith, f, stale))
      | inr good ↦
          let same : p ≡ it = ground (arith, f, good) in
          item_found-hit hash s p good ∙ ap (λ x. (item_acquire_refcount s x, some x)) same
    ]

-- In a ready store, if the key has a live item and the counters of the item and of its slab have
-- room for one more user, then _item_get returns that item, and the item_remove of it gives back
-- exactly the store before.
pub remove-get :
    (hash : Key → ℕ) (s : Store) (key : Key) (it : ℕ)
    → IsReady hash s
    → live hash s key ≡ some it
    → HasRoom s it
    → ((item_get hash s key).1 ≡ some it) × (item_remove (item_get hash s key).0 it ≡ s)
unfolding item_get
remove-get hash s key it r e h = found (index hash s key) refl e
  where
    found :
        (o : Option ℕ)
        → index hash s key ≡ o
        → fresh hash s o ≡ some it
        → ((item_found hash s o).1 ≡ some it) × (item_remove (item_found hash s o).0 it ≡ s)
    found none i f = cc
    found (some p) i f = elim (Bool-cases (is_stale s p)) [
      | inl stale ↦ absurd (ground (arith, f, stale))
      | inr good ↦
          let same : p ≡ it = ground (arith, f, good) in
          rw (item_found-hit hash s p good)
            (ap some same, rw same (remove-acquire s it h (r.linked key it (i ∙ ap some same))))
    ]
