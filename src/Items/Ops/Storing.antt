-- ===== src/Items/Ops/Storing.antt =====
-- set, add, replace, cas and delete as operations on the index from keys to items.
use twemcache.Base.{
  ℕ, ◌≡◌, ◌≢◌, refl, ap, ◌∙◌, Bool, true, false, Option, none, some, ◌==◌, if◌then◌else◌, arith,
  key_eq, key_eq→eq, key_eq_refl, inl, inr, ◌+◌, ◌^◌, ◌<◌, ◌⊎◌,
}
use twemcache.Assoc.{Key}
use twemcache.Assoc.Find.{find-key}
use twemcache.Store.{Settings, Env, Store, key_of, on_null}
use twemcache.Items.{item_unlink, item_link, item_relink, item_remove, item_get_cas}
use twemcache.Items.Index.{
  index, index-unlink, index-link, index-same, remove-SameIndex, keys-unlink, power-unlink,
}
use twemcache.Items.Linked.{
  IsReady, links, links-remove, IsReady-same, IsReady-unlink, IsReady-link,
}
use twemcache.Items.Fetch.{live, Fetched, item_get-Fetched}
use twemcache.Items.Ops.{
  item_set, item_add, item_replace, item_cas, item_delete, CasResult, cas_ok, cas_exists,
  cas_not_found, AddResult, add_ok, add_exists, ReplaceResult, replace_ok, replace_not_found,
  DeleteResult, delete_ok, delete_not_found,
}

module _ (hash : Key → ℕ) where
  -- What a store has become, by its index.
  pub record Became (f : Key → Option ℕ) (t : Store) : Type 0 where
    pub ready : IsReady hash t
    pub indexes : (j : Key) → index hash t j ≡ f j

  -- An item is entered under its key.
  abbrev pub entered : Store → ℕ → Key → Option ℕ
  entered s it j = if key_eq j (key_of s it) then some it else index hash s j

  abbrev pub erased : Store → Key → Key → Option ℕ
  erased s key j = if key_eq j key then none else index hash s j

  pub remove-Became :
      (f : Key → Option ℕ) (t : Store) (it : ℕ) → Became f t → Became f (item_remove t it)
  remove-Became f t it b = record {
    ready =
        IsReady-same hash t (item_remove t it) (remove-SameIndex t it) (links-remove t it) b.ready;
    indexes = λ j. index-same hash (remove-SameIndex t it) j ∙ b.indexes j;
  }

  module _ (s : Store) (it : ℕ) where
    -- What add does to the index, by whether the key has a live item.
    abbrev pub Added : Option ℕ → Store × AddResult → Type 0
    Added none (t, res) = (res ≡ add_ok) × Became (entered s it) t
    Added (some oit) (t, res) = (res ≡ add_exists) × Became (index hash s) t

    -- What replace and cas do.
    abbrev pub Replaced : Option ℕ → Store × ReplaceResult → Type 0
    Replaced none (t, res) = (res ≡ replace_not_found) × Became (erased s (key_of s it)) t
    Replaced (some oit) (t, res) = (res ≡ replace_ok) × Became (entered s it) t

    abbrev pub Swapped : Option ℕ → Store × CasResult → Type 0
    Swapped none (t, res) = (res ≡ cas_not_found) × Became (erased s (key_of s it)) t
    Swapped (some oit) (t, res) =
        (item_get_cas s it ≡ item_get_cas s oit) × (res ≡ cas_ok) × Became (entered s it) t
        ⊎ (item_get_cas s it ≢ item_get_cas s oit) × (res ≡ cas_exists) × Became (index hash s) t

  module _ (s : Store) (key : Key) where
    -- What delete does.
    abbrev pub Deleted : Option ℕ → Store × DeleteResult → Type 0
    Deleted none (t, res) = (res ≡ delete_not_found) × Became (erased s key) t
    Deleted (some it) (t, res) = (res ≡ delete_ok) × Became (erased s key) t

  module _ (cfg : Settings) (env : Env) (s : Store) (it : ℕ) (r : IsReady hash s)
      (fits : 2 ^ (s.assoc.hash_power + 1) < 2 ^ 32) where
    -- Linking an item whose key is not in the index, in a store that has the keys of `s` and
    -- otherwise its index.
    link-Became :
        (t : Store)
        → IsReady hash t
        → key_of t ≡ key_of s
        → t.assoc.hash_power ≡ s.assoc.hash_power
        → ((j : Key) → index hash t j ≡ erased s (key_of s it) j)
        → Became (entered s it) (item_link hash cfg env t it)
    link-Became t rt keys power same = record {
      ready = IsReady-link hash cfg env t it rt absent (rw power fits);
      indexes = λ j.
          index-link hash cfg env t it j ∙ ground (arith, same j, ap (λ (f : ℕ → Key). f it) keys);
    }
      where
        absent : index hash t (key_of t it) ≡ none
        absent =
            ground (
              arith,
              same (key_of t it),
              ap (λ (f : ℕ → Key). f it) keys,
              key_eq_refl (key_of s it),
            )

    relink-Became :
        (t : Store) (oit : ℕ)
        → Fetched hash s (key_of s it) t (some oit)
        → Became (entered s it) (item_remove (item_relink hash cfg env t oit it) oit)
    unfolding item_relink
    relink-Became t oit f =
        remove-Became (entered s it) (item_link hash cfg env (item_unlink hash t oit) it) oit (
          link-Became (item_unlink hash t oit) (IsReady-unlink hash t oit f.ready linked)
            (keys-unlink hash t oit ∙ f.keys) (power-unlink hash t oit ∙ f.power) (λ j. cut j))
      where
        found : index hash t (key_of s it) ≡ some oit
        found = ground (arith, f.result, f.indexes (key_of s it))

        linked : links t oit ≡ true
        linked = f.ready.linked (key_of s it) oit found

        same_key : key_of s it ≡ key_of t oit
        same_key =
            key_eq→eq (key_of s it) (key_of t oit)
              (find-key hash (key_of t) t.assoc (key_of s it) oit found)

        cut : (j : Key) → index hash (item_unlink hash t oit) j ≡ erased s (key_of s it) j
        cut j =
            ground (arith, index-unlink hash t oit j f.ready.indexed linked, same_key, f.indexes j)

    miss-Became :
        (t : Store)
        → Fetched hash s (key_of s it) t none
        → Became (entered s it) (item_link hash cfg env t it)
    miss-Became t f = link-Became t f.ready f.keys f.power (λ j. ground (arith, f.indexes j))

    -- In a ready store whose next table size fits in 32 bits, item_set enters the item under its
    -- key, changes no other entry of the index, and leaves the store ready.
    pub item_set-Became : Became (entered s it) (item_set hash cfg env s it)
    unfolding item_set
    item_set-Became = store _ _ (item_get-Fetched hash s (key_of s it) r)
      where
        store :
            (t : Store) (o : Option ℕ)
            → Fetched hash s (key_of s it) t o
            → Became (entered s it) (
                on_null
                  (t, o)
                  (λ s'. item_link hash cfg env s' it)
                  (λ s' oit. item_remove (item_relink hash cfg env s' oit it) oit))
        store t none f = miss-Became t f
        store t (some oit) f = relink-Became t oit f

    keep-Became :
        (t : Store) (oit : ℕ)
        → Fetched hash s (key_of s it) t (some oit)
        → Became (index hash s) (item_remove t oit)
    keep-Became t oit f =
        remove-Became (index hash s) t oit
          (record { ready = f.ready; indexes = λ j. ground (arith, f.indexes j) })

    gone-Became :
        (t : Store) → Fetched hash s (key_of s it) t none → Became (erased s (key_of s it)) t
    gone-Became t f = record { ready = f.ready; indexes = λ j. ground (arith, f.indexes j) }

    -- In a ready store whose next table size fits in 32 bits, item_add enters the item and
    -- returns ADD_OK exactly if its key has no live item, and otherwise leaves the index as it is
    -- and returns ADD_EXISTS.
    pub item_add-Added : Added s it (live hash s (key_of s it)) (item_add hash cfg env s it)
    unfolding item_add
    item_add-Added = store _ _ (item_get-Fetched hash s (key_of s it) r)
      where
        store :
            (t : Store) (o : Option ℕ)
            → Fetched hash s (key_of s it) t o
            → Added s it (live hash s (key_of s it)) (
                on_null
                  (t, o)
                  (λ s'. (item_link hash cfg env s' it, add_ok))
                  (λ s' oit. (item_remove s' oit, add_exists)))
        store t none f = rw (← f.result) (refl, miss-Became t f)
        store t (some oit) f = rw (← f.result) (refl, keep-Became t oit f)

    -- In a ready store whose next table size fits in 32 bits, item_replace enters the item and
    -- returns REPLACE_OK exactly if its key has a live item, and otherwise returns
    -- REPLACE_NOT_FOUND and at most drops the key.
    pub item_replace-Replaced :
        Replaced s it (live hash s (key_of s it)) (item_replace hash cfg env s it)
    unfolding item_replace
    item_replace-Replaced = store _ _ (item_get-Fetched hash s (key_of s it) r)
      where
        store :
            (t : Store) (o : Option ℕ)
            → Fetched hash s (key_of s it) t o
            → Replaced s it (live hash s (key_of s it)) (
                on_null
                  (t, o)
                  (λ s'. (s', replace_not_found))
                  (λ s' oit. (item_remove (item_relink hash cfg env s' oit it) oit, replace_ok)))
        store t none f = rw (← f.result) (refl, gone-Became t f)
        store t (some oit) f = rw (← f.result) (refl, relink-Became t oit f)

    -- In a ready store whose next table size fits in 32 bits, item_cas enters the item under its
    -- key exactly if the key has a live item with the cas id that the new item carries; with
    -- another cas id it changes nothing in the index and returns CAS_EXISTS; with no live item it
    -- returns CAS_NOT_FOUND and only drops the key.
    pub item_cas-Swapped : Swapped s it (live hash s (key_of s it)) (item_cas hash cfg env s it)
    unfolding item_cas
    item_cas-Swapped = store _ _ (item_get-Fetched hash s (key_of s it) r)
      where
        hit :
            (t : Store) (oit : ℕ)
            → Fetched hash s (key_of s it) t (some oit)
            → (b : Bool) → (item_get_cas t it == item_get_cas t oit) ≡ b
            → Swapped s it (some oit) (
                if b
                then (item_remove (item_relink hash cfg env t oit it) oit, cas_ok)
                else (item_remove t oit, cas_exists))
        hit t oit f true e = inl (ground (arith, f.cas it, f.cas oit), refl, relink-Became t oit f)
        hit t oit f false e = inr (ground (arith, f.cas it, f.cas oit), refl, keep-Became t oit f)

        store :
            (t : Store) (o : Option ℕ)
            → Fetched hash s (key_of s it) t o
            → Swapped s it (live hash s (key_of s it)) (
                on_null
                  (t, o)
                  (λ s'. (s', cas_not_found))
                  (λ s' oit.
                    if item_get_cas s' it == item_get_cas s' oit
                    then (item_remove (item_relink hash cfg env s' oit it) oit, cas_ok)
                    else (item_remove s' oit, cas_exists)))
        store t none f = rw (← f.result) (refl, gone-Became t f)
        store t (some oit) f = rw (← f.result) (hit t oit f _ refl)

  module _ (s : Store) (key : Key) (r : IsReady hash s) where
    -- In a ready store, item_delete takes the key out of the index, changes no other entry, and
    -- returns DELETE_OK exactly if the key had a live item.
    pub item_delete-Deleted :
        (cfg : Settings) (env : Env)
        → Deleted s key (live hash s key) (item_delete hash cfg env s key)
    unfolding item_delete
    item_delete-Deleted cfg env = store _ _ (item_get-Fetched hash s key r)
      where
        unlinked :
            (t : Store) (it : ℕ)
            → Fetched hash s key t (some it)
            → Became (erased s key) (item_unlink hash t it)
        unlinked t it f = record {
          ready = IsReady-unlink hash t it f.ready linked;
          indexes = λ j.
              ground
                (arith, index-unlink hash t it j f.ready.indexed linked, same_key, f.indexes j);
        }
          where
            found : index hash t key ≡ some it
            found = ground (arith, f.result, f.indexes key)

            linked : links t it ≡ true
            linked = f.ready.linked key it found

            same_key : key ≡ key_of t it
            same_key = key_eq→eq key (key_of t it) (find-key hash (key_of t) t.assoc key it found)

        store :
            (t : Store) (o : Option ℕ)
            → Fetched hash s key t o
            → Deleted s key (live hash s key) (
                on_null
                  (t, o)
                  (λ s'. (s', delete_not_found))
                  (λ s' it. (item_remove (item_unlink hash s' it) it, delete_ok)))
        store t none f =
            rw (← f.result)
              (refl, record { ready = f.ready; indexes = λ j. ground (arith, f.indexes j) })
        store t (some it) f =
            rw (← f.result)
              (refl, remove-Became (erased s key) (item_unlink hash t it) it (unlinked t it f))
