-- ===== src/Items/Ops/Flush.antt =====
-- item_flush_expired: what a flush_all leaves of the lru queues.
use twemcache.Base.{
  ℕ, zero, suc, ◌+◌, ◌≡◌, ◌≢◌, ◌≤◌, ◌<◌, refl, ap, ◌∙◌, Bool, true, false, ◌||◌, Bool-cases, inl,
  inr, List, [], ◌∷◌, reverse, ltb, ◌==◌, arith, All,
}
use twemcache.Assoc.{Key}
use twemcache.Store.{Store}
use twemcache.Link.{item_unlink_q}
use twemcache.Slabs.{slab_put_item}
use twemcache.Slabs.Evicted.{Shrunk, Shrunk-refl, Shrunk-trans}
use twemcache.Items.{item_unlink, item_free}
use twemcache.Items.Index.{index-unlink}
use twemcache.Items.Linked.{
  AllIndexed, AllIndexed-unlink, IsReady, IsReady-unlink, links, links-unlink,
}
use twemcache.Items.Ops.{flush_queue, flush_classes, item_flush_expired}

abbrev pub holds : ℕ → List ℕ → Bool
holds x [] = false
holds x (y ∷ q) = x == y || holds x q

-- The lru queue of a class as the flush reads it: from its tail, where the items touched last are.
abbrev pub newest_first : Store → ℕ → List ℕ
newest_first s id = reverse (s.item_lruq id)

-- No item of the list was touched after one that stands before it.
abbrev pub Descending : (ℕ → ℕ) → List ℕ → Type 0
Descending time [] = Unit
Descending time (x ∷ q) = All (λ y. time y ≤ time x) q × Descending time q

abbrev pub atimes : Store → ℕ → ℕ
atimes s x = (s.items x).atime

older-held :
    (time : ℕ → ℕ) (x y : ℕ) (q : List ℕ)
    → All (λ z. time z ≤ time y) q
    → holds x q ≡ true
    → time x ≤ time y
older-held time x y [] a h = cc
older-held time x y (z ∷ q) a h = ground (arith, older-held time x y q a.1, a.0)

-- What a flush does not touch.
record Like (s t : Store) : Type 0 where
  pub times : (x : ℕ) → (t.items x).atime ≡ (s.items x).atime
  pub ids : (x : ℕ) → (t.items x).id ≡ (s.items x).id
  pub oldest : t.oldest_live ≡ s.oldest_live

Like-refl : (s : Store) → Like s s
Like-refl s = record { times = λ x. refl; ids = λ x. refl; oldest = refl }

Like-trans : {s t u : Store} → Like s t → Like t u → Like s u
Like-trans a b = record {
  times = λ x. b.times x ∙ a.times x;
  ids = λ x. b.ids x ∙ a.ids x;
  oldest = b.oldest ∙ a.oldest;
}

module _ (hash : Key → ℕ) where
  unlink-Like : (s : Store) (it : ℕ) → Like s (item_unlink hash s it)
  unfolding item_unlink item_unlink_q item_free slab_put_item
  unlink-Like s it = record {
    times = λ x. ground arith;
    ids = λ x. ground arith;
    oldest = ground arith;
  }

  lruq-unlink :
      (s : Store) (it c : ℕ)
      → (s.items it).id ≢ c
      → (item_unlink hash s it).item_lruq c ≡ s.item_lruq c
  unfolding item_unlink item_unlink_q item_free slab_put_item
  lruq-unlink s it c h = ground arith

  item_unlink-Shrunk : (s : Store) (it : ℕ) → IsReady hash s → Shrunk hash s (item_unlink hash s it)
  item_unlink-Shrunk s it r = elim (Bool-cases (links s it)) [
    | inl l ↦ record {
      ready = IsReady-unlink hash s it r l;
      linked = λ q e. ground (arith, links-unlink hash s it q);
      found = λ key q e. ground (arith, index-unlink hash s it key r.indexed l);
      indexed = AllIndexed-unlink hash s it r l;
    }
    | inr l ↦ unfold item_unlink in rw l (Shrunk-refl hash s r)
  ]

  flush_queue-Like : (s : Store) (q : List ℕ) → Like s (flush_queue hash s q)
  unfolding flush_queue
  flush_queue-Like s [] = Like-refl s
  flush_queue-Like s (it ∷ older) = elim (Bool-cases (ltb (s.items it).atime s.oldest_live)) [
    | inl e ↦ rw e (Like-refl s)
    | inr e ↦ rw e (Like-trans (unlink-Like s it) (flush_queue-Like (item_unlink hash s it) older))
  ]

  flush_queue-Shrunk :
      (s : Store) (q : List ℕ) → IsReady hash s → Shrunk hash s (flush_queue hash s q)
  unfolding flush_queue
  flush_queue-Shrunk s [] r = Shrunk-refl hash s r
  flush_queue-Shrunk s (it ∷ older) r = elim (Bool-cases (ltb (s.items it).atime s.oldest_live)) [
    | inl e ↦ rw e (Shrunk-refl hash s r)
    | inr e ↦
        let first = item_unlink-Shrunk s it r in
        rw e (
          Shrunk-trans hash s _ _ first
            (flush_queue-Shrunk (item_unlink hash s it) older first.ready))
  ]

  flush_queue-old :
      (s : Store) (q : List ℕ) (x : ℕ)
      → (s.items x).atime < s.oldest_live
      → links (flush_queue hash s q) x ≡ links s x
  unfolding flush_queue
  flush_queue-old s [] x h = refl
  flush_queue-old s (it ∷ older) x h = ground (
    arith,
    flush_queue-old (item_unlink hash s it) older x,
    links-unlink hash s it x,
    (unlink-Like s it).times x,
    (unlink-Like s it).oldest,
  )

  flush_queue-new :
      (time : ℕ → ℕ) (s : Store) (q : List ℕ) (x : ℕ)
      → IsReady hash s
      → ((y : ℕ) → (s.items y).atime ≡ time y)
      → Descending time q
      → holds x q ≡ true
      → s.oldest_live ≤ time x
      → links (flush_queue hash s q) x ≡ false
  unfolding flush_queue
  flush_queue-new time s [] x r same d h new = cc
  flush_queue-new time s (it ∷ older) x r same d h new = rw recent (elim (Bool-cases (x == it)) [
    | inl e ↦ ground (arith, later.linked x, links-unlink hash s it x)
    | inr e ↦
        flush_queue-new time next older x first.ready (λ y. like.times y ∙ same y) d.1
          (ground arith) (rw like.oldest new)
  ])
    where
      next : Store
      next = item_unlink hash s it

      like : Like s next
      like = unlink-Like s it

      first : Shrunk hash s next
      first = item_unlink-Shrunk s it r

      later : Shrunk hash next (flush_queue hash next older)
      later = flush_queue-Shrunk next older first.ready

      recent : ltb (s.items it).atime s.oldest_live ≡ false
      recent = ground (arith, same it, older-held time x it older d.0)

  flush_queue-lruq :
      (ids : ℕ → ℕ) (s : Store) (q : List ℕ) (b c : ℕ)
      → ((y : ℕ) → (s.items y).id ≡ ids y)
      → All (λ x. ids x ≡ b) q
      → b ≢ c
      → (flush_queue hash s q).item_lruq c ≡ s.item_lruq c
  unfolding flush_queue
  flush_queue-lruq ids s [] b c same h n = refl
  flush_queue-lruq ids s (it ∷ older) b c same h n = ground (
    arith,
    lruq-unlink s it c,
    same it,
    h.0,
    flush_queue-lruq ids (item_unlink hash s it) older b c (λ y. (unlink-Like s it).ids y ∙ same y)
        h.1 n,
  )

  flush_classes-Shrunk :
      (n id : ℕ) (s : Store) → IsReady hash s → Shrunk hash s (flush_classes hash n id s)
  unfolding flush_classes
  flush_classes-Shrunk zero id s r = Shrunk-refl hash s r
  flush_classes-Shrunk (suc n) id s r =
      let first = flush_queue-Shrunk s (newest_first s id) r in
      Shrunk-trans hash s _ _ first (flush_classes-Shrunk n (id + 1) _ first.ready)

  flush_classes-old :
      (n id : ℕ) (s : Store) (x : ℕ)
      → (s.items x).atime < s.oldest_live
      → links (flush_classes hash n id s) x ≡ links s x
  unfolding flush_classes
  flush_classes-old zero id s x h = refl
  flush_classes-old (suc n) id s x h =
      let like = flush_queue-Like s (newest_first s id) in
      flush_classes-old n (id + 1) _ x (rw (like.times x, like.oldest) h)
      ∙ flush_queue-old s (newest_first s id) x h

  module _ (s : Store) (home : (c : ℕ) → All (λ x. (s.items x).id ≡ c) (newest_first s c))
      (sorted : (c : ℕ) → Descending (atimes s) (newest_first s c)) where
    flush_classes-new :
        (n id : ℕ) (t : Store)
        → IsReady hash t
        → Like s t
        → ((c : ℕ) → id ≤ c → t.item_lruq c ≡ s.item_lruq c)
        → (c x : ℕ) → id ≤ c
        → c < id + n
        → holds x (newest_first s c) ≡ true
        → s.oldest_live ≤ (s.items x).atime
        → links (flush_classes hash n id t) x ≡ false
    unfolding flush_classes
    flush_classes-new zero id t r like same c x low high h new = ground arith
    flush_classes-new (suc n) id t r like same c x low high h new = elim (Bool-cases (id == c)) [
      | inl e ↦
          let done : links next x ≡ false = flushed (ground arith) in
          ground (arith, rest.linked x, done)
      | inr e ↦
          flush_classes-new n (id + 1) next first.ready
            (Like-trans like (flush_queue-Like t (newest_first t id)))
            (λ k above. untouched k above ∙ same k (omega arith)) c x (ground arith) (omega arith) h
            new
    ]
      where
        next : Store
        next = flush_queue hash t (newest_first t id)

        first : Shrunk hash t next
        first = flush_queue-Shrunk t (newest_first t id) r

        rest : Shrunk hash next (flush_classes hash n (id + 1) next)
        rest = flush_classes-Shrunk n (id + 1) next first.ready

        same_queue : newest_first t id ≡ newest_first s id
        same_queue = ap (λ (q : List ℕ). reverse q) (same id (omega arith))

        flushed : id ≡ c → links next x ≡ false
        flushed e = rw same_queue (
            flush_queue-new (atimes s) t (newest_first s id) x r like.times (sorted id) (rw e h)
              (rw like.oldest new))

        untouched : (k : ℕ) → id + 1 ≤ k → next.item_lruq k ≡ t.item_lruq k
        untouched k above = rw same_queue (
            flush_queue-lruq (λ y. (s.items y).id) t (newest_first s id) id k like.ids (home id)
              (ground arith))

  -- What has become of a store after a flush.
  pub record Flushed (s t : Store) : Type 0 where
    pub shrunk : Shrunk hash s t
    pub indexed : AllIndexed hash t
    pub kept : (x : ℕ) → (s.items x).atime < s.oldest_live → links t x ≡ links s x
    pub flushed :
        (c x : ℕ)
        → 1 ≤ c
        → c ≤ 254
        → holds x (newest_first s c) ≡ true
        → s.oldest_live ≤ (s.items x).atime
        → links t x ≡ false

  -- In a ready store in which every linked item is the one that its key finds, with a flush time
  -- set, where each lru queue holds items of its own class in the order of their access times,
  -- item_flush_expired unlinks every item of the queues of classes 1 to 254 whose access time is
  -- not before the flush time, keeps the link of every item whose access time is before it, makes
  -- nothing newly linked or found, and leaves the store ready, with every linked item still the
  -- one that its key finds.
  pub item_flush_expired-Flushed :
      (s : Store)
      → IsReady hash s
      → AllIndexed hash s
      → 0 < s.oldest_live
      → ((c : ℕ) → All (λ x. (s.items x).id ≡ c) (newest_first s c))
      → ((c : ℕ) → Descending (atimes s) (newest_first s c))
      → Flushed s (item_flush_expired hash s)
  unfolding item_flush_expired
  item_flush_expired-Flushed s r all on home sorted = rw set (record {
    shrunk = flush_classes-Shrunk 254 1 s r;
    indexed = (flush_classes-Shrunk 254 1 s r).indexed all;
    kept = flush_classes-old 254 1 s;
    flushed = λ c x low high h new.
        flush_classes-new s home sorted 254 1 s r (Like-refl s) (λ k above. refl) c x low
          (omega arith) h new;
  })
    where
      set : (s.oldest_live == 0) ≡ false
      set = ground arith
