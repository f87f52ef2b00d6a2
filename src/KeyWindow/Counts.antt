-- ===== src/KeyWindow/Counts.antt =====
-- The counts of the table are those of the window.
use twemcache.Base.{
  ℕ, zero, suc, ◌+◌, ◌-◌, ◌*◌, ◌%◌, ◌^◌, ◌<◌, ◌≤◌, ◌≡◌, ◌⊎◌, inl, inr, refl, ap, ◌∙◌, Bool-cases,
  Option, none, some, List, [], ◌∷◌, ◌++◌, ltb, ◌==◌, if◌then◌else◌, length, arith,
}
use twemcache.KcMap
use twemcache.KcMap.{KcMap, KcMapEntry, kc_map_incr, kc_map_decr}
use twemcache.KcMap.Probe.{Incremented, kc_map_incr-Incremented, count-decr, size-decr}
use twemcache.KeyWindow.{KwEntry, KeyWindow, init, ring_push, key_window_push, key_window_pop}

-- The number of samples in a window that are counted at an entry.
abbrev pub refs : ℕ → List KwEntry → ℕ
refs i [] = 0
refs i (kwe ∷ q) = if kwe.kcme == i then 1 + refs i q else refs i q

-- A window whose counts are right.
pub record IsValid (w : KeyWindow) : Type 0 where
  pub sized : w.key_window_size ≡ length w.queue
  pub fits : length w.queue ≤ w.cap
  pub max : w.key_window_max ≡ w.cap
  pub table : w.map.table_size ≡ 2 * w.cap
  pub small : w.cap < 2 ^ 63
  pub counts : (i : ℕ) → (w.map.table i).count ≡ refs i w.queue

-- After key_window_init and kc_map_init.
pub init-IsValid : (size : ℕ) → size < 2 ^ 63 → IsValid (init size (KcMap.init size))
unfolding init KcMap.init
init-IsValid size h = record {
  sized = refl;
  fits = omega arith;
  max = refl;
  table = ground arith;
  small = h;
  counts = λ i. refl;
}

-- The samples counted at the first `n` entries.
total : ℕ → List KwEntry → ℕ
total zero q = 0
total (suc n) q = refs n q + total n q

total-nil : (n : ℕ) → total n [] ≡ 0
unfolding total
total-nil zero = refl
total-nil (suc n) = omega (arith, total-nil n)

total-cons :
    (n : ℕ) (kwe : KwEntry) (q : List KwEntry)
    → total n (kwe ∷ q) ≡ (if ltb kwe.kcme n then 1 + total n q else total n q)
unfolding total
total-cons zero kwe q = ground arith
total-cons (suc n) kwe q = ground (arith, total-cons n kwe q)

total-length : (n : ℕ) (q : List KwEntry) → total n q ≤ length q
total-length n [] = omega (arith, total-nil n)
total-length n (kwe ∷ q) = ground (arith, total-cons n kwe q, total-length n q)

-- An entry without samples, or a sample at least for each entry.
find_unused : (n : ℕ) (q : List KwEntry) → ((j : ℕ) × (j < n) × (refs j q ≡ 0)) ⊎ (n ≤ total n q)
unfolding total
find_unused zero q = inr (omega arith)
find_unused (suc n) q = elim (Bool-cases (refs n q == 0)) [
  | inl e ↦ inl (n, ground arith, ground arith)
  | inr e ↦ elim (find_unused n q) [
    | inl u ↦ inl (u.0, ground arith, u.2)
    | inr h ↦ inr (ground arith)
  ]
]

refs-append :
    (i : ℕ) (q : List KwEntry) (kwe : KwEntry)
    → refs i (q ++ kwe ∷ []) ≡ (if kwe.kcme == i then refs i q + 1 else refs i q)
refs-append i [] kwe = ground arith
refs-append i (x ∷ q) kwe = ground (arith, refs-append i q kwe)

pub length-append : (q : List KwEntry) (kwe : KwEntry) → length (q ++ kwe ∷ []) ≡ length q + 1
length-append [] kwe = refl
length-append (x ∷ q) kwe = omega (arith, length-append q kwe)

refs-length : (i : ℕ) (q : List KwEntry) → refs i q ≤ length q
refs-length i [] = omega arith
refs-length i (x ∷ q) = ground (arith, refs-length i q)

module _ (w : KeyWindow) where
  -- What a push gives.
  abbrev pub PushedWindow : List ℕ → ℕ → Option (KeyWindow × ℕ) → Type 0
  PushedWindow key time none = ⊥
  PushedWindow key time (some (t, count)) =
      (i : ℕ) × IsValid t
      × (t.queue ≡ w.queue ++ record { timestamp_us = time; kcme = i } ∷ [])
      × ((t.map.table i).key ≡ key)
      × (count ≡ refs i t.queue)

  -- What a pop gives.
  abbrev pub PoppedWindow : List KwEntry → Option (KeyWindow × ℕ) → Type 0
  PoppedWindow [] r = r ≡ none
  PoppedWindow (kwe ∷ q) none = ⊥
  PoppedWindow (kwe ∷ q) (some (t, time)) =
      IsValid t × (t.queue ≡ q) × (time ≡ kwe.timestamp_us) × (t.cap ≡ w.cap)

module _ (w : KeyWindow) (v : IsValid w) where
  -- A window that is not full leaves an entry of the table unused.
  unused : length w.queue < w.cap → (j : ℕ) × (j < w.map.table_size) × ((w.map.table j).count ≡ 0)
  unused room = elim (find_unused w.map.table_size w.queue) [
    | inl u ↦ (u.0, u.1, v.counts u.0 ∙ u.2)
    | inr h ↦ ground (arith, h, total-length w.map.table_size w.queue, v.table, room)
  ]

  -- In a valid window that is not full, key_window_push ends, appends the sample to the window,
  -- counts it at a table entry that holds its key, returns the number of samples of the window
  -- that are counted at that entry, and leaves the window valid: every count of the table is the
  -- number of samples counted there.
  pub key_window_push-PushedWindow :
      (hash : List ℕ → ℕ) (key : List ℕ) (time : ℕ)
      → length w.queue < w.cap
      → PushedWindow w key time (key_window_push hash w key time)
  unfolding key_window_push
  key_window_push-PushedWindow hash key time room =
      let (j, inside, empty) = unused room in
      pushed _ (kc_map_incr-Incremented hash w.map key j inside empty)
    where
      pushed :
          (o : Option (KcMap × ℕ))
          → Incremented w.map key o
          → PushedWindow w key time (elim o [
            | none ↦ none
            | some r ↦ some (
              record w {
                map = r.0;
                queue = ring_push w.cap w.queue (record { timestamp_us = time; kcme = r.1 });
                key_window_size = (w.key_window_size + 1) % 2 ^ 64;
              },
              (r.0.table r.1).count,
            )
          ])
      pushed none f = f
      pushed (some (m, i)) f = (
        i,
        record {
          sized = ground (arith, v.sized, v.small, length-append w.queue kwe);
          fits = ground (arith, length-append w.queue kwe);
          max = v.max;
          table = f.5 ∙ v.table;
          small = v.small;
          counts = λ k. rw into (counted k);
        },
        into,
        f.2,
        rw into (counted i),
      )
        where
          kwe : KwEntry
          kwe = record { timestamp_us = time; kcme = i }

          into : ring_push w.cap w.queue kwe ≡ w.queue ++ kwe ∷ []
          into = unfold ring_push in ground arith

          own : (m.table i).count ≡ refs i (w.queue ++ kwe ∷ [])
          own = ground (
            arith,
            f.3,
            v.counts i,
            refs-append i w.queue kwe,
            refs-length i w.queue,
            v.fits,
            v.small,
          )

          counted : (k : ℕ) → (m.table k).count ≡ refs k (w.queue ++ kwe ∷ [])
          counted k = elim (Bool-cases (i == k)) [
            | inl e ↦ let e' : i ≡ k = ground arith in rw (← e') own
            | inr e ↦ ground (
              arith,
              ap (λ (x : KcMapEntry). x.count) (f.4 k (ground arith)),
              v.counts k,
              refs-append k w.queue kwe,
            )
          ]

  -- In a valid window, key_window_pop takes the oldest sample out, returns its time and leaves
  -- the window valid, and has nothing to return exactly if the window is empty.
  pub key_window_pop-PoppedWindow : PoppedWindow w w.queue (key_window_pop w)
  unfolding key_window_pop
  key_window_pop-PoppedWindow = popped w.queue refl
    where
      popped :
          (l : List KwEntry)
          → w.queue ≡ l
          → PoppedWindow w l (elim l [
            | [] ↦ none
            | kwe ∷ q ↦ some (
              record w {
                map = kc_map_decr w.map kwe.kcme;
                queue = q;
                key_window_size = (w.key_window_size + 2 ^ 64 - 1) % 2 ^ 64;
              },
              kwe.timestamp_us,
            )
          ])
      popped [] e = refl
      popped (kwe ∷ q) e = (
        record {
          sized = ground (arith, v.sized, v.small, held);
          fits = ground (arith, held, v.fits);
          max = v.max;
          table = size-decr w.map kwe.kcme ∙ v.table;
          small = v.small;
          counts = λ k. ground (
            arith,
            count-decr w.map kwe.kcme k pos bounded,
            v.counts k,
            split k,
            v.counts kwe.kcme,
            split kwe.kcme,
          );
        },
        refl,
        refl,
        refl,
      )
        where
          held : length w.queue ≡ 1 + length q
          held = rw e (omega arith)

          split : (k : ℕ) → refs k w.queue ≡ (if kwe.kcme == k then 1 + refs k q else refs k q)
          split k = rw e refl

          pos : 0 < (w.map.table kwe.kcme).count
          pos = ground (arith, v.counts kwe.kcme, split kwe.kcme)

          bounded : (w.map.table kwe.kcme).count < 2 ^ 64
          bounded = ground (arith, v.counts kwe.kcme, refs-length kwe.kcme w.queue, v.fits, v.small)
