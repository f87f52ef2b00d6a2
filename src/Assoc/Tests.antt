-- ===== src/Assoc/Tests.antt =====
-- The theorems of the hash table at a table of two buckets that is growing to four.
use twemcache.Base.{ℕ, ◌≡◌, refl, arith, true, false, none, some, [], ◌∷◌, if◌then◌else◌, key_eq}
use twemcache.Assoc.{
  Key, Assoc, init, insert, delete, find, read, get_bucket, write, maintain, move_buckets,
  expand_needed, expand, link,
}
use twemcache.Assoc.Inv.{IsValid, init-IsValid, insert-IsValid, find-init}
use twemcache.Assoc.Find.{find-insert, find-deleted}
use twemcache.Assoc.Move.{maintain_lem, move_buckets_end}

-- The item at address n has the one-byte key n, and that byte is the hash.
abbrev key_of : ℕ → Key
key_of it = it ∷ []

abbrev hash : Key → ℕ
hash [] = 0
hash (c ∷ k) = c

-- Items 2, 3, 4 and 5 in two buckets: the fourth insertion starts the expansion.
abbrev small : Assoc
small = init 1

abbrev three : Assoc
three =
    insert hash key_of 0 true (insert hash key_of 0 true (insert hash key_of 0 true small 2) 3) 4

abbrev growing : Assoc
growing = insert hash key_of 0 true three 5

expands : growing.expanding ≡ true
unfolding init insert link expand_needed expand get_bucket read write
expands = refl

insert-IsValid_2 : IsValid hash key_of (insert hash key_of 0 true small 2)
insert-IsValid_2 =
    insert-IsValid hash key_of 0 true small 2 (init-IsValid hash key_of 1 (omega arith))
      (find-init hash key_of 1 (2 ∷ [])) (unfold init in omega arith)

insert-IsValid_3 :
    IsValid hash key_of (insert hash key_of 0 true (insert hash key_of 0 true small 2) 3)
unfolding find init insert link expand_needed expand get_bucket read write
insert-IsValid_3 =
    insert-IsValid hash key_of 0 true (insert hash key_of 0 true small 2) 3 insert-IsValid_2 refl
      (omega arith)

three-IsValid : IsValid hash key_of three
unfolding find init insert link expand_needed expand get_bucket read write
three-IsValid = insert-IsValid hash key_of 0 true _ 4 insert-IsValid_3 refl (omega arith)

three-held : find hash key_of growing (3 ∷ []) ≡ some 3
unfolding find init insert link expand_needed expand get_bucket read write
three-held = refl

find-insert_example :
    find hash key_of growing (3 ∷ [])
    ≡ (if key_eq (3 ∷ []) (key_of 5) then some 5 else find hash key_of three (3 ∷ []))
find-insert_example = find-insert hash key_of 0 true three 5 (3 ∷ [])

table-IsValid : IsValid hash key_of growing
unfolding find init insert link expand_needed expand get_bucket read write
table-IsValid = insert-IsValid hash key_of 0 true three 5 three-IsValid refl (omega arith)

find-deleted_example :
    find hash key_of (delete hash key_of growing (3 ∷ [])) (5 ∷ [])
    ≡ (if key_eq (5 ∷ []) (3 ∷ []) then none else find hash key_of growing (5 ∷ []))
find-deleted_example =
    find-deleted hash key_of growing (3 ∷ []) 3 (5 ∷ []) three-held (table-IsValid.distinct _)

maintain_lem_example :
    IsValid hash key_of (maintain hash key_of growing)
    × ((k : Key) → find hash key_of (maintain hash key_of growing) k ≡ find hash key_of growing k)
maintain_lem_example = maintain_lem hash key_of growing table-IsValid

move_buckets_end_example : (move_buckets hash key_of 2 growing).expanding ≡ false
unfolding init insert link expand_needed expand get_bucket read write
move_buckets_end_example = move_buckets_end hash key_of 2 growing table-IsValid (omega arith)
