-- ===== src/RingArray/Tests.antt =====
-- Tests of the ring, and its theorems on a ring that has wrapped.
use twemcache.Base.{◌≡◌, refl, arith, none, ◌==◌, if◌then◌else◌}
use twemcache.RingArray.{Ring, create, push, pop}
use twemcache.RingArray.Queue.{PushSpec, PopSpec, push-PushSpec, pop-PopSpec}

-- Slots 0 to 2, for two elements: 8 in slot 2 and 9 in slot 0.
abbrev wrapped : Ring
wrapped = record { cap = 2; rpos = 2; wpos = 1; slots = λ i. if i == 0 then 9 else 8 }

refuses : push 5 wrapped ≡ none
unfolding push
refuses = refl

empty_at_first : pop (create 4 (λ i. i)) ≡ none
unfolding pop create
empty_at_first = refl

push-PushSpec_example : PushSpec wrapped 5 (push 5 wrapped)
push-PushSpec_example = push-PushSpec wrapped (omega arith) 5

pop-PopSpec_example : PopSpec wrapped (pop wrapped)
pop-PopSpec_example = pop-PopSpec wrapped (omega arith)
