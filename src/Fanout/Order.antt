-- ===== src/Fanout/Order.antt =====
-- The read model does not depend on the order in which the children are listed.
use mathlib.Core.List.{Perm, Permᴰ}
use mathlib.Core.List.Permᴰ
use mathlib.Core.Logic.{∥∥₁_elim}
use goblin_king.Base.{◌≡◌, refl, ◌∙◌, Bool, ◌&&◌, ◌||◌, List, [], ◌∷◌, any, all, arith}
use goblin_king.Contracts.{JobRecord, JobStatus, is_terminal, is_completed, is_active}
use goblin_king.Fanout.{FanoutStatus, is_unsuccessful, status_of, derive_fanout_status}

FanoutStatus-set : IsSet FanoutStatus
FanoutStatus-set = hlevel

any-perm : (p : JobStatus → Bool) {l l' : List JobStatus} → Permᴰ l l' → any p l ≡ any p l'
any-perm p Permᴰ.nil = refl
any-perm p (Permᴰ.cons e d) = λ i. p (e i) || any-perm p d i
any-perm p (Permᴰ.swap {a = a} {b = b} e f) = ground arith
any-perm p (Permᴰ.trans d e) = any-perm p d ∙ any-perm p e

all-perm : (p : JobStatus → Bool) {l l' : List JobStatus} → Permᴰ l l' → all p l ≡ all p l'
all-perm p Permᴰ.nil = refl
all-perm p (Permᴰ.cons e d) = λ i. p (e i) && all-perm p d i
all-perm p (Permᴰ.swap {a = a} {b = b} e f) = ground arith
all-perm p (Permᴰ.trans d e) = all-perm p d ∙ all-perm p e

status_of-perm : {l l' : List JobStatus} → Permᴰ l l' → status_of l ≡ status_of l'
unfolding status_of
status_of-perm d =
    rw
      (
        all-perm is_completed d,
        all-perm is_terminal d,
        any-perm is_completed d,
        any-perm is_unsuccessful d,
        any-perm is_active d,
      )
      refl

derive_fanout_status-permutation :
    (jobs jobs' : List JobRecord)
    → Permᴰ jobs jobs'
    → derive_fanout_status jobs ≡ derive_fanout_status jobs'
unfolding derive_fanout_status
derive_fanout_status-permutation [] [] d = refl
derive_fanout_status-permutation [] (k ∷ ks) d = let e = Permᴰ.length-eq d in cc
derive_fanout_status-permutation (j ∷ js) [] d = let e = Permᴰ.length-eq d in cc
derive_fanout_status-permutation (j ∷ js) (k ∷ ks) d =
    status_of-perm (Permᴰ.map (λ job. job.status) d)

-- The status of a batch is the same for any order of its jobs.
pub derive_fanout_status-perm :
    (jobs jobs' : List JobRecord)
    → Perm jobs jobs'
    → derive_fanout_status jobs ≡ derive_fanout_status jobs'
derive_fanout_status-perm jobs jobs' p =
    ∥∥₁_elim p (FanoutStatus-set (derive_fanout_status jobs) (derive_fanout_status jobs'))
      (derive_fanout_status-permutation jobs jobs')
