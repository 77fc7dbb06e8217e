-- ===== src/Pool.antt =====
-- ThreadExecutor of Scalar/server/src/Util/ThreadPoolUtil.h: what its threads do under the lock of
-- the queue, as steps of a relation. A task is the number of its submission.
use mathlib.Core.List.{append_assoc, append-nil}
use mathlib.Core.Path.{subst}
use mathlib.Core.Option.{some-injective}
use blue_workspace_build.Base.{
  ℕ, suc, ◌+◌, ◌≤◌, ◌≡◌, sym, ap, ◌∙◌, inl, inr, Bool, true, false, Option, none, some, List, [],
  ◌∷◌, ◌++◌, arith, if◌then◌else◌, Bool-cases,
}

-- The state that `queueMutex_` guards, with the tasks that workers have taken from the queue, in
-- order. A worker runs its task when it has released the lock, which is outside the model.
pub record Pool : Type 0 where
  pub stop : Bool
  pub tasks : List ℕ
  pub dequeued : List ℕ
  pub next : ℕ

abbrev pub new_pool : Pool
new_pool = record { stop = false; tasks = []; dequeued = []; next = 0 }

-- Submit; `none` is the exception of a stopped pool.
unfoldable pub submit : Pool → Option Pool
submit p =
    if p.stop then none else some (record p { tasks = p.tasks ++ p.next ∷ []; next = p.next + 1 })

-- What a worker does when it has the lock.
pub data Turn : Type 0 where
  waits leaves : Turn
  runs : ℕ → Pool → Turn

-- The task at the front of the queue.
take_front : List ℕ → Pool → Turn
take_front [] p = waits
take_front (t ∷ ts) p = runs t (record p { tasks = ts; dequeued = p.dequeued ++ t ∷ [] })

-- The part of a worker's loop that holds the lock.
unfoldable pub worker_turn : Pool → Turn
unfolding take_front
worker_turn p = if p.stop then leaves else take_front p.tasks p

-- Clear.
unfoldable pub clear : Pool → Pool
clear p = record p { tasks = [] }

-- The part of the destructor that holds the lock.
unfoldable pub stop_pool : Pool → Pool
stop_pool p = record p { stop = true }

-- One step of any thread.
pub data Step : Pool → Pool → Type 0 where
  submitted : {p q : Pool} → submit p ≡ some q → Step p q
  taken : {p q : Pool} (t : ℕ) → worker_turn p ≡ runs t q → Step p q
  cleared : {p q : Pool} → clear p ≡ q → Step p q
  stopped : {p q : Pool} → stop_pool p ≡ q → Step p q

-- Any number of steps.
pub data Steps : Pool → Pool → Type 0 where
  done : {p q : Pool} → p ≡ q → Steps p q
  more : {p q r : Pool} → Step p q → Steps q r → Steps p r

-- The numbers ascend from `low` to below `high`.
abbrev pub Ascends : ℕ → ℕ → List ℕ → Type 0
Ascends low high [] = low ≤ high
Ascends low high (x ∷ xs) = (low ≤ x) × Ascends (suc x) high xs

-- The tasks that were taken and those that wait are in the order of their submissions.
abbrev pub IsOrdered : Pool → Type 0
IsOrdered p = Ascends 0 p.next (p.dequeued ++ p.tasks)

Ascends-add : (low n : ℕ) (xs : List ℕ) → Ascends low n xs → Ascends low (n + 1) (xs ++ n ∷ [])
Ascends-add low n [] h = (h, omega arith)
Ascends-add low n (x ∷ xs) h = (h.0, Ascends-add (suc x) n xs h.1)

Ascends-le : (low high : ℕ) (xs : List ℕ) → Ascends low high xs → low ≤ high
Ascends-le low high [] h = h
Ascends-le low high (x ∷ xs) h = omega (arith, h.0, Ascends-le (suc x) high xs h.1)

Ascends-front : (low high : ℕ) (xs ys : List ℕ) → Ascends low high (xs ++ ys) → Ascends low high xs
Ascends-front low high [] ys h = Ascends-le low high ys h
Ascends-front low high (x ∷ xs) ys h = (h.0, Ascends-front (suc x) high xs ys h.1)

submit-IsOrdered : (p q : Pool) → submit p ≡ some q → IsOrdered p → IsOrdered q
unfolding submit
submit-IsOrdered p q e h = elim (Bool-cases p.stop) [
  | inl s ↦ cc (rw s at e)
  | inr s ↦ subst IsOrdered (some-injective _ _ (rw s at e)) (
      subst (Ascends 0 (p.next + 1)) (append_assoc p.dequeued p.tasks (p.next ∷ []))
        (Ascends-add 0 p.next (p.dequeued ++ p.tasks) h))
]

pool_after : Pool → Turn → Pool
pool_after p waits = p
pool_after p leaves = p
pool_after p (runs t q) = q

front-IsOrdered :
    (tasks : List ℕ) (t : ℕ) (p q : Pool)
    → take_front tasks p ≡ runs t q
    → Ascends 0 p.next (p.dequeued ++ tasks)
    → IsOrdered q
unfolding take_front pool_after
front-IsOrdered [] t p q e h = cc
front-IsOrdered (u ∷ us) t p q e h =
    subst IsOrdered (ap (pool_after p) e)
      (subst (Ascends 0 p.next) (sym (append_assoc p.dequeued (u ∷ []) us)) h)

running :
    (stop : Bool) (turn : Turn) (t : ℕ) (q : Pool)
    → (if stop then leaves else turn) ≡ runs t q
    → turn ≡ runs t q
running true turn t q e = cc
running false turn t q e = e

Step-IsOrdered : (p q : Pool) → Step p q → IsOrdered p → IsOrdered q
unfolding worker_turn clear stop_pool
Step-IsOrdered p q (submitted e) h = submit-IsOrdered p q e h
Step-IsOrdered p q (taken t e) h = front-IsOrdered p.tasks t p q (running p.stop _ t q e) h
Step-IsOrdered p q (cleared e) h = subst IsOrdered e (
    subst (Ascends 0 p.next) (sym (append-nil p.dequeued))
      (Ascends-front 0 p.next p.dequeued p.tasks h))
Step-IsOrdered p q (stopped e) h = subst IsOrdered e h

Steps-IsOrdered : (p q : Pool) → Steps p q → IsOrdered p → IsOrdered q
Steps-IsOrdered p q (done e) h = subst IsOrdered e h
Steps-IsOrdered p r (more {q = q} s rest) h = Steps-IsOrdered q r rest (Step-IsOrdered p q s h)

-- However the steps that the threads take under the lock interleave, the tasks of a pool are taken
-- from the queue in the order in which they were submitted, each at most once, and those that wait
-- were submitted after them.
pub new_pool-IsOrdered : (q : Pool) → Steps new_pool q → Ascends 0 q.next (q.dequeued ++ q.tasks)
new_pool-IsOrdered q s = Steps-IsOrdered new_pool q s (omega arith)

Step-stopped : (p q : Pool) → Step p q → p.stop ≡ true → (q.stop ≡ true) × (q.dequeued ≡ p.dequeued)
unfolding submit worker_turn clear stop_pool
Step-stopped p q (submitted e) h = cc (rw (submit, h) at e)
Step-stopped p q (taken t e) h = cc (rw (worker_turn, h) at e)
Step-stopped p q (cleared e) h = (ap (λ r. r.stop) (sym e) ∙ h, ap (λ r. r.dequeued) (sym e))
Step-stopped p q (stopped e) h = (ap (λ r. r.stop) (sym e), ap (λ r. r.dequeued) (sym e))

-- Once a pool is stopped, no step of any thread takes a task from the queue, also none that waits.
pub Steps-stopped :
    (p q : Pool) → Steps p q → p.stop ≡ true → (q.stop ≡ true) × (q.dequeued ≡ p.dequeued)
Steps-stopped p q (done e) h = (ap (λ r. r.stop) (sym e) ∙ h, ap (λ r. r.dequeued) (sym e))
Steps-stopped p r (more {q = q} s rest) h =
    let (still, same) = Step-stopped p q s h in
    let (last, all) = Steps-stopped q r rest still in (last, all ∙ same)
