-- ===== src/ThreadPool/Tasks.antt =====
-- What becomes of the tasks of a pool, and of its workers when it stops.
use mathlib.Core.Path.{subst}
use native.Mathlib.Decide.{ℕ_discrete}
use solar_net.Base.{
  ℕ, ◌<◌, ◌≡◌, ◌≢◌, refl, sym, ap, ◌∙◌, true, false, List, [], ◌∷◌, ◌++◌, arith, inl, inr, ◌⊎◌,
  update, update_self, update_other,
}
use solar_net.ThreadPool.{
  ThreadPool, Worker, unlaunched, ready, settling, waiting, exited, busy, Stop, unasked, asked,
  locked, notified, init, is_stopping, woken,
}

-- What the state of a worker says of the pool.
abbrev pub Fits : List ℕ → Stop → Worker → Type 0
Fits tasks s exited = (tasks ≡ []) × (is_stopping s ≡ true)
Fits tasks s settling = (s ≡ unasked) ⊎ (s ≡ asked)
Fits tasks s waiting = s ≢ notified
Fits tasks s _ = Unit {0}

pub record IsSound (p : ThreadPool) : Type 0 where
  pub ordered : p.taken ++ p.tasks ≡ p.accepted
  pub fits : (i : ℕ) → Fits p.tasks p.stop (p.workers i)
  pub some_threads : 0 < p.thread_count

pub init-IsSound : (n : ℕ) → IsSound (init n)
unfolding init
init-IsSound n = record { ordered = refl; fits = λ i. tt; some_threads = ground arith }

-- One worker changes.
pub update-Fits :
    (p : ThreadPool) (i : ℕ) (w : Worker)
    → IsSound p
    → Fits p.tasks p.stop w
    → (j : ℕ) → Fits p.tasks p.stop (update p.workers i w j)
update-Fits p i w s f j = elim (ℕ_discrete j i) [
  | yes e ↦
      subst (Fits p.tasks p.stop) (sym (ap (update p.workers i w) e ∙ update_self p.workers i w)) f
  | no e ↦ subst (Fits p.tasks p.stop) (sym (update_other p.workers i j w e)) (s.fits j)
]

-- Without a task, or unless a worker has exited, the queue may change.
pub woken-Fits : (tasks : List ℕ) (s : Stop) (w : Worker) → Fits tasks s w → Fits tasks s (woken w)
woken-Fits tasks s unlaunched f = f
woken-Fits tasks s ready f = f
woken-Fits tasks s settling f = f
woken-Fits tasks s waiting f = tt
woken-Fits tasks s exited f = f
woken-Fits tasks s (busy t) f = f

pub pushed-Fits :
    (tasks tasks' : List ℕ) (s : Stop) (w : Worker)
    → is_stopping s ≡ false
    → Fits tasks s w
    → Fits tasks' s w
pushed-Fits tasks tasks' s unlaunched h f = f
pushed-Fits tasks tasks' s ready h f = f
pushed-Fits tasks tasks' s settling h f = f
pushed-Fits tasks tasks' s waiting h f = f
pushed-Fits tasks tasks' s exited h f = cc (h, f.1)
pushed-Fits tasks tasks' s (busy t) h f = f

pub asked-Fits : (tasks : List ℕ) (w : Worker) → Fits tasks unasked w → Fits tasks asked w
asked-Fits tasks unlaunched f = f
asked-Fits tasks ready f = f
asked-Fits tasks settling f = inr refl
asked-Fits tasks waiting f = λ e. cc
asked-Fits tasks exited f = (f.0, refl)
asked-Fits tasks (busy t) f = f

pub locked-Fits :
    (tasks : List ℕ) (w : Worker) → w ≢ settling → Fits tasks asked w → Fits tasks locked w
locked-Fits tasks unlaunched u f = f
locked-Fits tasks ready u f = f
locked-Fits tasks settling u f = absurd (u refl)
locked-Fits tasks waiting u f = λ e. cc
locked-Fits tasks exited u f = (f.0, refl)
locked-Fits tasks (busy t) u f = f

pub notified-Fits :
    (tasks : List ℕ) (w : Worker) → Fits tasks locked w → Fits tasks notified (woken w)
notified-Fits tasks unlaunched f = f
notified-Fits tasks ready f = f
notified-Fits tasks settling (inl e) = cc
notified-Fits tasks settling (inr e) = cc
notified-Fits tasks waiting f = tt
notified-Fits tasks exited f = (f.0, refl)
notified-Fits tasks (busy t) f = f

-- A task is taken: no worker can have exited.
pub taken-Fits : (t : ℕ) (ts : List ℕ) (s : Stop) (w : Worker) → Fits (t ∷ ts) s w → Fits ts s w
taken-Fits t ts s unlaunched f = f
taken-Fits t ts s ready f = f
taken-Fits t ts s settling f = f
taken-Fits t ts s waiting f = f
taken-Fits t ts s exited f = cc f.0
taken-Fits t ts s (busy u) f = f
