-- ===== src/Cl/Epoch/Rules.antt =====
-- Endings of CLMiner::initEpoch after free_buffers has locked the mutex, and their rules.
use etcminer.Prelude.{
  Bool, true, false, List, [], ◌∷◌, Option, some, none, ◌≡◌, refl, if◌then◌else◌,
}
use etcminer.Cl.State.{ClMiner, Call, OpenCl, ClError, Ending, returns, throws, locks_again, ◌>>=◌}
use etcminer.Cl.Buffers.{lock_abort, call, perform, kick_miner, pause}
use etcminer.Cl.Epoch.{catch, abandon}

-- A call of OpenCL is answered by an error.
abbrev pub Fails : OpenCl → Type 0
Fails gpu = (c : Call) × (e : ClError) × (gpu c ≡ some e)

-- An ending after free_buffers has locked the mutex: a result that meets P, or a failed call with the
-- mutex still locked.
abbrev pub Sound : {A : Type 0} → OpenCl → (A → ClMiner → Type 0) → Ending A → Type 0
Sound gpu P (returns a s) = P a s
Sound gpu P (throws e s) = (s.abort_locked ≡ true) × Fails gpu
Sound gpu P (locks_again s) = Fails gpu

pub bind-Sound :
    {A B : Type 0} (gpu : OpenCl) (P : A → ClMiner → Type 0) (Q : B → ClMiner → Type 0)
    (m : Ending A) (f : A → ClMiner → Ending B)
    → Sound gpu P m
    → ((a : A) (s : ClMiner) → P a s → Sound gpu Q (f a s))
    → Sound gpu Q (m >>= f)
bind-Sound gpu P Q (returns a s) f h k = k a s h
bind-Sound gpu P Q (throws e s) f h k = h
bind-Sound gpu P Q (locks_again s) f h k = h

pub catch-Sound :
    {A : Type 0} (gpu : OpenCl) (P : A → ClMiner → Type 0) (handle : ClError → ClMiner → Ending A)
    (m : Ending A)
    → Sound gpu P m
    → ((e : ClError) (s : ClMiner) → s.abort_locked ≡ true → Fails gpu → Sound gpu P (handle e s))
    → Sound gpu P (catch handle m)
catch-Sound gpu P handle (returns a s) h k = h
catch-Sound gpu P handle (throws e s) h k = k e s h.0 h.1
catch-Sound gpu P handle (locks_again s) h k = h

-- The mutex stays locked before each of the calls and after the last one.
abbrev pub LockedThrough : List (Call × (ClMiner → ClMiner)) → ClMiner → Type 0
LockedThrough [] s = Unit {0}
LockedThrough ((c, set) ∷ cs) s = (s.abort_locked ≡ true) × LockedThrough cs (set s)

abbrev pub apply_all : List (Call × (ClMiner → ClMiner)) → ClMiner → ClMiner
apply_all [] s = s
apply_all ((c, set) ∷ cs) s = apply_all cs (set s)

-- A call of OpenCL, answered or failed.
pub answer-Sound :
    {A : Type 0} (gpu : OpenCl) (P : A → ClMiner → Type 0) (c : Call) (o : Option ClError)
    (m : Ending A) (k : ClError → Ending A)
    → gpu c ≡ o
    → Sound gpu P m
    → ((e : ClError) → Fails gpu → Sound gpu P (k e))
    → Sound gpu P (elim o [ none ↦ m | some e ↦ k e ])
answer-Sound gpu P c none m k same h fails = h
answer-Sound gpu P c (some e) m k same h fails = fails e (c, e, same)

pub perform-Sound :
    (gpu : OpenCl) (P : ClMiner → Type 0) (cs : List (Call × (ClMiner → ClMiner))) (s : ClMiner)
    → LockedThrough cs s
    → P (apply_all cs s)
    → Sound gpu (λ a t. P t) (perform gpu cs s)
unfolding perform call
perform-Sound gpu P [] s locked h = h
perform-Sound gpu P ((c, set) ∷ cs) s locked h =
    bind-Sound gpu (λ a t. t ≡ set s) (λ a t. P t) (call gpu c set s) _
      (answer-Sound gpu (λ a t. t ≡ set s) c (gpu c) _ _ refl refl (λ e failed. (locked.0, failed)))
      (λ a t same. rw same (perform-Sound gpu P cs (set s) locked.1 h))

pub if-Sound :
    {A : Type 0} (gpu : OpenCl) (P : A → ClMiner → Type 0) (b : Bool) (m n : Ending A)
    → (b ≡ true → Sound gpu P m)
    → (b ≡ false → Sound gpu P n)
    → Sound gpu P (if b then m else n)
if-Sound gpu P true m n h k = h refl
if-Sound gpu P false m n h k = k refl

-- A handler pauses the miner, and so locks the mutex again.
pub abandon-locks_again :
    {A : Type 0} (a : A) (gpu : OpenCl) (s : ClMiner)
    → s.abort_locked ≡ true
    → (t : ClMiner) × (abandon a gpu s ≡ locks_again t)
unfolding abandon pause kick_miner lock_abort
abandon-locks_again a gpu s h = rw h (_, refl)

pub abandon-Sound :
    {A : Type 0} (a : A) (gpu : OpenCl) (P : A → ClMiner → Type 0) (s : ClMiner)
    → s.abort_locked ≡ true
    → Fails gpu
    → Sound gpu P (abandon a gpu s)
abandon-Sound a gpu P s h failed = let (t, e) = abandon-locks_again a gpu s h in rw e failed
