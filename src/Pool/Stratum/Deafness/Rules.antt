-- ===== src/Pool/Stratum/Deafness/Rules.antt =====
-- Actions of the stratum client that leave the job alone, and what they are made of.
use etcminer.Prelude.{
  ◌≡◌, ◌∙◌, refl, arith, Bool, true, false, ◌||◌, Option, some, none, if◌then◌else◌,
}
use etcminer.Eth.Work.{WorkPackage}
use etcminer.Pool.Session.{Session}
use etcminer.Pool.Stratum.State.{
  StratumClient, Action, Result, ok, thrown, uncaught, ◌>>=◌, modify, pure, attempt, on_session,
  gets,
}

-- The job, and whether there is a new one.
abbrev pub job : StratumClient → WorkPackage × Bool
job c = (c.current, c.newjobprocessed)

-- An action that leaves the job alone.
pub record Keeps {A : Type 0} (m : Action A) : Type 0 where
  pub same : (c : StratumClient) → job (m c).0 ≡ job c

pub resume_with :
    {A B : Type 0} → (A → Action B) → StratumClient → Result A → StratumClient × Result B
resume_with k d (ok a) = k a d
resume_with k d thrown = (d, thrown)
resume_with k d uncaught = (d, uncaught)

pub after_bind :
    {A B : Type 0} (k : A → Action B) (c d : StratumClient) (r : Result A)
    → job d ≡ job c
    → ((a : A) → Keeps (k a))
    → job (resume_with k d r).0 ≡ job c
unfolding resume_with
after_bind k c d (ok a) e later = (later a).same d ∙ e
after_bind k c d thrown e later = e
after_bind k c d uncaught e later = e

pub bind-Keeps :
    {A B : Type 0} (m : Action A) (k : A → Action B)
    → Keeps m
    → ((a : A) → Keeps (k a))
    → Keeps (m >>= k)
unfolding ◌>>=◌ resume_with
bind-Keeps m k first later = record {
  same = λ c. after_bind k c (m c).0 (m c).1 (first.same c) later;
}

pub modify-Keeps :
    (f : StratumClient → StratumClient)
    → ((c : StratumClient) → job (f c) ≡ job c)
    → Keeps (modify f)
unfolding modify
modify-Keeps f same = record { same = same }

pub pure-Keeps : {A : Type 0} (a : A) → Keeps (pure a)
unfolding pure
pure-Keeps a = record { same = λ c. refl }

pub gets-Keeps : {A : Type 0} (f : StratumClient → A) → Keeps (gets f)
unfolding gets
gets-Keeps f = record { same = λ c. refl }

pub attempt-Keeps : {A : Type 0} (o : Option A) → Keeps (attempt o)
unfolding attempt
attempt-Keeps none = record { same = λ c. refl }
attempt-Keeps (some a) = record { same = λ c. refl }

pub if-Keeps :
    {A : Type 0} (b : Bool) (m k : Action A) → Keeps m → Keeps k → Keeps (if b then m else k)
if-Keeps true m k then_kept else_kept = then_kept
if-Keeps false m k then_kept else_kept = else_kept

pub on_session-Keeps : (f : Session → Session) → Keeps (on_session f)
unfolding on_session
on_session-Keeps f = record { same = λ c. ground arith }

-- An action that leaves the job of one client alone.
pub record KeepsAt {A : Type 0} (m : Action A) (c : StratumClient) : Type 0 where
  pub same : job (m c).0 ≡ job c

pub at-KeepsAt : {A : Type 0} (m : Action A) (c : StratumClient) → Keeps m → KeepsAt m c
at-KeepsAt m c keeps = record { same = keeps.same c }

pub attempt-KeepsAt :
    {A B : Type 0} (o : Option A) (k : A → Action B) (c : StratumClient)
    → ((a : A) → KeepsAt (k a) c)
    → KeepsAt (attempt o >>= k) c
unfolding ◌>>=◌ attempt
attempt-KeepsAt none k c later = record { same = refl }
attempt-KeepsAt (some a) k c later = record { same = (later a).same }

pub gets-KeepsAt :
    {A B : Type 0} (f : StratumClient → A) (k : A → Action B) (c : StratumClient)
    → KeepsAt (k (f c)) c
    → KeepsAt (gets f >>= k) c
unfolding ◌>>=◌ gets
gets-KeepsAt f k c later = record { same = later.same }

pub if-KeepsAt :
    {A : Type 0} (b : Bool) (m k : Action A) (c : StratumClient)
    → KeepsAt m c
    → KeepsAt k c
    → KeepsAt (if b then m else k) c
if-KeepsAt true m k c then_kept else_kept = then_kept
if-KeepsAt false m k c then_kept else_kept = else_kept

pub anything_or : (b : Bool) → (b || true) ≡ true
anything_or true = refl
anything_or false = refl

pub if_true-KeepsAt :
    {A : Type 0} (b : Bool) (m k : Action A) (c : StratumClient)
    → b ≡ true
    → KeepsAt m c
    → KeepsAt (if b then m else k) c
if_true-KeepsAt true m k c e then_kept = then_kept
if_true-KeepsAt false m k c e then_kept = absurd (ground (arith, e))

pub if_false-KeepsAt :
    {A : Type 0} (b : Bool) (m k : Action A) (c : StratumClient)
    → b ≡ false
    → KeepsAt k c
    → KeepsAt (if b then m else k) c
if_false-KeepsAt true m k c e else_kept = absurd (ground (arith, e))
if_false-KeepsAt false m k c e else_kept = else_kept

pub ruleset actions =
    (bind-Keeps, pure-Keeps, gets-Keeps, attempt-Keeps, if-Keeps, on_session-Keeps)
