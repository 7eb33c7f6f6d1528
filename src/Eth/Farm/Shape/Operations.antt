-- ===== src/Eth/Farm/Shape/Operations.antt =====
-- The farm's operations as a sequence of calls, from the farm that has not started.
use mathlib.Core.Path.{subst}
use etcminer.Prelude.{ℕ, Bool, ◌≡◌, ap, sym, ◌∙◌, List, [], ◌∷◌, Text, length}
use etcminer.Prelude.Int.{ℤ}
use etcminer.Eth.Work.{WorkPackage}
use etcminer.Eth.Miner.Device.{SolutionAccounting}
use etcminer.Eth.Farm.State.{Farm}
use etcminer.Eth.Farm.Nonce.{set_work}
use etcminer.Eth.Farm.Lifecycle.{Build, start, stop, pause, resume}
use etcminer.Eth.Farm.Accounts.{account_solution}
use etcminer.Eth.Farm.Collect.{
  Reading, Collected, rearmed, hung, hung_gpu, out_of_range, collect_data,
}
use etcminer.Eth.Farm.Shape.{
  Indexed, Inv, start-Inv, stop-Inv, pause-Inv, resume-Inv, set_work-Inv, account_solution-Inv,
}
use etcminer.Eth.Farm.Shape.Rounds.{Ends, collect_data-Ends}

-- A call of the farm, with what the code around it supplies.
pub data Operation : Type 0 where
  starts : Build → ℕ → Operation
  stops pauses resumes : Operation
  works : (Text → ℕ) → ℕ → WorkPackage → Operation
  accounts : ℕ → SolutionAccounting → ℕ → Operation
  collects : Bool → (ℤ → Reading) → (ℤ → Reading) → Operation

-- The farm after a round, whether or not an exception ends it.
abbrev pub collected_farm : Farm → Collected → Farm
collected_farm f (rearmed g) = g
collected_farm f (hung g i) = g
collected_farm f (hung_gpu g i) = g
collected_farm f out_of_range = f

unfoldable pub apply : Operation → Farm → Farm
apply (starts b now) f = start b now f
apply stops f = (stop f).0
apply pauses f = pause f
apply resumes f = resume f
apply (works strtoull random w) f = set_work strtoull random w f
apply (accounts i how now) f = (account_solution i how now f).0
apply (collects exit nvml sysfs) f = collected_farm f (collect_data exit nvml sysfs f)

unfoldable pub apply_all : List Operation → Farm → Farm
unfolding apply
apply_all [] f = f
apply_all (o ∷ os) f = apply_all os (apply o f)

collected-Inv : (exit : Bool) (f : Farm) (c : Collected) → Ends exit c → Inv (collected_farm f c)
collected-Inv exit f (rearmed g) h = h
collected-Inv exit f (hung g i) h = h.1
collected-Inv exit f (hung_gpu g i) h = h.1
collected-Inv exit f out_of_range h = absurd h

apply-Inv : (o : Operation) (f : Farm) → Inv f → Inv (apply o f)
unfolding apply
apply-Inv (starts b now) f v = start-Inv b now v
apply-Inv stops f v = stop-Inv v
apply-Inv pauses f v = pause-Inv v
apply-Inv resumes f v = resume-Inv v
apply-Inv (works strtoull random w) f v = set_work-Inv strtoull random w v
apply-Inv (accounts i how now) f v = account_solution-Inv i how now v
apply-Inv (collects exit nvml sysfs) f v =
    collected-Inv exit f _ (collect_data-Ends exit nvml sysfs f v)

keeps-Inv : (os : List Operation) (f : Farm) → Inv f → Inv (apply_all os f)
unfolding apply_all
keeps-Inv [] f v = v
keeps-Inv (o ∷ os) f v = keeps-Inv os (apply o f) (apply-Inv o f v)

-- From a farm that has no miners and no accounts of miners, every series of calls leads to one whose i-th
-- miner has the index i, with an account for each miner, and no miners unless it mines.
pub apply_all-Inv :
    (os : List Operation) (f : Farm)
    → f.miners ≡ []
    → f.telemetry.miners ≡ []
    → Inv (apply_all os f)
apply_all-Inv os f e t = keeps-Inv os f (record {
  accounts = ap length t ∙ sym (ap length e);
  indexed = subst (Indexed 0) (sym e) tt;
  idle = λ still. e;
})
