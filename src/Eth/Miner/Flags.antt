-- ===== src/Eth/Miner/Flags.antt =====
-- libeth/Miner.h: the reasons to pause (enum MinerPauseEnum) and the bit set of those in force.
use etcminer.Prelude.{Bool, true, false, ◌||◌, [], ◌++◌, Text, codes, if◌then◌else◌, is_empty}
use etcminer.Prelude.{List, ◌∷◌}

pub data MinerPause : Type 0 where
  overheating api_request farm_paused insufficient_memory init_epoch_error : MinerPause

pub MinerPause-discrete : Discrete MinerPause
MinerPause-discrete = hlevel

-- bitset<Pause_MAX>, one field for each bit in the order of the enum.
pub record PauseFlags : Type 0 where
  pub overheating_bit : Bool
  pub api_request_bit : Bool
  pub farm_paused_bit : Bool
  pub insufficient_memory_bit : Bool
  pub init_epoch_error_bit : Bool

abbrev pub no_flags : PauseFlags
no_flags = record {
  overheating_bit = false;
  api_request_bit = false;
  farm_paused_bit = false;
  insufficient_memory_bit = false;
  init_epoch_error_bit = false;
}

abbrev pub test_flag : MinerPause → PauseFlags → Bool
test_flag overheating f = f.overheating_bit
test_flag api_request f = f.api_request_bit
test_flag farm_paused f = f.farm_paused_bit
test_flag insufficient_memory f = f.insufficient_memory_bit
test_flag init_epoch_error f = f.init_epoch_error_bit

abbrev pub write_flag : MinerPause → Bool → PauseFlags → PauseFlags
write_flag overheating b f = record f { overheating_bit = b }
write_flag api_request b f = record f { api_request_bit = b }
write_flag farm_paused b f = record f { farm_paused_bit = b }
write_flag insufficient_memory b f = record f { insufficient_memory_bit = b }
write_flag init_epoch_error b f = record f { init_epoch_error_bit = b }

abbrev pub set_flag : MinerPause → PauseFlags → PauseFlags
set_flag what f = write_flag what true f

abbrev pub reset_flag : MinerPause → PauseFlags → PauseFlags
reset_flag what f = write_flag what false f

abbrev pub any_flag : PauseFlags → Bool
any_flag f =
    f.overheating_bit
    || (f.api_request_bit
        || (f.farm_paused_bit || (f.insufficient_memory_bit || f.init_epoch_error_bit)))

-- The name that pausedString gives a reason.
unfoldable pub reason_text : MinerPause → Text
reason_text overheating = codes "Overheating"
reason_text api_request = codes "Api request"
reason_text farm_paused = codes "Farm suspended"
reason_text insufficient_memory = codes "Insufficient GPU memory"
reason_text init_epoch_error = codes "Epoch initialization error"

-- The loop's counter: every reason, in the order of the enum.
abbrev pub all_reasons : List MinerPause
all_reasons = overheating ∷ api_request ∷ farm_paused ∷ insufficient_memory ∷ init_epoch_error ∷ []

-- The loop of pausedString over the reasons that are left.
unfoldable pub append_reasons : PauseFlags → List MinerPause → Text → Text
unfolding reason_text
append_reasons f [] text = text
append_reasons f (r ∷ rs) text = append_reasons f rs (
    if test_flag r f
    then (if is_empty text then text else text ++ codes "; ") ++ reason_text r
    else text)

unfoldable pub paused_string : PauseFlags → Text
unfolding append_reasons
paused_string f = if any_flag f then append_reasons f all_reasons [] else []
