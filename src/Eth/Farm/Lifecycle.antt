-- ===== src/Eth/Farm/Lifecycle.antt =====
-- Farm::start, stop, pause and resume of libeth/Farm.cpp.
use etcminer.Prelude.{
  ℕ, Bool, true, false, List, [], ◌∷◌, ◌++◌, map, codes, ◌==◌, if◌then◌else◌, is_empty, length,
  Text,
}
use etcminer.Dev.Worker.{start_working, trigger_stop_working}
use etcminer.Eth.Miner
use etcminer.Eth.Miner.{Miner}
use etcminer.Eth.Miner.Flags.{farm_paused}
use etcminer.Eth.Miner.Device.{
  DeviceDescriptor, SubscriptionType, unsubscribed, open_cl, cuda, no_monitor, TelemetryAccount,
  new_account,
}
use etcminer.Eth.Farm.State.{Farm, FarmSettings}

-- startWorking of a miner, which the base class Worker implements.
unfoldable pub start_miner : Miner.Miner → Miner.Miner
start_miner m = record m { worker = start_working m.worker }

-- triggerStopWorking and kick_miner.
unfoldable pub stop_miner : Miner.Miner → Miner.Miner
stop_miner m = Miner.kick_miner (record m { worker = trigger_stop_working m.worker })

-- The options of the build, ETH_ETHASHCUDA and ETH_ETHASHCL. The branch for ETH_ETHASHCPU names a
-- library that the repository does not have.
pub record Build : Type 0 where
  pub with_cuda : Bool
  pub with_cl : Bool

-- Whether start makes a miner for a device.
unfoldable pub is_supported : Build → SubscriptionType → Bool
is_supported b unsubscribed = false
is_supported b open_cl = b.with_cl
is_supported b cuda = b.with_cuda

-- The settings that start writes into a device's descriptor, by its subscription type.
unfoldable pub configure_as :
    Build → FarmSettings → SubscriptionType → DeviceDescriptor → DeviceDescriptor
configure_as b s unsubscribed d = d
configure_as b s cuda d =
    if b.with_cuda
    then record d {
      cu_block_size = (if s.cu_block_size == 0 then d.cu_block_size else s.cu_block_size);
      cu_stream_size = (if s.cu_streams == 0 then d.cu_stream_size else s.cu_streams);
    }
    else d
configure_as b s open_cl d =
    if b.with_cl
    then record d {
      cl_group_size = (if s.cl_group_size == 0 then d.cl_group_size else s.cl_group_size);
      cl_split = s.cl_split;
    }
    else d

unfoldable pub configure : Build → FarmSettings → DeviceDescriptor → DeviceDescriptor
unfolding configure_as
configure b s d = configure_as b s d.subscription_type d

abbrev pub miner_prefix : SubscriptionType → Text
miner_prefix unsubscribed = []
miner_prefix open_cl = codes "cl"
miner_prefix cuda = codes "cu"

-- A new miner, whose worker is started at once.
unfoldable pub launch : ℕ → ℕ → Miner.Miner
launch index now = start_miner (Miner.new_miner index no_monitor now)

-- The loop over the devices: a miner and its telemetry account for each that the build supports.
unfoldable pub start_devices :
    Build
    → ℕ
    → List DeviceDescriptor
    → List Miner.Miner
    → List TelemetryAccount
    → List Miner.Miner × List TelemetryAccount
unfolding launch is_supported
start_devices b now [] ms ts = (ms, ts)
start_devices b now (d ∷ ds) ms ts =
    start_devices b now ds
      (if is_supported b d.subscription_type then ms ++ launch (length ms) now ∷ [] else ms)
      (if is_supported b d.subscription_type
        then ts ++ new_account (miner_prefix d.subscription_type) now ∷ []
        else ts)

-- What start does when the farm is not mining yet.
unfoldable pub spin_up : Build → ℕ → Farm → Farm
unfolding configure start_devices
spin_up b now f =
    if is_empty f.miners
    then (let ds = map (configure b f.settings) f.devices in
        let (ms, ts) = start_devices b now ds [] f.telemetry.miners in
        record f {
          devices = ds;
          miners = ms;
          telemetry = (record (f.telemetry) { miners = ts });
          is_mining = true;
        })
    else record f { miners = map start_miner f.miners; is_mining = true }

unfoldable pub start : Build → ℕ → Farm → Farm
unfolding spin_up
start b now f = if f.is_mining then f else spin_up b now f

-- stop, with the miners that it lets go of: each is told to stop and woken up.
unfoldable pub stop : Farm → Farm × List Miner.Miner
unfolding stop_miner
stop f =
    if f.is_mining
    then (
      record f {
        miners = [];
        telemetry = (record (f.telemetry) { miners = [] });
        is_mining = false;
      },
      map stop_miner f.miners,
    )
    else (f, [])

unfoldable pub pause : Farm → Farm
pause f = record f { is_paused = true; miners = map (Miner.pause farm_paused) f.miners }

unfoldable pub resume : Farm → Farm
resume f = record f { is_paused = false; miners = map (Miner.resume farm_paused) f.miners }
