-- ===== src/Eth/Epoch.antt =====
-- libeth/EthashAux.h and libeth/Miner.cpp: the context of an epoch, and its setting for a work package.
use etcminer.Prelude.{ℕ, Bool, true, false}
use etcminer.Prelude.Int.{ℤ, pos}
use etcminer.Eth.Work.{WorkPackage}

-- struct EpochContext; `light_cache` is whether the pointer is set.
pub record EpochContext : Type 0 where
  pub epoch_number : ℤ
  pub light_num_items : ℕ
  pub light_size : ℕ
  pub light_cache : Bool
  pub dag_num_items : ℕ
  pub dag_size : ℕ

abbrev pub no_epoch : EpochContext
no_epoch = record {
  epoch_number = pos 0;
  light_num_items = 0;
  light_size = 0;
  light_cache = false;
  dag_num_items = 0;
  dag_size = 0;
}

-- The functions of the ethash library that give the sizes of an epoch.
pub record Ethash : Type 0 where
  pub light_cache_num_items : ℤ → ℕ
  pub full_dataset_num_items : ℤ → ℕ
  pub get_light_cache_size : ℕ → ℕ
  pub get_full_dataset_size : ℕ → ℕ

-- setEpoch
unfoldable pub set_epoch : Ethash → WorkPackage → EpochContext
set_epoch ethash w = record {
  epoch_number = w.epoch;
  light_num_items = ethash.light_cache_num_items w.epoch;
  light_size = ethash.get_light_cache_size (ethash.light_cache_num_items w.epoch);
  light_cache = true;
  dag_num_items = ethash.full_dataset_num_items w.epoch;
  dag_size = ethash.get_full_dataset_size (ethash.full_dataset_num_items w.epoch);
}

-- freeCache
unfoldable pub free_cache : EpochContext → EpochContext
free_cache e = record e { light_cache = false }
