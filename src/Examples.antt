-- ===== src/Examples.antt =====
-- Tests of the definitions, and the theorems at concrete inputs.
mod Fixtures
mod FarmCases
mod ByteCases
mod PoolCases
mod UriCases
mod WorkerCases
mod StratumCases
mod ApiCases
mod GpuCases
mod CliCases
