-- ===== src/Cl/Dag.antt =====
-- The generation of the DAG, in CLMiner::initEpoch of libcl/CLMiner.cpp: how its items are divided into
-- runs of the kernel and into the two buffers. The variables are uint32_t.
pub mod Cover
use etcminer.Prelude.{
  ℕ, zero, suc, ◌+◌, ◌-◌, ◌*◌, ◌/◌, ◌%◌, ltb, leb, ◌==◌, List, [], ◌∷◌, if◌then◌else◌, u32,
}

-- chunk, cut to the number of items.
unfoldable pub chunk_of : ℕ → ℕ → ℕ → ℕ
chunk_of group multiple work_items =
    let chunk = u32 (group * multiple) in if ltb work_items chunk then work_items else chunk

-- What is left after the loop.
unfoldable pub last_run : ℕ → ℕ → ℕ → List (ℕ × ℕ)
last_run group work_items start =
    if ltb start work_items
    then (start, u32 (u32 (work_items - start + group - 1) / group * group)) ∷ []
    else []

-- The loop over the chunks on fuel, and what is left: the runs of the kernel, each by its first item
-- and its number of items. `work_items - chunk` does not wrap, by chunk_of.
unfoldable pub dag_runs_from : ℕ → ℕ → ℕ → ℕ → ℕ → List (ℕ × ℕ)
unfolding last_run
dag_runs_from zero group chunk work_items start = last_run group work_items start
dag_runs_from (suc fuel) group chunk work_items start =
    let next = dag_runs_from fuel group chunk work_items (u32 (start + chunk)) in
    if leb start (work_items - chunk)
    then (start, chunk) ∷ next
    else last_run group work_items start

-- As many rounds as there are items are enough for chunks that are not empty.
unfoldable pub dag_runs : ℕ → ℕ → ℕ → List (ℕ × ℕ)
unfolding dag_runs_from chunk_of
dag_runs group multiple work_items =
    dag_runs_from work_items group (chunk_of group multiple work_items) work_items 0

-- The sizes of the two buffers where the DAG is split: `items` is the number of its items.
unfoldable pub first_half : ℕ → ℕ → ℕ
first_half items size = size / 2 + (if items % 2 == 1 then 64 else 0)

unfoldable pub second_half : ℕ → ℕ → ℕ
second_half items size = size / 2 - (if items % 2 == 1 then 64 else 0)
