-- ===== src/Cl/Dag/Cover.antt =====
-- The runs of the kernel that generates the DAG cover its items.
use etcminer.Prelude.{
  ℕ, zero, suc, ◌+◌, ◌-◌, ◌*◌, ◌/◌, ◌%◌, ◌<◌, ◌≤◌, ◌≡◌, refl, arith, leb, ltb, List, [], ◌∷◌, inl,
  inr, Bool-cases, u32, leb→le, ltb→lt,
}
use native.Mathlib.Nat.{div-add-mod, mod-lt}
use etcminer.Cl.Dag.{chunk_of, last_run, dag_runs_from, dag_runs, first_half, second_half}

-- Runs that follow one another from one item to another.
abbrev pub Tiles : ℕ → List (ℕ × ℕ) → ℕ → Type 0
Tiles start [] stop = start ≡ stop
Tiles start ((first, count) ∷ runs) stop = (first ≡ start) × Tiles (start + count) runs stop

-- The runs cover the items, and less than a group more.
abbrev pub Covers : ℕ → ℕ → ℕ → List (ℕ × ℕ) → Type 0
Covers group work_items start runs =
    (stop : ℕ) × Tiles start runs stop × (work_items ≤ stop) × (stop < work_items + group)

rounded_up :
    (group rest : ℕ)
    → 0 < group
    → 0 < rest
    → (rest ≤ (rest + group - 1) / group * group)
      × ((rest + group - 1) / group * group < rest + group)
rounded_up group rest pos some_left = (
  omega (arith, div-add-mod (rest + group - 1) group, mod-lt (rest + group - 1) pos),
  omega (arith, div-add-mod (rest + group - 1) group),
)

last_run-Covers :
    (group work_items start : ℕ)
    → 0 < group
    → work_items + group < 4294967296
    → start ≤ work_items
    → Covers group work_items start (last_run group work_items start)
unfolding last_run
last_run-Covers group work_items start pos fits before = elim (Bool-cases (ltb start work_items)) [
  | inl e ↦
      (let up =
          rounded_up group (work_items - start) pos (omega (arith, ltb→lt start work_items e)) in
        let same : u32 (u32 (work_items - start + group - 1) / group * group)
            ≡ (work_items - start + group - 1) / group * group =
          whole in
        rw (e, same)
          (
            start + (work_items - start + group - 1) / group * group,
            (refl, refl),
            omega (arith, up.0),
            omega (arith, up.1),
          ))
  | inr e ↦ rw e (start, refl, ground arith, ground arith)
]
  where
    whole :
        u32 (u32 (work_items - start + group - 1) / group * group)
        ≡ (work_items - start + group - 1) / group * group
    whole =
        let inner : u32 (work_items - start + group - 1) ≡ work_items - start + group - 1 =
          omega arith in
        rw inner (omega (arith, div-add-mod (work_items - start + group - 1) group))

dag_runs_from-Covers :
    (fuel group chunk work_items start : ℕ)
    → 0 < group
    → 0 < chunk
    → chunk ≤ work_items
    → work_items + group < 4294967296
    → start ≤ work_items
    → work_items ≤ start + fuel
    → Covers group work_items start (dag_runs_from fuel group chunk work_items start)
unfolding dag_runs_from
dag_runs_from-Covers zero group chunk work_items start pos some_items cut fits before enough =
    last_run-Covers group work_items start pos fits before
dag_runs_from-Covers (suc fuel) group chunk work_items start pos some_items cut fits before enough =
    elim (Bool-cases (leb start (work_items - chunk))) [
      | inl e ↦
          (let room = leb→le start (work_items - chunk) e in
            let same : u32 (start + chunk) ≡ start + chunk = omega arith in
            let (stop, tiles, far, near) =
              dag_runs_from-Covers fuel group chunk work_items (start + chunk) pos some_items cut
                fits (omega arith) (omega arith) in
            rw (e, same) (stop, (refl, tiles), far, near))
      | inr e ↦ rw e (last_run-Covers group work_items start pos fits before)
    ]

chunk_of-bounds :
    (group multiple work_items : ℕ)
    → 0 < u32 (group * multiple)
    → 0 < work_items
    → (0 < chunk_of group multiple work_items) × (chunk_of group multiple work_items ≤ work_items)
unfolding chunk_of
chunk_of-bounds group multiple work_items some_chunk some_items = ground arith

-- The runs of the kernel generate every item of the DAG: they follow one another without a gap or an
-- overlap from item 0 to beyond the last one, by less than the size of a group. This is for a chunk that
-- is not 0 in 32 bits, and items that fit in 32 bits together with a group.
pub dag_runs-Covers :
    (group multiple work_items : ℕ)
    → 0 < group
    → 0 < u32 (group * multiple)
    → 0 < work_items
    → work_items + group < 4294967296
    → Covers group work_items 0 (dag_runs group multiple work_items)
unfolding dag_runs
dag_runs-Covers group multiple work_items pos some_chunk some_items fits =
    let bounds = chunk_of-bounds group multiple work_items some_chunk some_items in
    dag_runs_from-Covers work_items group (chunk_of group multiple work_items) work_items 0 pos
      bounds.0 bounds.1 fits (omega arith) (omega arith)

-- The two buffers of a split DAG hold it, and none of its items is cut: an item has 128 bytes.
pub halves_whole :
    (items : ℕ)
    → (first_half items (128 * items) + second_half items (128 * items) ≡ 128 * items)
      × (first_half items (128 * items) % 128 ≡ 0)
      × (second_half items (128 * items) % 128 ≡ 0)
unfolding first_half second_half
halves_whole items = (ground arith, ground arith, ground arith)
