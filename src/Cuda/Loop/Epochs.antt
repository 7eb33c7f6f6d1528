-- ===== src/Cuda/Loop/Epochs.antt =====
-- The DAG under which CUDAMiner::workLoop searches.
use etcminer.Prelude.{
  ◌≡◌, refl, sym, ap, ◌∙◌, ℕ, Option, none, some, Bool, true, false, List, [], ◌∷◌, All, ◌⊎◌, inl,
  inr, if◌then◌else◌,
}
use etcminer.Prelude.Int.{ℤ, int_eq, int_eq→eq, minus_one}
use etcminer.Eth.Work.{WorkPackage, has_work}
use etcminer.Eth.Epoch.{EpochContext, Ethash, set_epoch, free_cache}
use etcminer.Cuda.State.{CudaMiner, Ending, returns, throws, waits}
use etcminer.Cuda.Epoch.{init_epoch}
use etcminer.Cuda.Search.{Progress, finished, running, search}
use etcminer.Cuda.Loop.Held.{Keeps, search-Keeps, Makes, init_epoch-Makes}
use etcminer.Cuda.Loop.{
  Loop, Round, Turn, goes_on, left, thrown, stuck, searching, after_init, change_epoch,
  after_search, mine, set_hung, round, rounds, start_loop, adjust, upper_boundary,
}

-- The search of a package while the device held the DAG of its epoch, unless the package carries none.
abbrev pub OwnDag : Option ℤ × WorkPackage → Type 0
OwnDag (dag, w) = (dag ≡ some w.epoch) ⊎ (w.epoch ≡ minus_one)

-- All searches were such, and the last package is of the epoch in the device, if it carries one.
abbrev Sound : Loop → Type 0
Sound l = All OwnDag l.searches × OwnDag (l.miner.dag_contents, l.last)

abbrev pub loop_of : Turn → Loop
loop_of (goes_on l) = l
loop_of (left l) = l
loop_of (thrown l) = l
loop_of (stuck l) = l
loop_of (searching l) = l

abbrev Holds : Turn → Type 0
Holds (goes_on l) = Sound l
Holds (left l) = All OwnDag l.searches
Holds (thrown l) = All OwnDag l.searches
Holds (stuck l) = All OwnDag l.searches
Holds (searching l) = All OwnDag l.searches

after_init-Holds :
    (w : WorkPackage) (l : Loop) (m : Ending Bool)
    → All OwnDag l.searches
    → l.epoch_context.epoch_number ≡ w.epoch
    → Makes l.epoch_context m
    → Holds (after_init w l m)
unfolding after_init free_cache
after_init-Holds w l (returns true s) safe same made = (safe, inl (made ∙ ap some same))
after_init-Holds w l (returns false s) safe same made = safe
after_init-Holds w l (throws s) safe same made = safe
after_init-Holds w l (waits s) safe same made = safe

after_search-Holds :
    (l : Loop) (m : Ending Progress) → Sound l → Keeps l.miner m → Holds (after_search l m)
unfolding after_search
after_search-Holds l (returns finished s) (safe, inl own) kept = (safe, inl (kept ∙ own))
after_search-Holds l (returns finished s) (safe, inr none_carried) kept = (safe, inr none_carried)
after_search-Holds l (returns running s) sound kept = sound.0
after_search-Holds l (throws s) sound kept = sound.0
after_search-Holds l (waits s) sound kept = sound.0

carry_over :
    (dag : Option ℤ) (w v : WorkPackage) → v.epoch ≡ w.epoch → OwnDag (dag, w) → OwnDag (dag, v)
carry_over dag w v same (inl e) = inl (e ∙ ap some (sym same))
carry_over dag w v same (inr e) = inr (same ∙ e)

round-Holds : (ethash : Ethash) (r : Round) (l : Loop) → Sound l → Holds (round ethash r l)
unfolding round set_hung mine change_epoch set_epoch adjust
round-Holds ethash r l (safe, own) = by_work (has_work r.work)
  where
    adjusted :
        (n : Option ℕ)
        → Keeps l.miner (search r.gpu r.passes (upper_boundary r.work) r.work (adjust n l.miner))
    adjusted none = search-Keeps r.gpu r.passes (upper_boundary r.work) r.work l.miner
    adjusted (some n) =
        search-Keeps r.gpu r.passes (upper_boundary r.work) r.work (adjust (some n) l.miner)

    by_epoch :
        (b : Bool)
        → int_eq r.work.epoch l.last.epoch ≡ b
        → Holds (if b then mine r l else change_epoch ethash r l)
    by_epoch true e =
        let mine_too = carry_over l.miner.dag_contents l.last r.work (int_eq→eq _ _ e) own in
        after_search-Holds
          (record l { last = r.work; searches = (l.miner.dag_contents, r.work) ∷ l.searches })
          (search r.gpu r.passes (upper_boundary r.work) r.work (adjust r.multiple l.miner))
          ((mine_too, safe), mine_too) (adjusted r.multiple)
    by_epoch false e =
        after_init-Holds r.work (record l { epoch_context = set_epoch ethash r.work })
          (init_epoch r.gpu (set_epoch ethash r.work) l.miner) safe refl
          (init_epoch-Makes (set_epoch ethash r.work) r.gpu l.miner)

    by_work :
        (b : Bool)
        → Holds (
            if b
            then (if int_eq r.work.epoch l.last.epoch then mine r l else change_epoch ethash r l)
            else goes_on (set_hung false l))
    by_work true = by_epoch (int_eq r.work.epoch l.last.epoch) refl
    by_work false = (safe, own)

rounds-Holds : (ethash : Ethash) (rs : List Round) (l : Loop) → Sound l → Holds (rounds ethash rs l)
unfolding rounds
rounds-Holds ethash [] l sound = sound
rounds-Holds ethash (r ∷ rs) l sound =
    after (round ethash r l) (round-Holds ethash r l sound)
      (λ m kept. rounds-Holds ethash rs m kept)
  where
    after :
        (t : Turn)
        → Holds t
        → ((m : Loop) → Sound m → Holds (rounds ethash rs m))
        → Holds (elim t [
          | goes_on m ↦ rounds ethash rs m
          | left m ↦ left m
          | thrown m ↦ thrown m
          | stuck m ↦ stuck m
          | searching m ↦ searching m
        ])
    after (goes_on m) h next = next m h
    after (left m) h next = h
    after (thrown m) h next = h
    after (stuck m) h next = h
    after (searching m) h next = h

Holds-All : (t : Turn) → Holds t → All OwnDag (loop_of t).searches
Holds-All (goes_on l) h = h.0
Holds-All (left l) h = h
Holds-All (thrown l) h = h
Holds-All (stuck l) h = h
Holds-All (searching l) h = h

-- However the work loop of a CUDA device runs, every package that carries an epoch was searched while the
-- device held the DAG of that epoch, made since the last reset of the device.
pub rounds-OwnDag :
    (ethash : Ethash) (rs : List Round) (e : EpochContext) (s : CudaMiner)
    → All OwnDag (loop_of (rounds ethash rs (start_loop e s))).searches
rounds-OwnDag ethash rs e s = Holds-All _ (rounds-Holds ethash rs (start_loop e s) (tt, inr refl))
