-- ===== src/Cl/Loop/Searched.antt =====
-- Every solution that CLMiner::workLoop submits is one that the device found.
use etcminer.Prelude.{
  ℕ, ◌<◌, ◌≡◌, refl, ◌∙◌, ap, Bool, true, false, List, [], ◌∷◌, map, Option, some, none, ◌⊎◌, inl,
  inr, text_eq, text_eq→eq, All, if◌then◌else◌,
}
use etcminer.Prelude.Int.{int_eq}
use etcminer.Eth.Work.{WorkPackage, has_work, Solution}
use etcminer.Eth.Epoch.{Ethash}
use etcminer.Cl.State.{
  set_nonce, run_search, ClMiner, Call, OpenCl, ClError, Ending, returns, throws, locks_again, ◌>>◌,
}
use etcminer.Cl.Buffers.{call, perform}
use etcminer.Eth.Batch.{
  Batch, SearchResults, reported, Among, Searched, Honest, All-map, All-reported, weaken-Searched,
}
use etcminer.Cl.Loop.{
  Loop, Round, Turn, goes_on, left, stuck, null_queue, thrown, proceed, guarded, enqueue,
  results_of, read, set_hung, switch, change_epoch, prepare, adjust, batch_blocks, run_kernel,
  submit, report, advance, search, round, rounds, start_loop,
}

-- The offset is one of a batch that was run for the current work.
abbrev Within : Loop → ℕ → Type 0
Within l g =
    (b : Batch) × Among b l.batches
    × (b.header ≡ l.current.header)
    × (b.start ≡ l.current.start_nonce)
    × (g < b.count)

abbrev Safe : Loop → Type 0
Safe l = All (Searched l.batches) l.submitted

-- The current work is that of the last batch, whose results are in the search buffer or cleared.
pub record Following (l : Loop) (b : Batch) : Type 0 where
  pub last : Among b l.batches
  pub header : b.header ≡ l.current.header
  pub start : b.start ≡ l.current.start_nonce
  pub held : l.header_contents ≡ b.header
  pub contents : (l.search_contents ≡ none) ⊎ (l.search_contents ≡ some b)

abbrev Linked : Loop → Type 0
Linked l = l.miner.queue ≡ true → (b : Batch) × Following l b

-- What holds at the head of a round.
abbrev Sound : Loop → Type 0
Sound l = Safe l × Linked l

Holds : Turn → Type 0
Holds (goes_on l) = Sound l
Holds (left l) = Safe l
Holds (stuck l) = Safe l
Holds (null_queue l) = Safe l
Holds (thrown e l) = Safe l

left-Holds : (l : Loop) → Safe l → Holds (left l)
unfolding Holds
left-Holds l safe = safe

proceed-Holds :
    {A : Type 0} (l : Loop) (m : Ending A) (f : A → Loop → Turn)
    → Safe l
    → ((a : A) (s : _) → Holds (f a (record l { miner = s })))
    → Holds (proceed l m f)
unfolding Holds proceed
proceed-Holds l (returns a s) f safe next = next a s
proceed-Holds l (throws e s) f safe next = safe
proceed-Holds l (locks_again s) f safe next = safe

-- Returned with the miner as it was, or thrown with it so.
abbrev Same : Ending (Unit {0}) → ClMiner → Type 0
Same m s = (m ≡ returns tt s) ⊎ ((e : ClError) × (m ≡ throws e s))

bind-Same :
    (m : Ending (Unit {0})) (s : ClMiner) (f : ClMiner → Ending (Unit {0}))
    → Same m s
    → Same (f s) s
    → Same (m >> f) s
bind-Same m s f (inl p) (inl q) = inl (ap (λ n. n >> f) p ∙ q)
bind-Same m s f (inl p) (inr (e, q)) = inr (e, ap (λ n. n >> f) p ∙ q)
bind-Same m s f (inr (e, p)) q = inr (e, ap (λ n. n >> f) p)

call-Same :
    (o : Option ClError) (s : ClMiner)
    → Same (elim o [ none ↦ returns tt s | some e ↦ throws e s ]) s
call-Same none s = inl refl
call-Same (some e) s = inr (e, refl)

-- Calls that change nothing of the miner.
perform-Same :
    (gpu : OpenCl) (calls : List Call) (s : ClMiner)
    → Same (perform gpu (map (λ c. (c, λ t. t)) calls) s) s
unfolding perform call
perform-Same gpu [] s = inl refl
perform-Same gpu (c ∷ cs) s = bind-Same _ s _ (call-Same (gpu c) s) (perform-Same gpu cs s)

guarded-Holds :
    (gpu : OpenCl) (calls : List Call) (l : Loop) (f : Loop → Turn)
    → Safe l
    → Holds (f l)
    → Holds (guarded gpu calls l f)
unfolding guarded proceed Holds
guarded-Holds gpu calls l f safe next = elim (perform-Same gpu calls l.miner) [
  | inl e ↦ rw e next
  | inr (err, e) ↦ rw e safe
]

if-Holds :
    (b : Bool) (t u : Turn)
    → (b ≡ true → Holds t)
    → (b ≡ false → Holds u)
    → Holds (if b then t else u)
if-Holds true t u h k = h refl
if-Holds false t u h k = k refl

enqueue-Holds :
    (gpu : OpenCl) (calls : List Call) (l : Loop) (f : Loop → Turn)
    → Safe l
    → (l.miner.queue ≡ true → Holds (f l))
    → Holds (enqueue gpu calls l f)
unfolding enqueue Holds
enqueue-Holds gpu calls l f safe next =
    if-Holds l.miner.queue _ _ (λ e. guarded-Holds gpu calls l f safe (next e)) (λ e. safe)

abbrev Reported : SearchResults → Loop → Type 0
Reported results l = All (Within l) results.gids

results_of-Reported :
    (r : Round) (l : Loop) (b : Batch) (o : Option Batch)
    → Honest r.device
    → Following l b
    → (o ≡ none) ⊎ (o ≡ some b)
    → Reported (results_of r o) l
unfolding results_of
results_of-Reported r l b none honest f held = tt
results_of-Reported r l b (some c) honest f (inl e) = cc
results_of-Reported r l b (some c) honest f (inr e) =
    let same : c ≡ b = cc in
    rw same
      (All-map _ _ (r.device b).gids (λ g small. (b, f.last, f.header, f.start, small)) (honest b))

read-Holds :
    (r : Round) (l : Loop) (f : SearchResults → Loop → Turn)
    → Honest r.device
    → Sound l
    → ((results : SearchResults) (m : Loop) → Sound m → Reported results m → Holds (f results m))
    → Holds (read r l f)
unfolding read
read-Holds r l f honest (safe, linked) next =
    if-Holds l.miner.queue _ _
      (λ e. guarded-Holds r.gpu _ l _ safe (
        let (b, following) = linked e in
        next _ (record l { search_contents = none })
          (
            safe,
            λ q. (
              b,
              record {
                last = following.last;
                header = following.header;
                start = following.start;
                held = following.held;
                contents = inl refl;
              },
            ),
          )
          (results_of-Reported r l b l.search_contents honest following following.contents)))
      (λ e. next _ l (safe, linked) tt)

-- The device holds the header of the work that is searched next, if there is a queue.
abbrev Armed : WorkPackage → Loop → Type 0
Armed w l = l.miner.queue ≡ true → l.header_contents ≡ w.header

switch-Holds :
    (r : Round) (w : WorkPackage) (results : SearchResults) (l : Loop) (f : Loop → Turn)
    → Safe l
    → Reported results l
    → ((m : Loop) → Safe m → Reported results m → Armed w m → Holds (f m))
    → Holds (switch r w l f)
unfolding switch
switch-Holds r w results l f safe reported next =
    enqueue-Holds r.gpu _ _ _ safe (λ e. next _ safe reported (λ q. refl))

change_epoch-Holds :
    (ethash : Ethash) (r : Round) (w : WorkPackage) (results : SearchResults) (l : Loop)
    (f : WorkPackage → Loop → Turn)
    → Safe l
    → Reported results l
    → ((v : WorkPackage) (m : Loop) → Safe m → Reported results m → Holds (f v m))
    → Holds (change_epoch ethash r w l f)
unfolding change_epoch
change_epoch-Holds ethash r w results l f safe reported next =
    proceed-Holds l _ _ safe
      (λ b s. if-Holds b _ _ (λ e. next r.work_after _ safe reported) (λ e. left-Holds _ safe))

prepare-Holds :
    (ethash : Ethash) (r : Round) (w : WorkPackage) (results : SearchResults) (l : Loop)
    (f : WorkPackage → Loop → Turn)
    → Sound l
    → Reported results l
    → ((v : WorkPackage) (m : Loop) → Safe m → Reported results m → Armed v m → Holds (f v m))
    → Holds (prepare ethash r w l f)
unfolding prepare
prepare-Holds ethash r w results l f (safe, linked) reported next =
    if-Holds (text_eq l.current.header w.header) _ _
      (λ e. next w l safe reported (λ q.
        let (b, following) = linked q in following.held ∙ following.header ∙ text_eq→eq _ _ e))
      (λ e.
        if-Holds (int_eq l.current.epoch w.epoch) _ _
          (λ same. switch-Holds r w results l _ safe reported (λ m. next w m))
          (λ other.
            change_epoch-Holds ethash r w results l _ safe reported
              (λ v m kept found. switch-Holds r v results m _ kept found (λ n. next v n))))

-- The state after the kernel of a new batch is run.
submit-Safe :
    (gs : List ℕ) (l : Loop)
    → Safe l
    → All (Within l) gs
    → All (Searched l.batches) (submit gs l).submitted
      × (submit gs l ≡ record l { submitted = (submit gs l).submitted })
unfolding submit
submit-Safe [] l safe found = (safe, refl)
submit-Safe (g ∷ gs) l safe ((b, among, header, start, small), found) =
    submit-Safe gs _ ((b, g, among, header, small, rw start refl), safe) found

weaken-Within : (l : Loop) (gs : List ℕ) → All (Within l) gs → All (Within (run_kernel l)) gs
unfolding run_kernel
weaken-Within l gs h =
    All-map _ _ gs (λ g (b, among, header, start, small). (b, inr among, header, start, small)) h

run_kernel-Safe : (l : Loop) → Safe l → Safe (run_kernel l)
unfolding run_kernel
run_kernel-Safe l safe = weaken-Searched _ l.batches l.submitted safe

waiting-Holds : (l : Loop) → Sound l → Holds (goes_on (set_hung false l))
unfolding Holds set_hung
waiting-Holds l (safe, linked) = (
  safe,
  λ q.
      (let (b, f) = linked q in
        (
          b,
          record {
            last = f.last;
            header = f.header;
            start = f.start;
            held = f.held;
            contents = f.contents;
          },
        )),
)

report-Safe :
    (results : SearchResults) (l : Loop)
    → Safe l
    → Reported results l
    → All (Searched l.batches) (report results l).submitted
      × (report results l ≡ record l { submitted = (report results l).submitted })
unfolding report
report-Safe results l safe found =
    submit-Safe (reported results) l safe (All-reported _ results found)

-- The round is over: the new batch is that of the work, which becomes the current one.
advance-Sound :
    (w : WorkPackage) (results : SearchResults) (count now : ℕ) (l : Loop) (found : List Solution)
    → l.miner.queue ≡ true
    → Armed w l
    → All (Searched (run_kernel l).batches) found
    → Sound (advance w results count now (record (run_kernel l) { submitted = found }))
unfolding advance run_kernel
advance-Sound w results count now l found queued armed safe = (
  safe,
  λ q. (
    _,
    record {
      last = inl refl;
      header = armed queued;
      start = refl;
      held = refl;
      contents = inr refl;
    },
  ),
)

adjusted-Holds :
    (r : Round) (results : SearchResults) (w : WorkPackage) (l : Loop)
    → Safe l
    → Reported results l
    → Armed w l
    → Holds (
        enqueue r.gpu (set_nonce ∷ run_search ∷ []) l (λ n. goes_on (
          advance w results
            (batch_blocks n)
            r.now
            (report results (run_kernel (set_hung false n))))))
unfolding Holds set_hung
adjusted-Holds r results w l safe reported armed =
    enqueue-Holds r.gpu (set_nonce ∷ run_search ∷ []) l _ safe (λ queued.
      let told =
        report-Safe results (run_kernel (set_hung false l))
          (run_kernel-Safe (set_hung false l) safe)
          (weaken-Within (set_hung false l) results.gids reported) in
      rw (told.1)
        (advance-Sound w results (batch_blocks l) r.now (set_hung false l) _ queued armed told.0))

search-Holds :
    (r : Round) (results : SearchResults) (w : WorkPackage) (l : Loop)
    → Safe l
    → Reported results l
    → Armed w l
    → Holds (search r results w l)
unfolding search adjust
search-Holds r results w l safe reported armed = adjusted r.multiple
  where
    adjusted :
        (o : Option ℕ)
        → Holds (
            enqueue r.gpu (set_nonce ∷ run_search ∷ []) (adjust o l) (λ n. goes_on (
              advance w results
                (batch_blocks n)
                r.now
                (report results (run_kernel (set_hung false n))))))
    adjusted none = adjusted-Holds r results w _ safe reported armed
    adjusted (some n) = adjusted-Holds r results w _ safe reported armed

round-Holds :
    (ethash : Ethash) (r : Round) (l : Loop) → Honest r.device → Sound l → Holds (round ethash r l)
unfolding round
round-Holds ethash r l honest sound = read-Holds r l _ honest sound (λ results m read_m reported.
    if-Holds (has_work r.work) _ _
      (λ e.
        prepare-Holds ethash r r.work results m _ read_m reported
          (λ w n safe found armed. search-Holds r results w n safe found armed))
      (λ e. waiting-Holds m read_m))

rounds-Holds :
    (ethash : Ethash) (rs : List Round) (l : Loop)
    → All (λ r. Honest r.device) rs
    → Sound l
    → Holds (rounds ethash rs l)
unfolding rounds Holds
rounds-Holds ethash [] l honest sound = sound
rounds-Holds ethash (r ∷ rs) l (fair, honest) sound =
    after (round ethash r l) (round-Holds ethash r l fair sound)
      (λ m kept. rounds-Holds ethash rs m honest kept)
  where
    after :
        (t : Turn)
        → Holds t
        → ((m : Loop) → Sound m → Holds (rounds ethash rs m))
        → Holds (elim t [
          | goes_on m ↦ rounds ethash rs m
          | left m ↦ left m
          | stuck m ↦ stuck m
          | null_queue m ↦ null_queue m
          | thrown e m ↦ thrown e m
        ])
    after (goes_on m) h next = next m h
    after (left m) h next = h
    after (stuck m) h next = h
    after (null_queue m) h next = h
    after (thrown e m) h next = h

-- The loop at the end of its rounds, whatever ended them.
abbrev pub loop_of : Turn → Loop
loop_of (goes_on l) = l
loop_of (left l) = l
loop_of (stuck l) = l
loop_of (null_queue l) = l
loop_of (thrown e l) = l

loop_of-Safe : (t : Turn) → Holds t → Safe (loop_of t)
unfolding Holds
loop_of-Safe (goes_on l) h = h.0
loop_of-Safe (left l) h = h
loop_of-Safe (stuck l) h = h
loop_of-Safe (null_queue l) h = h
loop_of-Safe (thrown e l) h = h

-- However the work loop runs and ends, every solution that it gave to the farm names a nonce of a batch
-- that the device searched under the header of the solution's work. This is for a loop that starts
-- without a queue, and a device that reports offsets of the batch only.
pub rounds-submitted :
    (ethash : Ethash) (rs : List Round) (s : ClMiner)
    → All (λ r. Honest r.device) rs
    → s.queue ≡ false
    → All
        (Searched (loop_of (rounds ethash rs (start_loop s))).batches)
        (loop_of (rounds ethash rs (start_loop s))).submitted
rounds-submitted ethash rs s honest none_yet =
    loop_of-Safe _ (rounds-Holds ethash rs (start_loop s) honest (tt, λ e. cc))
