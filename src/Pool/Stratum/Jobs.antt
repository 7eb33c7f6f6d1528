-- ===== src/Pool/Stratum/Jobs.antt =====
-- processResponse of EthStratumClient.cpp: mining.notify, which brings a job.
use etcminer.Prelude.{
  ℕ, ◌+◌, ◌-◌, ◌%◌, Bool, true, false, not, ◌&&◌, ◌||◌, ◌++◌, Option, some, none, Text, codes,
  text_eq, ltb, ◌==◌, if◌then◌else◌, is_empty, length, take, drop, replicate,
}
use etcminer.Prelude.Int.{ℤ, pos, negsuc, minus_one}
use etcminer.Dev.Float.{Float, hashes_to_target}
use etcminer.Dev.Hex.{add, to_hex, pad_left}
use etcminer.Dev.FixedHash.{hash_of_text}
use etcminer.Eth.Work.{WorkPackage}
use etcminer.Pool.Session.{Session}
use etcminer.Pool.JsonCpp.{JsonCpp, element_text}
use etcminer.Pool.Stratum.State.{
  Env, Action, uncaught, pure, attempt, gets, modify, ◌>>=◌, ◌>>◌, is_subscribed,
}

abbrev pub write_work : (WorkPackage → WorkPackage) → Action (Unit {0})
write_work f = modify (λ c. record c { current = f c.current })

-- The session, whose absence stands as an exception.
unfoldable pub the_session : Action Session
the_session c = attempt c.session c

-- The job's difficulty: the one that the pool has set, or else that of the boundary.
unfoldable pub difficulty_of : Env → Session → Text → Float
difficulty_of env s boundary =
    if env.is_nonzero s.next_work_difficulty
    then s.next_work_difficulty
    else hashes_to_target (to_hex boundary 2 add)

-- m_current_timestamp, and the signal to dispatch the job at the end of the transmission.
unfoldable pub announce : ℕ → Action (Unit {0})
announce now = modify (λ c. record c { current_timestamp = now; newjobprocessed = true })

-- An unsigned long as an int: a job's block number.
unfoldable pub block_int : ℕ → ℤ
block_int n = let m = n % 4294967296 in if ltb m 2147483648 then pos m else negsuc (4294967295 - m)

-- m_current.block > 0x9660180
unfoldable pub is_far : ℤ → Bool
is_far (pos n) = ltb 157680000 n
is_far (negsuc n) = false

-- coinmine.pl fix: a target of less than 66 characters is filled after its first two, without which
-- substr throws.
unfoldable pub fill_target : Text → Option Text
fill_target t =
    if ltb (length t) 66
    then (if ltb (length t) 2
        then none
        else some (codes "0x" ++ replicate (66 - length t) 48 ++ drop 2 t))
    else some t

module _ {J : Type 0} (json : JsonCpp J) (env : Env) where
  -- EthereumStratum/1.0.0: the header and the seed; the rest is the session's.
  unfoldable pub notify_nicehash : J → Action (Unit {0})
  notify_nicehash prm = do
    seed_text ← attempt (element_text json prm 1)
    header_text ← attempt (element_text json prm 2)
    if is_empty header_text || is_empty seed_text then pure tt else (do
      seed ← attempt (hash_of_text 32 seed_text)
      write_work (λ w. record w { seed = seed })
      header ← attempt (hash_of_text 32 header_text)
      write_work (λ w. record w { header = header })
      s ← the_session
      write_work (λ w. record w {
        boundary = s.next_work_boundary;
        start_nonce = s.extra_nonce;
        ex_size_bytes = s.extra_nonce_size_bytes % 65536;
        block = minus_one;
        difficulty = difficulty_of env s s.next_work_boundary;
      })
      announce env.now)

  -- The block of a job: -1 where the text cannot be read. For a number beyond 0x9660180 the code throws a
  -- pointer, which no handler catches.
  unfoldable pub take_block : Option ℕ → Action (Unit {0})
  take_block none = write_work (λ w. record w { block = minus_one })
  take_block (some n) = do
    write_work (λ w. record w { block = block_int n })
    if is_far (block_int n) then (λ c. (c, uncaught)) else pure tt

  -- The block number, which only some pools send, in hexadecimal after 0x.
  unfoldable pub read_block : ℕ → J → ℕ → Action (Unit {0})
  read_block mode prm idx = do
    write_work (λ w. record w { block = minus_one })
    if (mode == 1) && ltb idx (json.size prm)
        then (do
          t ← attempt (element_text json prm idx)
          if text_eq (take 2 t) (codes "0x") then take_block (env.stoul t) else pure tt)
        else pure tt

  -- Stratum and Eth-Proxy: header, seed, target and for some pools the block, from `idx` on.
  unfoldable pub notify_plain : ℕ → J → ℕ → Action (Unit {0})
  notify_plain mode prm idx = do
    header_text ← attempt (element_text json prm idx)
    seed_text ← attempt (element_text json prm (idx + 1))
    target_text ← attempt (element_text json prm (idx + 2))
    read_block mode prm (idx + 3)
    full ← attempt (fill_target target_text)
    seed ← attempt (hash_of_text 32 seed_text)
    write_work (λ w. record w { seed = seed })
    header ← attempt (hash_of_text 32 header_text)
    write_work (λ w. record w { header = header })
    boundary ← attempt (hash_of_text 32 full)
    write_work (λ w. record w { boundary = boundary })
    s ← the_session
    write_work (λ w. record w { difficulty = difficulty_of env s boundary })
    announce env.now

  -- mining.notify up to EthereumStratum/1.0.0. Some pools send jobs as results.
  unfoldable pub take_job : ℕ → J → ℕ → Action (Unit {0})
  take_job mode prm idx =
      if json.is_array prm && not (json.is_empty_value prm)
      then (do
        job ← attempt (element_text json prm 0)
        write_work (λ w. record w { job = job })
        if mode == 2 then notify_nicehash prm else notify_plain mode prm idx)
      else pure tt

  unfoldable pub or_null : Option J → J
  or_null none = json.null_value
  or_null (some v) = v

  unfoldable pub job_values : ℕ → Option J → Option J → J × ℕ
  job_values mode (some result) params = if mode == 1 then (result, 0) else (or_null params, 1)
  job_values mode none params = (or_null params, 1)

  -- A job is discarded without a subscription, and after another one of the same transmission.
  unfoldable pub on_notify : ℕ → J → Action (Unit {0})
  on_notify mode msg = do
    c ← gets (λ c. c)
    if not (is_subscribed c) || c.newjobprocessed then pure tt else (do
      result ← attempt (json.member msg (codes "result"))
      params ← attempt (json.member msg (codes "params"))
      take_job mode (job_values mode result params).0 (job_values mode result params).1)

  -- mining.notify of EthereumStratum/2.0.0, after a mining.set.
  unfoldable pub take_job2 : Session → J → Action (Unit {0})
  take_job2 s prm = do
    job ← attempt (element_text json prm 0)
    write_work (λ w. record w { job = job })
    block_text ← attempt (element_text json prm 1)
    block ← attempt (env.stoul block_text)
    write_work (λ w. record w { block = block_int block })
    header_text ← attempt (element_text json prm 2)
    header ← attempt (hash_of_text 32 (codes "0x" ++ pad_left header_text 64 48))
    write_work (λ w. record w { header = header })
    boundary ← attempt (hash_of_text 32 (to_hex s.next_work_boundary 2 add))
    write_work (λ w. record w {
      boundary = boundary;
      epoch = block_int s.epoch;
      start_nonce = s.extra_nonce;
      ex_size_bytes = s.extra_nonce_size_bytes % 65536;
      difficulty = difficulty_of env s boundary;
    })
    announce env.now

  unfoldable pub on_notify2 : J → Action (Unit {0})
  on_notify2 msg = do
    c ← gets (λ c. c)
    elim c.session [
      | none ↦ pure tt
      | some s ↦
          if s.first_mining_set
          then (do
            params ← attempt (json.member msg (codes "params"))
            elim params [
              | none ↦ pure tt
              | some prm ↦
                  if json.is_array prm && (json.size prm == 4) then take_job2 s prm else pure tt
            ])
          else pure tt
    ]
