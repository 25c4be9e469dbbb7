-- ===== src/Health/Shutdown/Punctual.antt =====
-- The shutdown of app/main.py ends in its time, whatever the other tasks do while it waits.
use test_cusa.Prelude.{
  ℕ, suc, zero, ◌+◌, ◌-◌, ◌*◌, ◌≡◌, ◌⊎◌, inl, inr, refl, Bool-cases, true, ltb, Option, some, arith,
}
use test_cusa.Prelude.Int.{
  ℤ, pos, scale, scale_parts, +ℤ_parts, ◌+ℤ◌, ◌≤ℤ◌, ltb_ℤ, pos_part, neg_part,
}
use test_cusa.Runtime.{Env}
use test_cusa.Config.{Settings}
use test_cusa.Payments.Schedule.{System}
use test_cusa.Health.Shutdown.{ticked, drain, stopped, deadline_of, shutdown, poll_interval, second}

scale_lem :
    (t : ℕ) (b : ℤ) → b ≡ pos t → pos_part (scale second b) ≡ neg_part (scale second b) + second * t
scale_lem t b e = rw e (omega (arith, scale_parts second (pos t)))

module _ {Amount : Type 0} (env : Env Amount) (others : ℕ → System Amount → System Amount) where
  -- The states in which the loop tests its condition before the wait of a number, from the first.
  pub data Tested (deadline : ℤ) (start : System Amount) : ℕ → System Amount → Type 0 where
    first : Tested deadline start 1 start
    again :
        (n : ℕ) (s : System Amount)
        → Tested deadline start n s
        → ltb 0 s.app.in_flight ≡ true
        → ltb_ℤ (env.clock s.io.clock_reads) deadline ≡ true
        → Tested deadline start (suc n) (others n (ticked s))

  -- How long the steps of a shutdown take: no time passes backwards, or more than `limit`, between
  -- the first two readings of the clock, and each wait that takes place has at least the 0.1 seconds
  -- that it asks for, `asyncio.sleep(0.1)`, and at most `limit`.
  pub record Timed (settings : Settings) (limit : ℕ) (s : System Amount) : Type 0 where
    pub steady :
        env.clock (stopped env others s).io.clock_reads
        ≤ℤ env.clock (suc (stopped env others s).io.clock_reads)
    pub prompt :
        env.clock (suc (stopped env others s).io.clock_reads)
        ≤ℤ env.clock (stopped env others s).io.clock_reads +ℤ pos limit
    pub waits :
        (n : ℕ) (t : System Amount)
        → Tested
            (deadline_of env others settings (stopped env others s))
            (ticked (stopped env others s))
            n
            t
        → ltb 0 t.app.in_flight ≡ true
        → ltb_ℤ
            (env.clock t.io.clock_reads)
            (deadline_of env others settings (stopped env others s))
          ≡ true
        → (env.clock t.io.clock_reads +ℤ pos poll_interval
            ≤ℤ env.clock (others n (ticked t)).io.clock_reads)
          × (env.clock (others n (ticked t)).io.clock_reads
              ≤ℤ env.clock t.io.clock_reads +ℤ pos limit)

  -- How a shutdown ends in time: no request is in flight, and the clock shows at most the limit
  -- after the deadline; or its last reading is the deadline or later, by at most the limit.
  pub record EndedBy (deadline : ℤ) (limit : ℕ) (s : System Amount) : Type 0 where
    pub reason :
        ((s.app.in_flight ≡ 0) × (env.clock s.io.clock_reads ≤ℤ deadline +ℤ pos limit))
        ⊎ ((deadline ≤ℤ env.clock (s.io.clock_reads - 1))
            × (env.clock (s.io.clock_reads - 1) ≤ℤ deadline +ℤ pos limit))

  abbrev pub EndsBy : ℤ → ℕ → Option (System Amount) → Type 0
  EndsBy deadline limit found = (s : System Amount) × (found ≡ some s) × EndedBy deadline limit s

  -- One test of the condition, from what it leads to after a wait.
  turn-EndsBy :
      (fuel round limit : ℕ) (deadline : ℤ) (s : System Amount)
      → env.clock s.io.clock_reads ≤ℤ deadline +ℤ pos limit
      → (ltb 0 s.app.in_flight ≡ true
          → ltb_ℤ (env.clock s.io.clock_reads) deadline ≡ true
          → EndsBy deadline limit
              (drain env others fuel (suc round) deadline (others round (ticked s))))
      → EndsBy deadline limit (drain env others (suc fuel) round deadline s)
  unfolding drain
  turn-EndsBy fuel round limit deadline s soon later = elim (Bool-cases (ltb 0 s.app.in_flight)) [
    | inr idle ↦ rw idle (s, refl, record { reason = inl (ground (arith, idle), soon) })
    | inl busy ↦ rw busy (elim (Bool-cases (ltb_ℤ (env.clock s.io.clock_reads) deadline)) [
      | inr late ↦ rw late (ticked s, refl, record { reason = inr (ground (arith, late, soon)) })
      | inl early ↦ rw early (later busy early)
    ])
  ]

  module _ (settings : Settings) (limit : ℕ) (s0 : System Amount)
      (timed : Timed settings limit s0) where
    abbrev start : System Amount
    start = ticked (stopped env others s0)

    abbrev deadline : ℤ
    deadline = deadline_of env others settings (stopped env others s0)

    drain-EndsBy :
        (fuel round : ℕ) (s : System Amount)
        → Tested deadline start round s
        → env.clock s.io.clock_reads ≤ℤ deadline +ℤ pos limit
        → deadline ≤ℤ env.clock s.io.clock_reads +ℤ pos (fuel * poll_interval)
        → EndsBy deadline limit (drain env others (suc fuel) round deadline s)
    drain-EndsBy zero round s tested soon near =
        turn-EndsBy zero round limit deadline s soon λ busy early. absurd (
          ground
            (arith, early, near, +ℤ_parts (env.clock s.io.clock_reads) (pos (0 * poll_interval))))
    drain-EndsBy (suc fuel) round s tested soon near =
        turn-EndsBy (suc fuel) round limit deadline s soon λ busy early.
          let next = others round (ticked s) in
          let now = env.clock s.io.clock_reads in
          let (long, short) = timed.waits round s tested busy early in
          drain-EndsBy fuel (suc round) next (Tested.again round s tested busy early)
            (ground (arith, early, short, +ℤ_parts now (pos limit), +ℤ_parts deadline (pos limit)))
            (omega (
              arith,
              near,
              long,
              +ℤ_parts now (pos (suc fuel * poll_interval)),
              +ℤ_parts now (pos poll_interval),
              +ℤ_parts (env.clock next.io.clock_reads) (pos (fuel * poll_interval)),
            ))

  -- The shutdown ends within ten tests of its condition for each second of its time and one more,
  -- whatever other tasks do: no request is in flight, or the deadline has passed, and the clock then
  -- shows at most the limit more than the deadline. The timeout is not negative, a wait that takes
  -- place has at least its 0.1 seconds and at most the limit, and the clock's second reading is not
  -- before the first one, and after it by at most the limit.
  pub shutdown-EndsBy :
      (settings : Settings) (t limit : ℕ) (s : System Amount)
      → settings.graceful_shutdown_timeout ≡ pos t
      → Timed settings limit s
      → EndsBy
          (deadline_of env others settings (stopped env others s))
          limit
          (shutdown env others settings (suc (10 * t)) s)
  unfolding shutdown
  shutdown-EndsBy settings t limit s time timed =
      let s1 = stopped env others s in
      let begun = env.clock s1.io.clock_reads in
      let second_reading = env.clock (suc s1.io.clock_reads) in
      let allowed = scale second settings.graceful_shutdown_timeout in
      drain-EndsBy settings limit s timed (10 * t) 1 (ticked s1) Tested.first
        (omega (
          arith,
          timed.prompt,
          +ℤ_parts begun (pos limit),
          +ℤ_parts begun allowed,
          +ℤ_parts (begun +ℤ allowed) (pos limit),
          scale_lem t settings.graceful_shutdown_timeout time,
        ))
        (omega (
          arith,
          timed.steady,
          +ℤ_parts begun allowed,
          scale_lem t settings.graceful_shutdown_timeout time,
          +ℤ_parts second_reading (pos (10 * t * poll_interval)),
        ))
