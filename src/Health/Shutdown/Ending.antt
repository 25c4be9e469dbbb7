-- ===== src/Health/Shutdown/Ending.antt =====
-- The shutdown of app/main.py ends as soon as the gateway has replied to the requests in flight.
use test_cusa.Prelude.{
  ℕ, suc, zero, ◌-◌, ◌*◌, ◌≤◌, ◌<◌, ◌≡◌, ◌⊎◌, inl, inr, refl, Bool-cases, true, ltb, Option, some,
  arith,
}
use test_cusa.Prelude.Int.{ℤ, ◌≤ℤ◌, ltb_ℤ}
use test_cusa.Runtime.{Env}
use test_cusa.Config.{Settings}
use test_cusa.Payments.Schedule.{System}
use test_cusa.Payments.Schedule.Counting.{Balanced}
use test_cusa.Payments.Schedule.Draining.{
  Replies, Replies-load, load, Replies-Balanced, find_waiting, Waits, load-le,
}
use test_cusa.Health.Shutdown.{ticked, drain, stop, stopped, deadline_of, shutdown}

-- A request in flight is a task that waits.
waits_lem :
    {Amount : Type 0} (s : System Amount)
    → Balanced s
    → ltb 0 s.app.in_flight ≡ true
    → Waits s.tasks
waits_lem s b busy = elim (find_waiting s.tasks) [
  | inl idle ↦ absurd (ground (arith, idle, b, busy))
  | inr found ↦ found
]

module _ {Amount : Type 0} (env : Env Amount) where
  -- How a shutdown may end: no request is in flight, or the deadline has passed.
  pub record Ended (deadline : ℤ) (s : System Amount) : Type 0 where
    pub reason : (s.app.in_flight ≡ 0) ⊎ (deadline ≤ℤ env.clock (s.io.clock_reads - 1))

  abbrev pub Ends : ℤ → Option (System Amount) → Type 0
  Ends deadline found = (s : System Amount) × (found ≡ some s) × Ended deadline s

  module _ (others : ℕ → System Amount → System Amount) where
    -- One test of the condition, from what it leads to after a wait.
    turn-Ends :
        (fuel round : ℕ) (deadline : ℤ) (s : System Amount)
        → (ltb 0 s.app.in_flight ≡ true
            → ltb_ℤ (env.clock s.io.clock_reads) deadline ≡ true
            → Ends deadline (drain env others fuel (suc round) deadline (others round (ticked s))))
        → Ends deadline (drain env others (suc fuel) round deadline s)
    unfolding drain
    turn-Ends fuel round deadline s later = elim (Bool-cases (ltb 0 s.app.in_flight)) [
      | inr idle ↦ rw idle (s, refl, record { reason = inl (ground (arith, idle)) })
      | inl busy ↦ rw busy (elim (Bool-cases (ltb_ℤ (env.clock s.io.clock_reads) deadline)) [
        | inr late ↦ rw late (ticked s, refl, record { reason = inr (ground (arith, late)) })
        | inl early ↦ rw early (later busy early)
      ])
    ]

    -- In every wait replies come, at least one if a task waits for one, and nothing else happens.
    pub record Serves (settings : Settings) : Type 0 where
      pub at :
          (n : ℕ) (s : System Amount)
          → (k : ℕ) × Replies env settings s k (others n s) × (Waits s.tasks → 0 < k)

    -- While the gateway replies in every wait, the loop ends after as many waits as replies are
    -- still awaited, whatever the clock shows.
    served-Ends :
        (settings : Settings) (fuel round : ℕ) (deadline : ℤ) (s : System Amount)
        → Serves settings
        → Balanced s
        → load env settings s ≤ fuel
        → Ends deadline (drain env others (suc fuel) round deadline s)
    served-Ends settings zero round deadline s serves b enough =
        turn-Ends zero round deadline s λ busy early.
          let (k, replies, some_reply) = serves.at round (ticked s) in
          absurd (
            omega
              (arith, enough, Replies-load env settings replies, some_reply (waits_lem s b busy)))
    served-Ends settings (suc fuel) round deadline s serves b enough =
        turn-Ends (suc fuel) round deadline s λ busy early.
          let (k, replies, some_reply) = serves.at round (ticked s) in
          served-Ends settings fuel (suc round) deadline (others round (ticked s)) serves
            (Replies-Balanced env settings replies b)
            (omega
              (arith, enough, Replies-load env settings replies, some_reply (waits_lem s b busy)))

    -- If in every wait replies come, at least one while a task waits for one, and nothing else
    -- happens, the shutdown ends within two tests of its condition for each request in flight and
    -- one more, whatever the clock shows: no request is in flight, or its time is over. At the start
    -- the counter of requests in flight is the number of tasks that wait.
    pub shutdown_served :
        (settings : Settings) (s : System Amount)
        → Serves settings
        → Balanced s
        → Ends
            (deadline_of env others settings (stopped env others s))
            (shutdown env others settings (suc (2 * s.app.in_flight)) s)
    unfolding shutdown
    shutdown_served settings s serves b =
        let s0 = record s {
          app = record s.app { credential_manager = stop s.app.credential_manager };
        } in
        let (k, replies, _) = serves.at 0 s0 in
        served-Ends settings (2 * s.app.in_flight) 1 _ (ticked (stopped env others s)) serves
          (Replies-Balanced env settings replies b)
          (omega (arith, b, Replies-load env settings replies, load-le env settings s.tasks))
