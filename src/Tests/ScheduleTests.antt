-- ===== src/Tests/ScheduleTests.antt =====
-- Requests that wait together, on concrete inputs.
use test_cusa.Prelude.{ℕ, sum_of, ◌≤◌, ◌≡◌, ◌⊎◌, refl, some, [], ◌∷◌, arith, lookup, ℕ_discrete}
use test_cusa.Prelude.Int.{ℤ_discrete}
use test_cusa.Runtime.{HttpReply, Body}
use test_cusa.Credentials.Manager.{has_valid_credentials, get_current_credential, last}
use test_cusa.Gateway.{request_of}
use test_cusa.Gateway.Phases.{Pending, first_try}
use test_cusa.Payments.Handler.{mem}
use test_cusa.Payments.Tasks.{begin, waiting}
use test_cusa.Payments.Schedule.{System, Reach, here, next, arrive, arrived, replied, open_tasks}
use test_cusa.Payments.Schedule.Counting.{Balanced, Reach-Balanced}
use test_cusa.Payments.Schedule.Draining.{done, more, Replies-in_flight, Waits}
use test_cusa.Payments.Schedule.Duplicates.{begin-duplicate}
use test_cusa.Payments.Schedule.Soundness.{IsSound, Reach-IsSound}
use test_cusa.Breaker.{CircuitState}
use test_cusa.Payments.Schedule.Probing.{IsNew, Arrival, begin_all, begin_all-half_open}
use test_cusa.Payments.Handler.{App}
use test_cusa.Gateway.{GatewayClient}
use test_cusa.Tests.PaymentTests.{breaker}
use test_cusa.Tests.World.{env, io, at_second}
use test_cusa.Tests.PaymentTests.{payment, credential, gateway, settings, manager, ready}

begin-duplicate_example :
    let (x, a1, w1) = begin env settings payment (some "id-1") (some "key-1") ready io in
    let (y, _, w2) = begin env settings payment (some "id-2") (some "key-1") a1 w1 in
    (open_tasks x ≡ 1) × (open_tasks y ≡ 1) × (w2.posts ≡ 2)
unfolding mem get_current_credential last lookup ℤ_discrete ℕ_discrete has_valid_credentials
begin-duplicate_example =
    begin-duplicate env settings CircuitState.closed payment payment (some "id-1") (some "id-2")
      (some "key-1") (some "key-1") manager (credential 2) ready io refl refl refl refl refl refl
      (record {
        manager = refl;
        current = refl;
        usable = refl;
        gateway = (gateway, refl, refl);
        unanswered = refl;
      })
      refl

-- The application before it takes requests, and after two have arrived.
abbrev quiet : System ℕ
quiet = record { app = record ready { in_flight = 0 }; io = io; tasks = [] }

abbrev one : System ℕ
one = arrived env settings payment (some "id-1") (some "key-1") quiet

abbrev two : System ℕ
two = arrived env settings payment (some "id-2") (some "key-1") one

abbrev arrivals : Reach env settings quiet two
arrivals =
    next (next here (arrive payment (some "id-1") (some "key-1")))
      (arrive payment (some "id-2") (some "key-1"))

Reach-Balanced_example : Balanced two
Reach-Balanced_example = Reach-Balanced env settings arrivals refl

quiet-IsSound : IsSound quiet.app
unfolding ℤ_discrete ℕ_discrete lookup
quiet-IsSound = record {
  cached = record { distinct = tt; bounded = omega arith };
  guarded =
      (omega arith, record { counting = λ _. omega arith; dated = λ other. absurd (other refl) });
  managed = record {
    distinct = (refl, tt);
    bounded = omega arith;
    current = (credential 2, refl, refl);
  };
}

Reach-IsSound_example : IsSound two.app
Reach-IsSound_example = Reach-IsSound env settings arrivals quiet-IsSound

abbrev first_wait : Pending ℕ
first_wait =
    first_try
      (record {
        payment = payment;
        start_time = at_second 1000;
        request = request_of payment (credential 2) "http://gateway/api/v1/transactions/authorize";
        number = 0;
      })
      (credential 2) (some (credential 1))

-- A request that waits for the reply to its first try, and the gateway's rejection of it.
abbrev pub busy : System ℕ
busy = record {
  app = record ready { in_flight = 1 };
  io = io;
  tasks = waiting payment first_wait ∷ [];
}

abbrev rejection : HttpReply
rejection = HttpReply.answer 403 Body.no_object

abbrev rejected_once : System ℕ
rejected_once = replied env settings 0 payment first_wait rejection busy

Replies-in_flight_example :
    (1 ≤ 2) × ((rejected_once.app.in_flight ≡ 0) ⊎ Waits rejected_once.tasks)
Replies-in_flight_example =
    Replies-in_flight env settings refl (more 0 payment first_wait rejection done refl)

abbrev probing : App ℕ
probing = record ready {
  gateway_client = some (record gateway {
    circuit_breaker = record breaker { state = CircuitState.half_open; failure_count = 5 };
  });
}

abbrev arrival : Arrival ℕ
arrival = record { payment = payment; state_id = some "id-1"; x_api_key = some "key-1" }

begin_all-half_open_example :
    let (xs, a', w') = begin_all env settings (arrival ∷ arrival ∷ arrival ∷ []) probing io in
    (sum_of open_tasks xs ≡ 3)
    × (w'.posts ≡ 3)
    × ((g' : GatewayClient) × (a'.gateway_client ≡ some g')
        × (g'.circuit_breaker.state ≡ CircuitState.half_open))
unfolding mem get_current_credential last lookup ℤ_discrete ℕ_discrete has_valid_credentials
begin_all-half_open_example =
    let fresh : IsNew env settings [] arrival = record {
      given = refl;
      known = refl;
      unanswered = refl;
    } in
    begin_all-half_open env settings (arrival ∷ arrival ∷ arrival ∷ []) manager (credential 2) _
      probing io refl refl (λ n. refl) refl refl (fresh, (fresh, (fresh, tt)))
