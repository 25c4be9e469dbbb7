-- ===== src/Tests/SequenceTests.antt =====
-- Requests one after the other, on concrete inputs.
use test_cusa.Prelude.{refl, some, List, [], ◌∷◌, arith, lookup, ℕ}
use test_cusa.Payments.Sequence.{Event, request, refresh, replies_to, Once, in_turn}
use test_cusa.Payments.Sequence.Once.{in_turn-Once}
use test_cusa.Tests.World.{env, io}
use test_cusa.Tests.PaymentTests.{payment, settings, ready, ready-Cached}

-- A request without a key, one with a key, a refresh, and the request again.
abbrev events : List (Event ℕ)
events =
    request payment (some "id-1") (some "wrong")
    ∷ request payment (some "id-2") (some "key-1")
    ∷ refresh
    ∷ request payment (some "id-3") (some "key-1")
    ∷ []

in_turn-Once_example : Once (replies_to "order-1" (in_turn env settings events ready io).0)
unfolding lookup
in_turn-Once_example =
    in_turn-Once env settings events ready io "order-1" ready-Cached refl (omega arith)
