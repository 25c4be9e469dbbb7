-- ===== src/Credentials/Backoff.antt =====
-- The pace of the refresh loop of app/credential_manager.py, and the cache under it.
use mathlib.Core.Path.{subst}
use test_cusa.Prelude.{
  ◌∙◌, ℕ, suc, zero, ◌*◌, ◌^◌, ◌≤◌, ◌≡◌, refl, Bool, true, false, List, [], ◌∷◌, arith, inl, inr,
}
use test_cusa.Prelude.Int.{ℤ, pos, negsuc, scale, ◌≤ℤ◌}
use test_cusa.Runtime.{Env, Io, Result, ok, raise}
use test_cusa.Config.{Settings}
use test_cusa.Credentials.Manager.{CredentialManager}
use test_cusa.Credentials.Load.{load_credentials}
use test_cusa.Credentials.Outcome.{Loaded}
use test_cusa.Credentials.Loading.{load_credentials-Loaded}
use test_cusa.Credentials.Cache.{IsValid, load_credentials-IsValid}
use test_cusa.Credentials.Refresh.{max_backoff, delay, turn, WakeUp, after_load, refresh_loop}

one_le_pow : (n : ℕ) → 1 ≤ 2 ^ n
one_le_pow zero = omega arith
one_le_pow (suc n) = omega (arith, one_le_pow n)

le_scale : (k n : ℕ) → 1 ≤ k → n ≤ k * n
le_scale (suc k) n h = omega arith
le_scale zero n h = omega arith

-- A delay between the interval and the cap.
abbrev pub Paced : ℤ → ℤ → Type 0
Paced interval d = (interval ≤ℤ d) × (d ≤ℤ max_backoff)

abbrev pub AllPaced : ℤ → List ℤ → Type 0
AllPaced interval [] = Unit
AllPaced interval (d ∷ ds) = Paced interval d × AllPaced interval ds

delay-Paced :
    (interval : ℤ) (errors : ℕ)
    → pos 0 ≤ℤ interval
    → interval ≤ℤ max_backoff
    → Paced interval (delay interval errors)
unfolding delay scale
delay-Paced (pos n) errors low high = ground (arith, le_scale (2 ^ errors) n (one_le_pow errors))
delay-Paced (negsuc n) errors low high = omega arith

Loaded-interval :
    (m : CredentialManager) (r : Result Bool) (m' : CredentialManager)
    → Loaded m r m'
    → m'.check_interval ≡ m.check_interval
Loaded-interval m (ok true) m' (secret, inl (_, u)) = u.interval
Loaded-interval m (ok true) m' (secret, inr (_, (c, key, a))) = a.interval
Loaded-interval m (ok false) m' l = l.0.interval
Loaded-interval m (raise e) m' l = absurd l

after_load-IsValid :
    (errors : ℕ) (r : Result Bool) (m : CredentialManager) (w : Io)
    → IsValid m
    → let (_, m', _) = after_load errors (r, m, w) in
      IsValid m' × (m'.check_interval ≡ m.check_interval)
unfolding after_load
after_load-IsValid errors (ok true) m w v = (v, refl)
after_load-IsValid errors (ok false) m w v = (v, refl)
after_load-IsValid errors (raise e) m w v =
    (record { distinct = v.distinct; bounded = v.bounded; current = v.current }, refl)

turn-Paced :
    (running : Bool) (wake : WakeUp) (interval wait : ℤ) (later : List ℤ × CredentialManager × Io)
    (m : CredentialManager) (w : Io)
    → IsValid m
    → Paced interval wait
    → AllPaced interval later.0 × IsValid later.1
    → let (delays, m', _) = turn running wake wait later m w in
      AllPaced interval delays × IsValid m'
turn-Paced false wake interval wait later m w v paced kept = (tt, v)
turn-Paced true WakeUp.elapsed interval wait later m w v paced kept = ((paced, kept.0), kept.1)
turn-Paced true WakeUp.stopped interval wait later m w v paced kept =
    ((paced, tt), record { distinct = v.distinct; bounded = v.bounded; current = v.current })
turn-Paced true WakeUp.cancelled interval wait later m w v paced kept = ((paced, tt), v)

module _ {Amount : Type 0} (env : Env Amount) (settings : Settings) where
  -- While the interval is between 0 and 300 seconds, every wait of the refresh loop is at least the
  -- interval and at most 300 seconds, and the loop keeps the cache valid, however its waits end.
  pub refresh_loop-Paced :
      (wakes : List WakeUp) (errors : ℕ) (m : CredentialManager) (w : Io)
      → IsValid m
      → pos 0 ≤ℤ m.check_interval
      → m.check_interval ≤ℤ max_backoff
      → let (delays, m', _) = refresh_loop env settings wakes errors m w in
        AllPaced m.check_interval delays × IsValid m'
  unfolding refresh_loop
  refresh_loop-Paced [] errors m w v low high = (tt, v)
  refresh_loop-Paced (wake ∷ wakes) errors m w v low high =
      let (r, m1, w1) = load_credentials env settings m w in
      let loaded = Loaded-interval m r m1 (load_credentials-Loaded env settings m w) in
      let (v', same) =
        after_load-IsValid errors r m1 w1 (load_credentials-IsValid env settings m w v) in
      let (errors', m', w') = after_load errors (r, m1, w1) in
      let interval = same ∙ loaded in
      let later = refresh_loop-Paced wakes errors' m' w' v' (rw interval low) (rw interval high) in
      let rest = refresh_loop env settings wakes errors' m' w' in
      turn-Paced m.running wake m.check_interval (delay m.check_interval errors) rest m w v
        (delay-Paced m.check_interval errors low high)
        (subst (λ i. AllPaced i rest.0) interval later.0, later.1)
