-- ===== src/Transport/Wait/Ends.antt =====
-- That waiting ends, and what it means that it succeeds.
use freebsd_laboratory.Base.{
  ℕ, zero, suc, ◌+◌, ◌-◌, ◌*◌, ◌<◌, ◌≤◌, true, List, [], Option, none, some, ◌≡◌, ◌⊎◌, inl, inr,
  refl, arith, ltb, leb, Bool-cases,
}
use freebsd_laboratory.Base.Int.{ℤ, pos, negsuc}
use freebsd_laboratory.Base.Text.{Text, text}
use freebsd_laboratory.Base.Result.{Result, ok, err}
use freebsd_laboratory.Host.{Completed, Outcome, completed, timed_out, not_started, is_zero}
use freebsd_laboratory.Transport.{SshTransport, Net, command}
use freebsd_laboratory.Transport.Wait.{
  Round, over, again, judged, try_ssh, probe, round, pause, wait_loop, wait_until_ready, min,
}

-- A clock that no action sets back: a reading is not before the present, and not after the present
-- that follows it; and sleeping takes at least the time asked for.
pub record IsClock {W : Type 0} (net : Net W) : Type 0 where
  pub time : W → ℕ
  pub read_now : (w : W) → time w ≤ (net.monotonic w).0
  pub read_then : (w : W) → (net.monotonic w).0 ≤ time (net.monotonic w).1
  pub sleeps : (d : ℕ) (w : W) → time w + d ≤ time (net.sleep d w)
  pub connecting : (h : Text) (d : ℕ) (w : W) → time w ≤ time (net.connects h d w).1
  pub feeding :
      (argv : List Text) (input : Option Text) (d : ℕ) (w : W)
      → time w ≤ time (net.feed argv input d w).1
  pub ticking : 0 < net.quarter

enough : (ticks now later : ℕ) → now ≤ later → suc (now + ticks - later) ≤ suc ticks
enough ticks now later h = omega (arith, h)

module _ {W : Type 0} (net : Net W) (t : SshTransport) where
  -- Some run of `true` over SSH exited with status 0.
  pub record IsAccepted : Type 0 where
    pub argv : List Text
    pub timeout : ℕ
    pub world : W
    pub result : Completed
    pub is_command : command t (text "true") [] ≡ ok argv
    pub ran : (net.feed argv none timeout world).0 ≡ completed result
    pub succeeded : is_zero result.returncode ≡ true

  -- What a round or the loop may say.
  abbrev pub Justified : Result (Unit {0}) → Type 0
  Justified (ok done) = IsAccepted
  Justified (err e) = Unit

  abbrev pub RoundOk : Round → Type 0
  RoundOk (over r) = Justified r
  RoundOk (again detail nap) = 0 < nap

  judged-RoundOk :
      (nap timeout : ℕ) (argv : List Text) (detail : Text) (w : W) (o : Outcome)
      → 0 < nap
      → command t (text "true") [] ≡ ok argv
      → (net.feed argv none timeout w).0 ≡ o
      → RoundOk (judged nap argv detail o)
  unfolding judged
  judged-RoundOk nap timeout argv detail w timed_out h c e = h
  judged-RoundOk nap timeout argv detail w not_started h c e = tt
  judged-RoundOk nap timeout argv detail w (completed r) h c e =
      elim (Bool-cases (is_zero r.returncode)) [
        | inr bad ↦ rw bad h
        | inl good ↦ rw good (record {
          argv = argv;
          timeout = timeout;
          world = w;
          result = r;
          is_command = c;
          ran = e;
          succeeded = good;
        })
      ]

  module _ (clock : IsClock net) where
    try_ssh-RoundOk :
        (c : Result (List Text)) (detail : Text) (timeout : ℕ) (w : W)
        → command t (text "true") [] ≡ c
        → RoundOk (try_ssh net c detail timeout w).0
          × (clock.time w ≤ clock.time (try_ssh net c detail timeout w).1)
    unfolding try_ssh
    try_ssh-RoundOk (err e) detail timeout w h = (tt, omega arith)
    try_ssh-RoundOk (ok argv) detail timeout w h = (
      judged-RoundOk (2 * net.quarter) timeout argv detail w (net.feed argv none timeout w).0
          (omega (arith, clock.ticking)) h refl,
      clock.feeding argv none timeout w,
    )

    probe-RoundOk :
        (deadline limit : ℕ) (detail : Text) (now : ℕ) (w : W)
        → RoundOk (probe net t deadline limit detail now w).0
          × (clock.time w ≤ clock.time (probe net t deadline limit detail now w).1)
    unfolding probe
    probe-RoundOk deadline limit detail now w =
        let c = net.connects t.host (min (2 * net.quarter) (deadline - now)) w in
        let tried =
          try_ssh-RoundOk (command t (text "true") []) detail (min limit (deadline - now)) c.1
            refl in
        let reached = clock.connecting t.host (min (2 * net.quarter) (deadline - now)) w in
        elim (Bool-cases (ltb deadline now)) [
          | inl late ↦ rw late (tt, omega arith)
          | inr early ↦ elim (Bool-cases c.0) [
            | inl is_open ↦ rw (early, is_open) (tried.0, omega (arith, reached, tried.1))
            | inr shut ↦ rw (early, shut) (clock.ticking, reached)
          ]
        ]

    -- A round that is not the last begins before the deadline.
    abbrev Begun : ℕ → W → Round → Type 0
    Begun deadline w (over r) = Unit
    Begun deadline w (again detail nap) = clock.time w < deadline

    Begun-now :
        (deadline now : ℕ) (w : W) (r : Round)
        → clock.time w ≤ now
        → ltb now deadline ≡ true
        → Begun deadline w r
    Begun-now deadline now w (over r) h e = tt
    Begun-now deadline now w (again detail nap) h e = ground (arith, h, e)

    round-RoundOk :
        (deadline limit : ℕ) (detail : Text) (w : W)
        → RoundOk (round net t deadline limit detail w).0
          × (clock.time w ≤ clock.time (round net t deadline limit detail w).1)
          × Begun deadline w (round net t deadline limit detail w).0
    unfolding round
    round-RoundOk deadline limit detail w =
        let m = net.monotonic w in
        let m' = net.monotonic m.1 in
        let probed = probe-RoundOk deadline limit detail m'.0 m'.1 in
        let passed : clock.time w ≤ clock.time m.1 =
          omega (arith, clock.read_now w, clock.read_then w) in
        let passed' : clock.time m.1 ≤ clock.time m'.1 =
          omega (arith, clock.read_now m.1, clock.read_then m.1) in
        elim (Bool-cases (ltb m.0 deadline)) [
          | inr late ↦ rw late (tt, passed, tt)
          | inl early ↦ rw early (
            probed.0,
            omega (arith, passed, passed', probed.1),
            Begun-now deadline m.0 w (probe net t deadline limit detail m'.0 m'.1).0
                (clock.read_now w) early,
          )
        ]

    pause-later :
        (deadline nap : ℕ) (w : W)
        → 0 < nap
        → (clock.time w < clock.time (pause net deadline nap w))
          ⊎ (deadline ≤ clock.time (pause net deadline nap w))
    unfolding pause min
    pause-later deadline nap w h =
        let m = net.monotonic w in
        let slept = clock.sleeps (min nap (deadline - m.0)) m.1 in
        elim (Bool-cases (leb nap (deadline - m.0))) [
          | inl short ↦ inl (ground (arith, slept, short, h, clock.read_now w, clock.read_then w))
          | inr long ↦ inr (ground (arith, slept, long, clock.read_now w, clock.read_then w))
        ]

    -- What the loop may end with.
    abbrev pub Ended : Option (Result (Unit {0})) → Type 0
    Ended none = ⊥
    Ended (some r) = Justified r

    -- What follows a round ends, where the loop ends from every later time.
    after-Ended :
        (fuel deadline limit : ℕ) (w w' : W) (r : Round)
        → RoundOk r
        → clock.time w ≤ clock.time w'
        → Begun deadline w r
        → suc (deadline - clock.time w) ≤ suc fuel
        → ((detail : Text) (v : W)
            → suc (deadline - clock.time v) ≤ fuel
            → Ended (wait_loop net fuel t deadline limit detail v).0)
        → Ended
            (elim r as (λ x. Option (Result (Unit {0})) × W) [
              | over said ↦ (some said, w')
              | again detail nap ↦
                  wait_loop net fuel t deadline limit detail (pause net deadline nap w')
            ]).0
    after-Ended fuel deadline limit w w' (over said) ok_round passed begun enough ih = ok_round
    after-Ended fuel deadline limit w w' (again detail nap) ok_round passed begun enough ih =
        let later = pause-later deadline nap w' ok_round in
        ih detail (pause net deadline nap w') (omega (arith, later, passed, begun, enough))

    wait_loop-Ended :
        (fuel deadline limit : ℕ) (detail : Text) (w : W)
        → suc (deadline - clock.time w) ≤ fuel
        → Ended (wait_loop net fuel t deadline limit detail w).0
    unfolding wait_loop
    wait_loop-Ended zero deadline limit detail w h = absurd (omega (arith, h))
    wait_loop-Ended (suc fuel) deadline limit detail w h =
        let r = round-RoundOk deadline limit detail w in
        after-Ended fuel deadline limit w (round net t deadline limit detail w).1
          (round net t deadline limit detail w).0 r.0 r.1 r.2 h
          (λ d v. wait_loop-Ended fuel deadline limit d v)

    -- Waiting for the guest ends, however the connections and commands on the way turn out, where the
    -- clock is not set back and a pause takes its time: it raises, or it returns because some run of
    -- the command `true` over SSH exited with status 0.
    pub wait_until_ready-Ended : (timeout : ℤ) (w : W) → Ended (wait_until_ready net t timeout w).0
    unfolding wait_until_ready
    wait_until_ready-Ended (pos (suc timeout)) w =
        let m = net.monotonic w in
        let ticks = suc timeout * (4 * net.quarter) in
        wait_loop-Ended (suc ticks) (m.0 + ticks) _ _ m.1
          (enough ticks m.0 (clock.time m.1) (clock.read_then w))
    wait_until_ready-Ended (pos zero) w = tt
    wait_until_ready-Ended (negsuc n) w = tt
