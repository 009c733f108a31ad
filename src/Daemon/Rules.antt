-- ===== src/Daemon/Rules.antt =====
-- Rules for reasoning about the manager's actions: sequencing, and what an action leaves alone.
use freebsd_laboratory.Base.{◌≡◌}
use freebsd_laboratory.Base.Result.{Result, ok, err, Error}
use freebsd_laboratory.Host
use freebsd_laboratory.Host.{Sys}
use freebsd_laboratory.Daemon.State.{State, Ended, returned, raised, blocked, Daemon, continue}

-- `m >>= f` satisfies `P` where `m` satisfies `Q`, and `P` follows from `Q` in each case.
pub bind-intro :
    {W A B : Type 0} (Q : Ended A → State W → Type 0) (P : Ended B → State W → Type 0)
    (m : Ended A × State W) (f : A → Daemon W B)
    → Q m.0 m.1
    → ((a : A) (t : State W) → Q (returned a) t → P (f a t).0 (f a t).1)
    → ((e : Error) (t : State W) → Q (raised e) t → P (raised e) t)
    → ((t : State W) → Q blocked t → P blocked t)
    → P (continue m.0 f m.1).0 (continue m.0 f m.1).1
bind-intro Q P (returned a, t) f q ret rai blo = ret a t q
bind-intro Q P (raised e, t) f q ret rai blo = rai e t q
bind-intro Q P (blocked, t) f q ret rai blo = blo t q

-- Every value that a host action returns satisfies `P`.
abbrev pub OkAll : {A : Type 0} → (A → Type 0) → Result A → Type 0
OkAll P (ok a) = P a
OkAll P (err e) = Unit

abbrev pub Yields : {W A : Type 0} → (A → Type 0) → Sys W A → Type 0
Yields P m = (w : _) → OkAll P (m w).0

pub Yields-continue :
    {W A B : Type 0} (P : B → Type 0) (r : Result A) (f : A → Sys W B) (w : W)
    → ((a : A) → Yields P (f a))
    → OkAll P (Host.continue r f w).0
Yields-continue P (ok a) f w h = h a w
Yields-continue P (err e) f w h = tt

-- The registry and the locks are as they were.
abbrev pub Quiet : {W A : Type 0} → State W → Ended A → State W → Type 0
Quiet s r t = (t.registry ≡ s.registry) × (t.held ≡ s.held)
