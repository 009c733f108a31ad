-- ===== src/Transport/Forwards.antt =====
-- The port forwards of an SSH command.
use freebsd_laboratory.Base.{
  true, false, List, [], ◌∷◌, ◌++◌, ◌≡◌, ◌⊎◌, inl, inr, refl, ap, ◌∙◌, ◌&&◌, ◌||◌, if◌then◌else◌,
  all, All, All-map, arith, Bool-cases,
}
use freebsd_laboratory.Base.Int.{ℤ, pos, negsuc, eq_ℤ, eq_ℤ_iff}
use freebsd_laboratory.Base.Text.{Text, text}
use freebsd_laboratory.Base.Result.{Result, ok, err, value_error}
use freebsd_laboratory.Connection.{member_ℤ}
use freebsd_laboratory.Transport.{
  SshTransport, lt_ℤ, insert_sorted, sorted_set, is_port, forward, forwards, command, options,
  target,
}

lt_ℤ_trans : (a b c : ℤ) → lt_ℤ a b ≡ true → lt_ℤ b c ≡ true → lt_ℤ a c ≡ true
unfolding lt_ℤ
lt_ℤ_trans (pos a) (pos b) (pos c) h k = ground arith
lt_ℤ_trans (pos a) (pos b) (negsuc c) h k = absurd cc
lt_ℤ_trans (pos a) (negsuc b) c h k = absurd cc
lt_ℤ_trans (negsuc a) (pos b) (pos c) h k = refl
lt_ℤ_trans (negsuc a) (pos b) (negsuc c) h k = absurd cc
lt_ℤ_trans (negsuc a) (negsuc b) (pos c) h k = refl
lt_ℤ_trans (negsuc a) (negsuc b) (negsuc c) h k = ground arith

lt_ℤ_flip : (a b : ℤ) → lt_ℤ a b ≡ false → eq_ℤ a b ≡ false → lt_ℤ b a ≡ true
unfolding lt_ℤ
lt_ℤ_flip (pos a) (pos b) h k = ground arith
lt_ℤ_flip (pos a) (negsuc b) h k = refl
lt_ℤ_flip (negsuc a) (pos b) h k = absurd cc
lt_ℤ_flip (negsuc a) (negsuc b) h k = ground arith

-- Each element is smaller than all that follow it.
abbrev pub IsAscending : List ℤ → Type 0
IsAscending [] = Unit
IsAscending (p ∷ ps) = All (λ q. lt_ℤ p q ≡ true) ps × IsAscending ps

member-insert_sorted :
    (x p : ℤ) (qs : List ℤ) → member_ℤ x (insert_sorted p qs) ≡ (eq_ℤ x p || member_ℤ x qs)
unfolding insert_sorted
member-insert_sorted x p [] = refl
member-insert_sorted x p (q ∷ qs) =
    ground (arith, member-insert_sorted x p qs, eq_ℤ_iff p q, eq_ℤ_iff x p, eq_ℤ_iff x q)

member-sorted_set : (x : ℤ) (ps : List ℤ) → member_ℤ x (sorted_set ps) ≡ member_ℤ x ps
unfolding sorted_set
member-sorted_set x [] = refl
member-sorted_set x (p ∷ ps) =
    member-insert_sorted x p (sorted_set ps) ∙ ap (λ b. eq_ℤ x p || b) (member-sorted_set x ps)

insert_sorted-All :
    (r p : ℤ) (qs : List ℤ)
    → lt_ℤ r p ≡ true
    → All (λ q. lt_ℤ r q ≡ true) qs
    → All (λ q. lt_ℤ r q ≡ true) (insert_sorted p qs)
unfolding insert_sorted
insert_sorted-All r p [] h hs = (h, tt)
insert_sorted-All r p (q ∷ qs) h (k, hs) = elim (Bool-cases (lt_ℤ p q)) [
  | inl less ↦ rw less (h, (k, hs))
  | inr more ↦ elim (Bool-cases (eq_ℤ p q)) [
    | inl same ↦ rw (more, same) (k, hs)
    | inr other ↦ rw (more, other) (k, insert_sorted-All r p qs h hs)
  ]
]

insert_sorted-IsAscending :
    (p : ℤ) (qs : List ℤ) → IsAscending qs → IsAscending (insert_sorted p qs)
unfolding insert_sorted
insert_sorted-IsAscending p [] h = (tt, tt)
insert_sorted-IsAscending p (q ∷ qs) (k, hs) = elim (Bool-cases (lt_ℤ p q)) [
  | inl less ↦ rw less ((less, All-map _ _ (λ x later. lt_ℤ_trans p q x less later) qs k), (k, hs))
  | inr more ↦ elim (Bool-cases (eq_ℤ p q)) [
    | inl same ↦ rw (more, same) (k, hs)
    | inr other ↦
        rw (more, other)
          (insert_sorted-All q p qs (lt_ℤ_flip p q more other) k, insert_sorted-IsAscending p qs hs)
  ]
]

sorted_set-IsAscending : (ps : List ℤ) → IsAscending (sorted_set ps)
unfolding sorted_set
sorted_set-IsAscending [] = tt
sorted_set-IsAscending (p ∷ ps) =
    insert_sorted-IsAscending p (sorted_set ps) (sorted_set-IsAscending ps)

all-insert_sorted :
    (p : ℤ) (qs : List ℤ) → all is_port (insert_sorted p qs) ≡ (is_port p && all is_port qs)
unfolding insert_sorted
all-insert_sorted p [] = refl
all-insert_sorted p (q ∷ qs) = ground (arith, all-insert_sorted p qs, eq_ℤ_iff p q)

all-sorted_set : (ps : List ℤ) → all is_port (sorted_set ps) ≡ all is_port ps
unfolding sorted_set
all-sorted_set [] = refl
all-sorted_set (p ∷ ps) =
    all-insert_sorted p (sorted_set ps) ∙ ap (λ b. is_port p && b) (all-sorted_set ps)

-- One forward for each port.
abbrev pub pairs_of : SshTransport → List ℤ → List Text
pairs_of t [] = []
pairs_of t (p ∷ ps) = forward t p ++ pairs_of t ps

forwards_lem :
    (t : SshTransport) (ps : List ℤ)
    → forwards t ps ≡ (
        if all is_port ps
        then ok (pairs_of t ps)
        else err (value_error "Invalid SSH forwarding port"))
unfolding forwards
forwards_lem t [] = refl
forwards_lem t (p ∷ ps) = ground (arith, forwards_lem t ps)

-- The argument list of a command: the client with its options, a forward for each of the ports, the
-- target and the remote command.
abbrev pub command_of : SshTransport → Text → List ℤ → List Text
command_of t remote ps =
    t.ssh_command ∷ (options t ++ (text "-T" ∷ (pairs_of t ps ++ (target t ∷ remote ∷ []))))

abbrev pub IsForwarding : SshTransport → Text → List ℤ → Result (List Text) → Type 0
IsForwarding t remote ports r =
    ((all is_port ports ≡ false) × (r ≡ err (value_error "Invalid SSH forwarding port")))
    ⊎ ((all is_port ports ≡ true)
        × (qs : List ℤ) × IsAscending qs
        × ((p : ℤ) → member_ℤ p qs ≡ member_ℤ p ports)
        × (r ≡ ok (command_of t remote qs)))

-- A command is refused where one of the ports to forward is not in 1 to 65535. Otherwise it runs the
-- SSH client with the transport's options and forwards exactly the given ports, each once and in
-- ascending order, before the target and the remote command.
pub command-IsForwarding :
    (t : SshTransport) (remote : Text) (ports : List ℤ)
    → IsForwarding t remote ports (command t remote ports)
unfolding command
command-IsForwarding t remote ports = elim (Bool-cases (all is_port ports)) [
  | inr bad ↦ inl (bad, rw (forwards_lem t (sorted_set ports), all-sorted_set ports, bad) refl)
  | inl good ↦ inr (
    good,
    sorted_set ports,
    sorted_set-IsAscending ports,
    λ p. member-sorted_set p ports,
    rw (forwards_lem t (sorted_set ports), all-sorted_set ports, good) refl,
  )
]
