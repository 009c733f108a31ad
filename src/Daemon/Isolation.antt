-- ===== src/Daemon/Isolation.antt =====
-- One Unix user's runtimes and the requests of another, in freebsd_laboratory/runtime_daemon.py.
pub mod Collect
pub mod Create
pub mod Serve
use freebsd_laboratory.Base.{
  ℕ, Bool, true, false, List, [], ◌∷◌, Option, none, some, ◌≡◌, ◌≢◌, refl, sym, ◌∙◌, ap, inl, inr,
  arith, ◌⊎◌, if◌then◌else◌, Bool-cases,
}
use freebsd_laboratory.Base.Int.{ℤ, pos}
use freebsd_laboratory.Base.Text.{Text, eq_text, eq_text_iff, member}
use freebsd_laboratory.Base.Value.{Value, int}
use freebsd_laboratory.Base.Dict.{lookup, erase, lookup-erase}
use freebsd_laboratory.Base.Result.{Result, ok, err, Error, Result-cases}
use freebsd_laboratory.Daemon.Config.{Manager, RuntimeRecord, RuntimeOwner, PeerCredentials}
use freebsd_laboratory.Daemon.Names.{validate_name, validate_ssh_public_key, matches_runtime_name}
use freebsd_laboratory.Daemon.Access.{
  authorize_record, authorize_record_iff, owner_from_peer, record_owned_by,
}
use freebsd_laboratory.Daemon.State.{
  State, Entry, document, link, folder, unreadable, malformed, Ended, returned, raised, blocked,
  continue, ended, Daemon, with_runtime_lock, unlock,
}
use freebsd_laboratory.Daemon.Registry.{load_registry, read_entry}
use freebsd_laboratory.Daemon.Destroy.{Destroyed, destroy, permitted, or_empty}
use freebsd_laboratory.Daemon.Destroy.Effect.{Effect, destroy-Effect}

-- The record of a name, as long as it stays in the registry.
abbrev pub Keeps : {W : Type 0} → Text → RuntimeRecord → State W → Type 0
Keeps stem r s = lookup stem s.registry ≡ some (document r)

same_record :
    (requester : Option ℤ) (r : RuntimeRecord) (o : Option Entry) (found : Option RuntimeRecord)
    → read_entry o ≡ ok found
    → o ≡ some (document r)
    → permitted (or_empty found) requester false ≡ ok tt
    → authorize_record r requester ≡ ok tt
unfolding read_entry permitted
same_record requester r (some (document q)) none read held may = absurd cc
same_record requester r (some (document q)) (some f) read held may = cc
same_record requester r (some link) found read held may = absurd cc
same_record requester r (some folder) found read held may = absurd cc
same_record requester r (some unreadable) found read held may = absurd cc
same_record requester r (some malformed) found read held may = absurd cc
same_record requester r none found read held may = absurd cc

module _ {W : Type 0} (m : Manager W) where
  Keeps-Effect :
      (name stem : Text) (requester : Option ℤ) (r : RuntimeRecord) (s : State W)
      (x : Ended Destroyed) (t : State W)
      → authorize_record r requester ≢ ok tt
      → Keeps stem r s
      → Effect m name requester false s (x, t)
      → Keeps stem r t
  unfolding read_entry permitted
  Keeps-Effect name stem requester r s (returned d) t foreign kept
        (valid, (found, read, may, l, torn), er, eh) =
      rw (er, lookup-erase name stem s.registry)
        (elim (Bool-cases (eq_text stem name)) [
          | inr other ↦ ground (arith, kept)
          | inl same ↦ absurd (
              foreign (
                same_record requester r _ found read
                  (ap (λ n. lookup n s.registry) (sym ((eq_text_iff stem name).0 same)) ∙ kept)
                  may))
        ])
  Keeps-Effect name stem requester r s (raised e) t foreign kept (er, eh, l) =
      ap (lookup stem) er ∙ kept
  Keeps-Effect name stem requester r s blocked t foreign kept (busy, e) =
      ap (λ u. lookup stem u.registry) e ∙ kept

  -- Whoever the check refuses cannot make `destroy` remove a record, whatever name is asked for and
  -- however the call ends.
  pub destroy-Keeps :
      (name stem : Text) (requester : Option ℤ) (r : RuntimeRecord) (s : State W)
      → authorize_record r requester ≢ ok tt
      → Keeps stem r s
      → Keeps stem r (destroy m name requester false s).1
  destroy-Keeps name stem requester r s foreign kept =
      Keeps-Effect name stem requester r s _ _ foreign kept
        (destroy-Effect m name requester false s)
