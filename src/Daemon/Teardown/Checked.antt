-- ===== src/Daemon/Teardown/Checked.antt =====
-- A teardown succeeds only behind its final check.
use freebsd_laboratory.Base.{List, [], ◌∷◌, some, ◌≡◌, refl, sym}
use freebsd_laboratory.Base.Text.{Text, text}
use freebsd_laboratory.Base.Value.{str?, eq_str}
use freebsd_laboratory.Base.Result.{Result, ok, err}
use freebsd_laboratory.Host
use freebsd_laboratory.Host.{Sys, pure, ◌>>◌}
use freebsd_laboratory.Daemon.Config.{RuntimeRecord, Manager}
use freebsd_laboratory.Daemon.Teardown.{
  teardown, remaining, assert_gone, remove_vm, remove_md, remove_dataset, remove_jail, remove_epair,
  text_where, is_md_unit, is_epair_host, jail_dataset,
}

module _ {W : Type 0} (m : Manager W) (name : Text) (r : RuntimeRecord) where
  -- If code succeeds, the check found nothing that is left, and came last.
  abbrev Checked : {A : Type 0} → Result A × W → Type 0
  Checked {A} x =
      (a : A)
      → x.0 ≡ ok a
      → (behind : W) × ((remaining m name r behind).0 ≡ ok [])
        × (x.1 ≡ (remaining m name r behind).1)

  continue-Checked :
      {A B : Type 0} (o : Result A) (f : A → Sys W B) (w : W)
      → ((a : A) → Checked (f a w))
      → Checked (Host.continue o f w)
  continue-Checked (ok a) f w h = h a
  continue-Checked (err e) f w h = λ b bad. absurd cc

  assert_gone-Checked :
      {A : Type 0} (o : Result (List Text)) (answer : A) (behind w : W)
      → (remaining m name r behind).0 ≡ o
      → (remaining m name r behind).1 ≡ w
      → Checked (Host.continue o (λ left. assert_gone m name left >> pure answer) w)
  unfolding assert_gone
  assert_gone-Checked (ok []) answer behind w left world = λ a same. (behind, left, sym world)
  assert_gone-Checked (ok (what ∷ others)) answer behind w left world = λ a bad. absurd cc
  assert_gone-Checked (err e) answer behind w left world = λ a bad. absurd cc

  pub teardown-Checked : (w : W) → Checked (teardown m name r w)
  unfolding teardown
  teardown-Checked w =
      continue-Checked (remove_vm m (eq_str r.kind (text "bhyve")) name w).0 _ _ (λ vm.
        continue-Checked (remove_md m (text_where is_md_unit r.md_unit) _).0 _ _ (λ md.
          continue-Checked (remove_dataset m (str? r.dataset) _).0 _ _ (λ recorded.
            continue-Checked (remove_jail m (eq_str r.kind (text "jail")) name _).0 _ _ (λ jail.
              continue-Checked (remove_epair m (text_where is_epair_host r.epair_host) _).0 _ _
                (λ epair.
                  continue-Checked (remove_dataset m (some (jail_dataset m name)) _).0 _ _
                    (λ own. assert_gone-Checked (remaining m name r _).0 _ _ _ refl refl))))))
