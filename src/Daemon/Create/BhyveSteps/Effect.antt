-- ===== src/Daemon/Create/BhyveSteps/Effect.antt =====
-- The record that building a bhyve guest returns.
use freebsd_laboratory.Base.{Bool, true, false, [], ◌∷◌, refl, inl, inr, Bool-cases}
use freebsd_laboratory.Base.Text.{Text, text, eq_text}
use freebsd_laboratory.Base.Result.{Result-cases}
use freebsd_laboratory.Daemon.Config.{Manager, RuntimeRecord, BhyveGuestProfile}
use freebsd_laboratory.Daemon.Rules.{Yields}
use freebsd_laboratory.Daemon.Create.Effect.{SameOwner}
use freebsd_laboratory.Daemon.Create.BhyveSteps.{
  build_bhyve, build_by_backend, build_clone, build_memdisk, build_image, make_clone, make_memdisk,
  clone_ready, vm_create, netconfig_of,
}

module _ {W : Type 0} (m : Manager W) where
  build_clone-SameOwner :
      (name : Text) (guest : BhyveGuestProfile) (key_path config : Text) (r : RuntimeRecord)
      → Yields (SameOwner r) (build_clone m name guest key_path config r)
  unfolding build_clone
  build_clone-SameOwner name guest key_path config r w =
      elim (Result-cases (make_clone m name guest key_path config w).0) [
        | inl (a, made) ↦ rw (made, build_clone) (refl, refl, refl, refl, refl)
        | inr (e, failed) ↦ rw (failed, build_clone) tt
      ]

  build_memdisk-SameOwner :
      (name : Text) (guest : BhyveGuestProfile) (key_path config : Text) (r : RuntimeRecord)
      → Yields (SameOwner r) (build_memdisk m name guest key_path config r)
  unfolding build_memdisk
  build_memdisk-SameOwner name guest key_path config r w =
      elim (Result-cases (make_memdisk m name guest key_path config w).0) [
        | inl (a, made) ↦ rw (made, build_memdisk) (refl, refl, refl, refl, refl)
        | inr (e, failed) ↦ rw (failed, build_memdisk) tt
      ]

  build_image-SameOwner :
      (name : Text) (guest : BhyveGuestProfile) (key_path config : Text) (r : RuntimeRecord)
      → Yields (SameOwner r) (build_image m name guest key_path config r)
  unfolding build_image
  build_image-SameOwner name guest key_path config r w =
      elim (Result-cases
        (vm_create m guest.template (text "-i" ∷ guest.image ∷ []) key_path config name w).0) [
          | inl (a, made) ↦ rw (made, build_image) (refl, refl, refl, refl, refl)
          | inr (e, failed) ↦ rw (failed, build_image) tt
        ]

  build_by_backend-SameOwner :
      (name : Text) (guest : BhyveGuestProfile) (key_path config : Text) (r : RuntimeRecord)
      (ready : Bool)
      → Yields (SameOwner r) (build_by_backend m name guest key_path config r ready)
  unfolding build_by_backend
  build_by_backend-SameOwner name guest key_path config r true w =
      build_clone-SameOwner name guest key_path config r w
  build_by_backend-SameOwner name guest key_path config r false w =
      elim (Bool-cases (eq_text m.config.vm_disk_backend (text "memdisk"))) [
        | inl disk ↦ rw disk (build_memdisk-SameOwner name guest key_path config r w)
        | inr image ↦ rw image (build_image-SameOwner name guest key_path config r w)
      ]

  -- What is built for a guest leaves the fields that identify the record alone.
  pub build_bhyve-SameOwner :
      (name : Text) (guest : BhyveGuestProfile) (address key_path : Text) (r : RuntimeRecord)
      → Yields (SameOwner r) (build_bhyve m name guest address key_path r)
  unfolding build_bhyve
  build_bhyve-SameOwner name guest address key_path r w =
      elim (Result-cases (clone_ready m guest.zvol_snapshot w).0) [
        | inl (ready, asked) ↦
            rw (asked, build_bhyve)
              (build_by_backend-SameOwner name guest key_path (netconfig_of m name guest address) r
                ready (clone_ready m guest.zvol_snapshot w).1)
        | inr (e, failed) ↦ rw (failed, build_bhyve) tt
      ]
