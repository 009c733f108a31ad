-- ===== src/Daemon/Create/Reply.antt =====
-- The document that a successful create request returns. `network_cidr` and `bridge` are the
-- configured ones, and `profile` and `guest_os` are `none` for a jail.
use freebsd_laboratory.Base.{Option}
use freebsd_laboratory.Base.Text.{Text}

pub record Created : Type 0 where
  pub name : Text
  pub kind : Text
  pub profile : Option Text
  pub guest_os : Option Text
  pub guest_ip : Text
  pub network_cidr : Text
  pub bridge : Text
  pub interface : Text
