-- ===== src/Examples/Setups.antt =====
-- Configurations that are accepted, and guards that are set up.
use rocker.Prelude.{ℕ, ◌≡◌, ◌≢◌, refl, some, [], ◌∷◌, ◌==◌, if◌then◌else◌, ℤ, arith}
use rocker.Outcome.{ok}
use rocker.Bytes.{bytes}
use rocker.Call.{Env, done, file, dir, metadata}
use rocker.Machine.{unused, ◌>>=◌}
use rocker.Machine.Success.{Gives}
use rocker.Machine.Observe.{Seen}
use rocker.Core.Setup.{Params, fresh, new, next_procname, check_uid, check_gid, check_path}
use rocker.Core.Setup.Names.{new_all, new-distinct}
use rocker.Core.Setup.Checked.{confirmed_by, regular, directory, group, user, new-Gives}
use rocker.Core.Guard.{guard_setup}
use rocker.Core.Loop.Opening.{requested}
use rocker.Core.Guard.Order.{set_up, guard_setup-Gives}
use rocker.Examples.Inputs.{calm, cfg, started}

-- As `calm`, with a package at /p.
abbrev packaged : Env
packaged t (metadata (_ ∷ c ∷ _)) = done (if c == b'p' then file else dir)
packaged t c = calm t c

abbrev asked : Params
asked = record {
  app_id = 1000;
  uid = 1000;
  gid = some 1000;
  app_pkg_path = bytes "/p";
  app_exec_dir = bytes "/e";
  app_data_dir = bytes "/d";
  app_overlay_dirs = [];
}

-- A request whose package is a directory.
abbrev refused : Params
refused = record asked { app_pkg_path = bytes "/e" }

accepted : (new packaged 64 asked started).0 ≡ ok (fresh packaged asked 0xffff_ffff_ffff_ffff)
unfolding new next_procname check_uid check_gid check_path ◌>>=◌
accepted = refl

accepted_later :
    (new packaged 64 asked (new_all packaged (refused ∷ []) (new packaged 64 asked started).1)).0
    ≡ ok (fresh packaged asked 0xffff_ffff_ffff_fffd)
unfolding new next_procname check_uid check_gid check_path new_all ◌>>=◌
accepted_later = refl

new-distinct_example :
    (fresh packaged asked 0xffff_ffff_ffff_ffff).guard_pname
    ≢ (fresh packaged asked 0xffff_ffff_ffff_fffd).guard_pname
new-distinct_example =
    new-distinct packaged asked asked (refused ∷ []) started
      (fresh packaged asked 0xffff_ffff_ffff_ffff) (fresh packaged asked 0xffff_ffff_ffff_fffd)
      (omega arith) (omega arith) accepted accepted_later

new-Gives_example :
    Gives
      (λ s. Seen confirmed_by [] s × (s.guard_procname ≡ 7))
      (new packaged 64 asked)
      (λ c s.
        (c ≡ fresh packaged asked 7)
        × Seen confirmed_by
            (regular (bytes "/p")
              ∷ directory (bytes "/d")
              ∷ directory (bytes "/e")
              ∷ group 1000
              ∷ user 1000
              ∷ [])
            s)
new-Gives_example = new-Gives packaged 64 7 asked

guard_setup-Gives_example :
    Gives
      (λ s. Seen requested [] s × (s.loop_master ≡ unused))
      (guard_setup calm 3 cfg)
      (λ _ s.
        (id : ℤ) × (ctl_fd loop_fd pkg_fd : ℕ) × Seen requested
          (set_up 3 cfg unused id ctl_fd loop_fd pkg_fd)
          s)
guard_setup-Gives_example = guard_setup-Gives calm 3 unused cfg
