-- ===== src/Config.antt =====
-- The data of core/src/master.rs: a rocker's configuration, and the table of running rockers.
use rocker.Prelude.{
  ℕ, ◌≡◌, refl, ◌↔◌, Bool, true, false, Option, none, some, List, [], ◌∷◌, arith, ◌==◌,
  if◌then◌else◌, ℤ, pos, negsuc,
}
use rocker.Bytes.{Bytes}

-- `RockerCfg`. Of the guard's stack only the length is kept: its content is raw memory.
pub record RockerCfg : Type 0 where
  pub app_id : ℕ
  pub uid : ℕ
  pub gid : Option ℕ
  pub app_pkg_path : Bytes
  pub app_exec_dir : Bytes
  pub app_data_dir : Bytes
  pub app_overlay_dirs : List Bytes
  pub guard_pid : Option ℕ
  pub guard_pname : ℕ
  pub guard_stack : Option ℕ
  pub guard_loop_id : Option ℤ

unfoldable pub eqb_ℤ : ℤ → ℤ → Bool
eqb_ℤ (pos m) (pos n) = m == n
eqb_ℤ (negsuc m) (negsuc n) = m == n
eqb_ℤ _ _ = false

pub eqb_ℤ_iff : (i j : ℤ) → (eqb_ℤ i j ≡ true) ↔ (i ≡ j)
unfolding eqb_ℤ
eqb_ℤ_iff (pos m) (pos n) = ground arith
eqb_ℤ_iff (pos m) (negsuc n) = (λ h. cc, λ h. cc)
eqb_ℤ_iff (negsuc m) (pos n) = (λ h. cc, λ h. cc)
eqb_ℤ_iff (negsuc m) (negsuc n) = ground arith

pub eqb_ℤ_self : (i : ℤ) → eqb_ℤ i i ≡ true
eqb_ℤ_self i = (eqb_ℤ_iff i i).1 refl

-- `HashMap<libc::pid_t, RockerCfg>`, as a list of entries.
abbrev pub ResourceHdr : Type 0
ResourceHdr = List (ℤ × RockerCfg)

unfoldable pub lookup : ℤ → ResourceHdr → Option RockerCfg
lookup pid [] = none
lookup pid ((p, cfg) ∷ rest) = if eqb_ℤ p pid then some cfg else lookup pid rest

-- The map after `remove(&pid)`; what `remove` returns is `lookup pid`.
unfoldable pub remove : ℤ → ResourceHdr → ResourceHdr
remove pid [] = []
remove pid ((p, cfg) ∷ rest) =
    let others = remove pid rest in if eqb_ℤ p pid then others else (p, cfg) ∷ others

-- The map after `insert(pid, cfg)`, which returns the entry that it replaces.
unfoldable pub insert : ℤ → RockerCfg → ResourceHdr → ResourceHdr
unfolding remove
insert pid cfg hdr = (pid, cfg) ∷ remove pid hdr

pub lookup-remove :
    (p q : ℤ) (hdr : ResourceHdr)
    → lookup q (remove p hdr) ≡ (if eqb_ℤ p q then none else lookup q hdr)
unfolding lookup remove
lookup-remove p q [] = ground arith
lookup-remove p q ((r, cfg) ∷ rest) =
    ground (arith, lookup-remove p q rest, eqb_ℤ_iff r p, eqb_ℤ_iff r q, eqb_ℤ_iff p q)

pub lookup-insert :
    (p q : ℤ) (cfg : RockerCfg) (hdr : ResourceHdr)
    → lookup q (insert p cfg hdr) ≡ (if eqb_ℤ p q then some cfg else lookup q hdr)
unfolding lookup insert
lookup-insert p q cfg hdr = ground (arith, lookup-remove p q hdr)
