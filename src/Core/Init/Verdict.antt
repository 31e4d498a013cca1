-- ===== src/Core/Init/Verdict.antt =====
-- What the master makes of a number that the guard sent: `check_err!` and the first message of
-- `RockerCfg::init` (core/src/master.rs).
use rocker.Prelude.{ℕ, ◌≡◌, refl, false, Bool-cases, inl, inr, ℤ, pos, negsuc}
use rocker.Outcome.{
  Error, core, unknown, set_proc_name, mnt_proc, mnt_loop, mnt_overlay, unshare_user,
}
use rocker.Config.{RockerCfg, eqb_ℤ, eqb_ℤ_iff}
use rocker.Machine.{Machine, pure, throw, pdie}
use rocker.Machine.Keeps.{
  Triple, Triple-bind, Triple-weaken, Triple-pure, Triple-throw, Triple-pdie,
}
use rocker.Core.Guard.Codes.{
  success, emnt_proc, emnt_loop, emnt_overlay, eunshare_user, eset_procname, emake_private,
}
use rocker.Core.Init.{note_loop_id, check_err}
use rocker.Core.Init.Story.{
  Means, private, procname, proc, loop, overlay, user, Noted, device, no_device, IsUnknown,
}

-- What a number leads to.
data Verdict (i : ℤ) : Type 0 where
  passes : i ≡ success → check_err i ≡ pure tt → Verdict i
  fails : (e : Error) → Means i e → check_err i ≡ throw e → Verdict i
  puzzles : IsUnknown i → check_err i ≡ pdie → Verdict i

other : (c i : ℤ) → i ≡ c → eqb_ℤ i c ≡ false → ⊥
other c i e h = cc (h, (eqb_ℤ_iff i c).1 e)

no_meaning :
    (i : ℤ)
    → eqb_ℤ i emake_private ≡ false
    → eqb_ℤ i eset_procname ≡ false
    → eqb_ℤ i emnt_proc ≡ false
    → eqb_ℤ i emnt_loop ≡ false
    → eqb_ℤ i emnt_overlay ≡ false
    → eqb_ℤ i eunshare_user ≡ false
    → (e : Error) → Means i e
    → ⊥
no_meaning i h1 h2 h3 h4 h5 h6 e private = other emake_private i refl h1
no_meaning i h1 h2 h3 h4 h5 h6 e procname = other eset_procname i refl h2
no_meaning i h1 h2 h3 h4 h5 h6 e proc = other emnt_proc i refl h3
no_meaning i h1 h2 h3 h4 h5 h6 e loop = other emnt_loop i refl h4
no_meaning i h1 h2 h3 h4 h5 h6 e overlay = other emnt_overlay i refl h5
no_meaning i h1 h2 h3 h4 h5 h6 e user = other eunshare_user i refl h6

verdict : (i : ℤ) → Verdict i
unfolding check_err
verdict i = elim (Bool-cases (eqb_ℤ i success)) [
  | inl h ↦ passes ((eqb_ℤ_iff i success).0 h) (rw h refl)
  | inr h0 ↦ elim (Bool-cases (eqb_ℤ i emake_private)) [
    | inl h ↦ fails (core unknown) (rw ((eqb_ℤ_iff i emake_private).0 h) private) (rw (h0, h) refl)
    | inr h1 ↦ elim (Bool-cases (eqb_ℤ i eset_procname)) [
      | inl h ↦
          fails (core set_proc_name) (rw ((eqb_ℤ_iff i eset_procname).0 h) procname)
            (rw (h0, h1, h) refl)
      | inr h2 ↦ elim (Bool-cases (eqb_ℤ i emnt_proc)) [
        | inl h ↦
            fails (core mnt_proc) (rw ((eqb_ℤ_iff i emnt_proc).0 h) proc) (rw (h0, h1, h2, h) refl)
        | inr h3 ↦ elim (Bool-cases (eqb_ℤ i emnt_loop)) [
          | inl h ↦
              fails (core mnt_loop) (rw ((eqb_ℤ_iff i emnt_loop).0 h) loop)
                (rw (h0, h1, h2, h3, h) refl)
          | inr h4 ↦ elim (Bool-cases (eqb_ℤ i emnt_overlay)) [
            | inl h ↦
                fails (core mnt_overlay) (rw ((eqb_ℤ_iff i emnt_overlay).0 h) overlay)
                  (rw (h0, h1, h2, h3, h4, h) refl)
            | inr h5 ↦ elim (Bool-cases (eqb_ℤ i eunshare_user)) [
              | inl h ↦
                  fails (core unshare_user) (rw ((eqb_ℤ_iff i eunshare_user).0 h) user)
                    (rw (h0, h1, h2, h3, h4, h5, h) refl)
              | inr h6 ↦
                  puzzles (λ e. other success i e h0, no_meaning i h1 h2 h3 h4 h5 h6)
                    (rw (h0, h1, h2, h3, h4, h5, h6) refl)
            ]
          ]
        ]
      ]
    ]
  ]
]

module _ {P : Machine → Type 0} (i : ℤ) where
  pub check_err-Triple :
      Triple P
        (check_err i)
        (λ _ s. (i ≡ success) × P s)
        (λ e s. Means i e × P s)
        (λ s. IsUnknown i × P s)
  check_err-Triple = elim (verdict i) [
    | passes e c ↦ rw c (Triple-pure tt (λ s h. (e, h)))
    | fails e m c ↦ rw c (Triple-throw e (λ s h. (m, h)))
    | puzzles u c ↦ rw c (Triple-pdie (λ s h. (u, h)))
  ]

pub note_loop_id-Triple :
    {P : Machine → Type 0} (i : ℤ) (cfg : RockerCfg)
    → Triple P
        (note_loop_id i cfg)
        (λ cfg' s. Noted cfg i cfg' × P s)
        (λ e s. Means i e × P s)
        (λ s. (((k : ℕ) × (i ≡ negsuc k)) × IsUnknown i) × P s)
unfolding note_loop_id
note_loop_id-Triple (pos n) cfg = Triple-pure _ (λ s h. (device n, h))
note_loop_id-Triple {P} (negsuc n) cfg =
    Triple-bind _ _ _
      (Triple-weaken _ _ _ _ _ (check_err-Triple (negsuc n)) (λ s h. h) (λ a s h. h) (λ e s h. h)
        (λ s (u, h). (((n, refl), u), h)))
      (λ _. Triple-pure cfg (λ s (e, h). (rw e no_device, h)))
