-- ===== src/Core/Guard/Codes.antt =====
-- The codes that the guard sends to its master (core/src/master.rs). `negsuc n` is -(n + 1).
use rocker.Prelude.{ℤ, negsuc}

abbrev pub success : ℤ
success = negsuc 9999

abbrev pub emnt_proc : ℤ
emnt_proc = negsuc 0

abbrev pub emnt_loop : ℤ
emnt_loop = negsuc 1

abbrev pub emnt_overlay : ℤ
emnt_overlay = negsuc 2

abbrev pub eunshare_user : ℤ
eunshare_user = negsuc 3

abbrev pub eset_procname : ℤ
eset_procname = negsuc 4

abbrev pub emake_private : ℤ
emake_private = negsuc 5
