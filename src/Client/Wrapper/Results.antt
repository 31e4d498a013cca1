-- ===== src/Client/Wrapper/Results.antt =====
-- What the wrapper makes of the results of C.
use rocker.Prelude.{◌≡◌, refl, false, [], ◌∷◌, arith}
use rocker.Bytes.{Bytes}
use rocker.Bytes.CString.{has_nul, from_bytes_with_nul-append}
use rocker.Bytes.LittleEndian.{bits_of_i32}
use rocker.Client.Wire.{RockerRequest}
use rocker.Client.Wrapper.{
  Result, ok, err, ◌>>=◌, Request, CResult, RockerResult, take_nonzero, name_of, res_convert,
  enter_rocker,
}
use rocker.Client.Wrapper.Built.{fields, c_request-clean}
use rocker.Client.Wrapper.Delivery.{IsClean}

take_nonzero-clean : (bs : Bytes) → has_nul (take_nonzero bs) ≡ false
unfolding take_nonzero has_nul
take_nonzero-clean [] = refl
take_nonzero-clean (b ∷ bs) = ground (arith, take_nonzero-clean bs)

abbrev result_of : CResult → Bytes → RockerResult
result_of res name = record {
  app_pid = bits_of_i32 res.app_pid;
  guard_pid = bits_of_i32 res.guard_pid;
  guard_pname = name;
}

module _ (to_string_lossy : Bytes → Bytes) where
  -- What the wrapper tells of a result that is no error.
  abbrev pub told : CResult → RockerResult
  told res = result_of res (to_string_lossy (take_nonzero res.guard_pname))

  pub name_of-ok :
      (name : Bytes) → name_of to_string_lossy name ≡ ok (to_string_lossy (take_nonzero name))
  unfolding name_of
  name_of-ok name =
      rw (from_bytes_with_nul-append (take_nonzero name) (take_nonzero-clean name), name_of) refl

  told_all :
      (r : Result CResult)
      → (r >>= λ res. name_of to_string_lossy res.guard_pname >>= λ name. ok (result_of res name))
        ≡ (r >>= λ res. ok (told res))
  told_all (ok res) = rw (name_of-ok res.guard_pname) refl
  told_all (err e) = refl

  -- If no text of the request has a NUL inside, `enter_rocker` fails on nothing but the error number
  -- that C returns: the name in the result, cut at its first NUL or taken whole, is always converted.
  pub enter_rocker-told :
      (run : RockerRequest → CResult) (r : Request)
      → IsClean r
      → enter_rocker to_string_lossy run r ≡ (res_convert (run (fields r)) >>= λ res. ok (told res))
  unfolding enter_rocker
  enter_rocker-told run r clean =
      rw (c_request-clean r clean) (told_all (res_convert (run (fields r))))
