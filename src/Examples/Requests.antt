-- ===== src/Examples/Requests.antt =====
-- Requests: parsing, framing and names.
use rocker.Prelude.{◌≤◌, ◌+◌, All, All-replicate, none, ◌≡◌, refl, length, replicate, arith, pos}
use rocker.Outcome.{Gives, ok, panic}
use rocker.Bytes.{bytes}
use rocker.Bytes.LittleEndian.{to_bytes, of_bytes, i32_of_bytes, i32_of_bits, i32_to_bytes}
use rocker.Bytes.CString.{has_nul}
use rocker.Bytes.Utf8.{is_utf8}
use rocker.Core.Name.{sanitise}
use rocker.Core.Name.Laws.{sanitise_collides}
use rocker.Server.Request.{parse_params, read_metas, sum_usize, any_zero}
use rocker.Server.Request.Size.{text_size, parse_params-text_size}
use rocker.Server.Request.Total.{WellFormed, parse_params-WellFormed}
use rocker.Server.Request.Narrow.{parse_params-panic}
use rocker.Client.Wire.{encode, metas, meta_of, concat_map, iov}
use rocker.Client.Wire.Texts.{Sendable}
use rocker.Server.Socket.{in_buf}
use rocker.Client.Wire.RoundTrip.{params, parse_params-encode}
use rocker.Examples.Inputs.{sample, overlays, wrapping}

parse_params-text_size_example :
    Gives (λ p. 88 + text_size p ≤ length (encode sample)) (parse_params 64 (encode sample))
unfolding encode metas meta_of concat_map iov i32_to_bytes to_bytes
parse_params-text_size_example = parse_params-text_size (encode sample) (omega arith) (omega arith)

parse_params-WellFormed_example : Gives WellFormed (parse_params 64 wrapping)
parse_params-WellFormed_example = parse_params-WellFormed wrapping (omega arith) (omega arith)

overlays-Sendable : All Sendable overlays
unfolding has_nul is_utf8
overlays-Sendable = (
  ((refl, refl), omega arith),
  (tt, (((refl, refl), omega arith), All-replicate Sendable 13 none tt)),
)

parse_params-encode_example :
    parse_params 64 (in_buf (encode sample))
    ≡ ok (params 1000 1000 1000 (bytes "/p") (bytes "/e") (bytes "/d") overlays)
unfolding encode metas meta_of concat_map iov i32_to_bytes to_bytes has_nul is_utf8
parse_params-encode_example =
    parse_params-encode 1000 1000 1000 (bytes "/p") (bytes "/e") (bytes "/d") overlays (omega arith)
      (omega arith) (omega arith) ((refl, refl), omega arith, omega arith)
      ((refl, refl), omega arith, omega arith) ((refl, refl), omega arith, omega arith)
      overlays-Sendable refl (omega arith)

parse_params-panic_example : parse_params 32 wrapping ≡ panic
unfolding read_metas of_bytes i32_of_bytes i32_of_bits sum_usize any_zero
parse_params-panic_example =
    parse_params-panic wrapping (pos 1) (pos 1) (pos 1) (pos 0x7fff_ffff) (pos 0x7fff_ffff) (pos 2)
      (replicate 16 (pos 0)) refl refl (omega arith) refl refl

sanitise_collides_example : sanitise 0xffff_ff00 ≡ sanitise (0xffff_ff00 + 1)
sanitise_collides_example = sanitise_collides 0xffff_ff00 (omega arith)
