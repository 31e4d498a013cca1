-- ===== src/Client/Wire/Numbers.antt =====
-- The numbers of a request: the server reads what the client wrote.
use rocker.Prelude.{
  ℕ, suc, ◌+◌, ◌*◌, ◌≡◌, refl, sym, ap, ◌∙◌, some, List, [], ◌∷◌, ◌++◌, append_assoc, map, length,
  drop, get_elem?, get_elem?-drop, drop-drop, All, arith, ℤ, pos, negsuc,
}
use rocker.Outcome.{ok}
use rocker.Bytes.{Bytes}
use rocker.Bytes.LittleEndian.{
  i32_to_bytes, i32_of_bytes, to_bytes, IsI32, i32_of_bytes-i32_to_bytes,
}
use rocker.Server.Request.{index, read_meta, read_metas, clamp}
use rocker.Server.Request.Metas.{IsMeta}
use rocker.Client.Wire.{concat_map}

index-drop :
    (req rest : Bytes) (n k a : ℕ)
    → drop n req ≡ rest
    → get_elem? rest k ≡ some a
    → index req (n + k) ≡ ok a
unfolding index
index-drop req rest n k a e h = rw (at_k, index)
  where
    at_k : get_elem? req (n + k) ≡ some a
    at_k = get_elem?-drop n k req ∙ ap (λ l. get_elem? l k) e ∙ h

read_meta-drop :
    (req : Bytes) (i a b c d : ℕ) (rest : Bytes)
    → drop (i * 4) req ≡ a ∷ b ∷ c ∷ d ∷ rest
    → read_meta req i ≡ ok (i32_of_bytes (a ∷ b ∷ c ∷ d ∷ []))
unfolding read_meta
read_meta-drop req i a b c d rest e = rw (
  index-drop req _ (i * 4) 0 a e refl,
  index-drop req _ (i * 4) 1 b e refl,
  index-drop req _ (i * 4) 2 c e refl,
  index-drop req _ (i * 4) 3 d e refl,
)

read_meta-encoded :
    (req : Bytes) (i : ℕ) (m : ℤ) (rest : Bytes)
    → IsI32 m
    → drop (i * 4) req ≡ i32_to_bytes m ++ rest
    → read_meta req i ≡ ok m
unfolding i32_to_bytes to_bytes
read_meta-encoded req i m rest h e =
    read_meta-drop req i _ _ _ _ rest e ∙ ap ok (i32_of_bytes-i32_to_bytes m h)

drop_four : (m : ℤ) (rest : Bytes) → drop 4 (i32_to_bytes m ++ rest) ≡ rest
unfolding i32_to_bytes to_bytes
drop_four m rest = refl

-- The server reads the numbers that the client wrote, and clamps them.
pub read_metas-encoded :
    (ms : List ℤ) (i : ℕ) (req rest : Bytes)
    → All IsI32 ms
    → drop (i * 4) req ≡ concat_map i32_to_bytes ms ++ rest
    → read_metas (length ms) i req ≡ ok (map clamp ms)
unfolding read_metas concat_map
read_metas-encoded [] i req rest h e = refl
read_metas-encoded (m ∷ ms) i req rest h e =
    let front : drop (i * 4) req ≡ i32_to_bytes m ++ (concat_map i32_to_bytes ms ++ rest) =
      e ∙ append_assoc (i32_to_bytes m) (concat_map i32_to_bytes ms) rest in
    let later : drop (suc i * 4) req ≡ concat_map i32_to_bytes ms ++ rest =
      ap (λ (k : ℕ). drop k req) (omega arith)
      ∙ sym (drop-drop (i * 4) 4 req)
      ∙ ap (drop 4) front
      ∙ drop_four m _ in
    rw (read_meta-encoded req i m _ h.0 front, read_metas-encoded ms (suc i) req rest h.1 later)

IsMeta-IsI32 : (i : ℤ) → IsMeta i → IsI32 i
IsMeta-IsI32 (pos n) h = h
IsMeta-IsI32 (negsuc n) h = absurd h

pub metas-IsI32 : (ms : List ℤ) → All IsMeta ms → All IsI32 ms
metas-IsI32 [] h = tt
metas-IsI32 (m ∷ ms) h = (IsMeta-IsI32 m h.0, metas-IsI32 ms h.1)

clamp-IsMeta : (i : ℤ) → IsMeta i → clamp i ≡ i
unfolding clamp
clamp-IsMeta (pos n) h = refl
clamp-IsMeta (negsuc n) h = absurd h

pub clamp_metas : (ms : List ℤ) → All IsMeta ms → map clamp ms ≡ ms
clamp_metas [] h = refl
clamp_metas (m ∷ ms) h = rw (clamp-IsMeta m h.0, clamp_metas ms h.1)

pub length-numbers : (ms : List ℤ) → length (concat_map i32_to_bytes ms) ≡ length ms * 4
unfolding concat_map i32_to_bytes to_bytes
length-numbers [] = refl
length-numbers (m ∷ ms) = omega (arith, length-numbers ms)
