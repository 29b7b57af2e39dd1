-- ===== src/Loading/Chunks.antt =====
-- The identity of a file's content that `managed_content_id_from_file` computes by chunks.
use data_quality_toolkit.Prelude.{
  ℕ, zero, suc, ◌<◌, ◌≡◌, refl, sym, ◌∙◌, ap, List, [], ◌∷◌, ◌++◌, length, take, drop, concat,
  take-append-drop, append_assoc, length-drop-le, arith,
}
use data_quality_toolkit.Loading.{World}
use data_quality_toolkit.Loading.Source.{read_chunks, content_id_of}

append-nil : {A : Type 0} (xs : List A) → xs ++ [] ≡ xs
append-nil [] = refl
append-nil (x ∷ xs) = ap (◌∷◌ x) (append-nil xs)

read_chunks_lem :
    (fuel size : ℕ) (bytes seen : List ℕ)
    → length bytes < fuel
    → read_chunks fuel (suc size) bytes seen ≡ seen ++ bytes
unfolding read_chunks
read_chunks_lem zero size bytes seen h = absurd (omega (arith, h))
read_chunks_lem (suc fuel) size [] seen h = sym (append-nil seen)
read_chunks_lem (suc fuel) size (b ∷ bytes) seen h =
    read_chunks_lem fuel size (drop size bytes) (seen ++ (b ∷ take size bytes))
      (omega (arith, h, length-drop-le size bytes))
    ∙ (append_assoc seen (b ∷ take size bytes) (drop size bytes)
        ∙ ap (λ (xs : List ℕ). seen ++ (b ∷ xs)) (take-append-drop size bytes))

-- Reading by chunks feeds the digest the whole file, whatever its length, and ends within the rounds
-- given: the identity is the SHA-256 of all the bytes, after `sha256:`.
pub content_id_of_whole :
    (world : World) (bytes : List ℕ)
    → content_id_of world bytes ≡ concat ("sha256:" ∷ world.sha256_hex bytes ∷ [])
unfolding content_id_of
content_id_of_whole world bytes =
    ap (λ (xs : List ℕ). concat ("sha256:" ∷ world.sha256_hex xs ∷ []))
      (read_chunks_lem (suc (length bytes)) 1048575 bytes [] (omega arith))
