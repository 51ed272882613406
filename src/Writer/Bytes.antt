-- ===== src/Writer/Bytes.antt =====
-- writeRawToData of parcel_writer.cpp.
use fans.Base.{
  ℕ, ◌==◌, ◌≡◌, refl, ap, false, List, [], ◌∷◌, ◌++◌, arith, length, replicate, All,
  length-replicate,
}
use fans.Writer.{strncpy, write_raw_to_data}

pub length-strncpy : (buffer : List ℕ) → length (strncpy buffer) ≡ length buffer
unfolding strncpy
length-strncpy [] = refl
length-strncpy (b ∷ bs) = ground (arith, length-strncpy bs, length-replicate {A = ℕ} (length bs) 0)

-- writeRawToData adds the bytes of the buffer up to its first 0 as they are, and 0 for each byte
-- that follows.
pub write_raw_to_data-zero :
    (before after raw_data : List ℕ)
    → All (λ b. (b == 0) ≡ false) before
    → write_raw_to_data (before ++ 0 ∷ after) raw_data
      ≡ raw_data ++ (before ++ 0 ∷ replicate (length after) 0)
unfolding strncpy
write_raw_to_data-zero before after raw_data h = ap (raw_data ++◌) (copied before h)
  where
    copied :
        (bs : List ℕ)
        → All (λ b. (b == 0) ≡ false) bs
        → strncpy (bs ++ 0 ∷ after) ≡ bs ++ 0 ∷ replicate (length after) 0
    copied [] k = refl
    copied (b ∷ bs) k = rw k.0 (ap (b ∷◌) (copied bs k.1))
