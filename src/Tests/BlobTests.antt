-- ===== src/Tests/BlobTests.antt =====
-- A structure of 34 bytes whose generated assignments set one of its fields.
use resume_from_edk2_tooling.Base.{
  ℕ, ◌<◌, ◌≡◌, refl, true, false, some, [], ◌∷◌, arith, ◌==◌, if◌then◌else◌,
}
use resume_from_edk2_tooling.StateBlob.{
  Blob, Layout, bytes, little_endian, cpu_state, end_state, filled_state, main,
}
use resume_from_edk2_tooling.StateBlob.Written.{main-Written}

abbrev layout : Layout
layout = record { magic = 0; version = 8; version_width = 2; end_magic = 26; size = 34 }

-- `s.cr3 = ...`, say, at offset 10.
abbrev generated : Blob → Blob
generated b i = if i == 10 then 0x42 else b i

generated_behind : (b : Blob) (i : ℕ) → i < 10 → generated b i ≡ b i
generated_behind b i h = let other : (i == 10) ≡ false = ground arith in rw other refl

main-Written_example :
    (main layout generated true ≡ some (bytes (filled_state layout generated) 0 34))
    × (bytes (filled_state layout generated) 0 8 ≡ cpu_state)
    × (bytes (filled_state layout generated) 8 2 ≡ little_endian 2 0x0100)
    × (bytes (filled_state layout generated) 26 8 ≡ end_state)
main-Written_example = main-Written layout generated (omega arith) (omega arith) generated_behind

version_bytes : little_endian 2 0x0100 ≡ 0 ∷ 1 ∷ []
unfolding little_endian
version_bytes = refl
