-- ===== src/StateBlob/Written.antt =====
-- What the written state holds, whatever the generated assignments are.
use resume_from_edk2_tooling.Base.{
  length, ℕ, zero, suc, ◌+◌, ◌/◌, ◌^◌, ◌≤◌, ◌<◌, ◌≡◌, refl, sym, ap, ap₂, ◌∙◌, true, false, some,
  List, [], ◌∷◌, arith, ◌==◌, if◌then◌else◌,
}
use resume_from_edk2_tooling.StateBlob.{
  Blob, Layout, memcpy, bytes, little_endian, cpu_state, end_state, filled_state, main,
}

memcpy-below : (i o : ℕ) (xs : List ℕ) (b : Blob) → i < o → memcpy o xs b i ≡ b i
unfolding memcpy
memcpy-below i o [] b h = refl
memcpy-below i o (x ∷ rest) b h =
    let other : (i == o) ≡ false = ground arith in
    memcpy-below i (o + 1) rest _ (omega arith) ∙ rw other refl

-- The bytes copied are read back.
bytes-memcpy : (o : ℕ) (xs : List ℕ) (b : Blob) → bytes (memcpy o xs b) o (length xs) ≡ xs
unfolding memcpy bytes
bytes-memcpy o [] b = refl
bytes-memcpy o (x ∷ rest) b =
    let here : (o == o) ≡ true = ground arith in
    let first : memcpy (o + 1) rest (λ i. if i == o then x else b i) o ≡ x =
      memcpy-below o (o + 1) rest _ (omega arith) ∙ rw here refl in
    ap₂ ◌∷◌ first (bytes-memcpy (o + 1) rest _)

-- Two states that agree on a range have the same bytes there.
bytes-same :
    (o n : ℕ) (b c : Blob) → ((i : ℕ) → o ≤ i → i < o + n → b i ≡ c i) → bytes b o n ≡ bytes c o n
unfolding bytes
bytes-same o zero b c h = refl
bytes-same o (suc n) b c h =
    ap₂ ◌∷◌ (h o (omega arith) (omega arith))
      (bytes-same (o + 1) n b c (λ i p q. h i (omega arith) (omega arith)))

length-little_endian : (n v : ℕ) → length (little_endian n v) ≡ n
unfolding little_endian
length-little_endian zero v = refl
length-little_endian (suc n) v = ap suc (length-little_endian n (v / 2 ^ 8))

-- If the file can be opened, it holds the whole structure, in which the magic numbers and the
-- version are the ones that the program sets, the version with its lowest byte first. The version
-- lies behind the first magic number and before the last one, and the generated assignments leave
-- everything up to the version's end alone; what they do behind it does not matter.
pub main-Written :
    (l : Layout) (generated : Blob → Blob)
    → l.magic + 8 ≤ l.version
    → l.version + l.version_width ≤ l.end_magic
    → ((b : Blob) (i : ℕ) → i < l.version + l.version_width → generated b i ≡ b i)
    → let s = filled_state l generated in
      (main l generated true ≡ some (bytes s 0 l.size))
      × (bytes s l.magic 8 ≡ cpu_state)
      × (bytes s l.version l.version_width ≡ little_endian l.version_width 0x0100)
      × (bytes s l.end_magic 8 ≡ end_state)
unfolding main filled_state
main-Written l generated h1 h2 h3 =
    let started : Blob = memcpy l.magic cpu_state (λ i. 0) in
    let version : List ℕ = little_endian l.version_width 0x0100 in
    let width : length version ≡ l.version_width = length-little_endian l.version_width 0x0100 in
    let versioned : Blob = memcpy l.version version started in
    let early : (i : ℕ)
        → i < l.version + l.version_width
        → memcpy l.end_magic end_state (generated versioned) i ≡ versioned i =
      λ i h. memcpy-below i l.end_magic end_state _ (omega arith) ∙ h3 versioned i h in
    let magic : bytes (filled_state l generated) l.magic 8 ≡ bytes started l.magic 8 =
      bytes-same l.magic 8 _ _
        λ i p q. early i (omega arith) ∙ memcpy-below i l.version version started (omega arith) in
    let number : bytes (filled_state l generated) l.version l.version_width
        ≡ bytes versioned l.version l.version_width =
      bytes-same l.version l.version_width _ _ (λ i p q. early i q) in
    (
      refl,
      magic ∙ bytes-memcpy l.magic cpu_state (λ i. 0),
      number ∙ ap (bytes versioned l.version) (sym width) ∙ bytes-memcpy l.version version started,
      bytes-memcpy l.end_magic end_state (generated versioned),
    )
