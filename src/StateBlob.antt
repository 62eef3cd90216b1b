-- ===== src/StateBlob.antt =====
-- state-blob/state-blob.c, which writes the CPU state that the firmware takes over. Its structure
-- is declared in State.h of the firmware's tree, and its assignments are generated: the layout and
-- what the assignments do are arguments.
pub mod Written
use resume_from_edk2_tooling.Base.{
  ℕ, zero, suc, ◌+◌, ◌/◌, ◌%◌, ◌^◌, Bool, Option, none, some, List, [], ◌∷◌, ◌==◌, if◌then◌else◌,
}

-- The bytes of `struct cpu_state`, by offset.
abbrev pub Blob : Type 0
Blob = ℕ → ℕ

-- Offsets of the fields that the program sets by itself, the width of the version, and the size.
pub record Layout : Type 0 where
  pub magic : ℕ
  pub version : ℕ
  pub version_width : ℕ
  pub end_magic : ℕ
  pub size : ℕ

-- Bytes copied to an offset, and the bytes read from one.
unfoldable pub memcpy : (offset : ℕ) → List ℕ → Blob → Blob
memcpy offset [] b = b
memcpy offset (x ∷ rest) b = memcpy (offset + 1) rest (λ i. if i == offset then x else b i)

unfoldable pub bytes : Blob → (offset count : ℕ) → List ℕ
bytes b offset zero = []
bytes b offset (suc n) = b offset ∷ bytes b (offset + 1) n

-- A number as the processor stores it, the lowest byte first.
unfoldable pub little_endian : (width value : ℕ) → List ℕ
little_endian zero value = []
little_endian (suc n) value = value % 2 ^ 8 ∷ little_endian n (value / 2 ^ 8)

-- "CPUSTATE" and "ENDSTATE"
abbrev pub cpu_state : List ℕ
cpu_state = 0x43 ∷ 0x50 ∷ 0x55 ∷ 0x53 ∷ 0x54 ∷ 0x41 ∷ 0x54 ∷ 0x45 ∷ []

abbrev pub end_state : List ℕ
end_state = 0x45 ∷ 0x4e ∷ 0x44 ∷ 0x53 ∷ 0x54 ∷ 0x41 ∷ 0x54 ∷ 0x45 ∷ []

-- `s` when it is written.
unfoldable pub filled_state : Layout → (generated : Blob → Blob) → Blob
filled_state l generated =
    let cleared : Blob = λ i. 0 in
    let started = memcpy l.magic cpu_state cleared in
    let versioned = memcpy l.version (little_endian l.version_width 0x0100) started in
    memcpy l.end_magic end_state (generated versioned)

-- What cpu_state.bin holds afterwards; `opened` says that `fopen` gave a file. The result of
-- `fopen` is not checked, and writing to no file is a crash, `none`;
-- `fwrite` writes it all.
unfoldable pub main : Layout → (generated : Blob → Blob) → (opened : Bool) → Option (List ℕ)
main l generated opened = if opened then some (bytes (filled_state l generated) 0 l.size) else none
