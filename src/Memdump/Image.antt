-- ===== src/Memdump/Image.antt =====
-- The dump as `mmap` shows it: bytes at offsets from `physmem`, and the 8-byte little-endian
-- loads and stores that the program makes through its pointers.
use resume_from_edk2_tooling.Base.{
  ℕ, ◌+◌, ◌-◌, ◌*◌, ◌/◌, ◌%◌, ◌^◌, ◌<◌, Bool, true, false, ◌&&◌, Option, none, some, if◌then◌else◌,
  leb, ltb,
}

-- The mapping holds `mapped` bytes.
pub record Image : Type 0 where
  pub mapped : ℕ
  pub byte : ℕ → ℕ

abbrev pub IsBytes : (ℕ → ℕ) → Type 0
IsBytes f = (a : ℕ) → f a < 256

-- The `unsigned long` at offset `a`.
unfoldable pub word : (ℕ → ℕ) → ℕ → ℕ
word f a =
    f a
    + 2 ^ 8 * f (a + 1)
    + 2 ^ 16 * f (a + 2)
    + 2 ^ 24 * f (a + 3)
    + 2 ^ 32 * f (a + 4)
    + 2 ^ 40 * f (a + 5)
    + 2 ^ 48 * f (a + 6)
    + 2 ^ 56 * f (a + 7)

-- The bytes after an `unsigned long` is written at offset `a`.
unfoldable pub put_word : (ℕ → ℕ) → ℕ → ℕ → ℕ → ℕ
put_word f a v b = if leb a b && ltb b (a + 8) then v / 256 ^ (b - a) % 256 else f b

abbrev pub write : Image → ℕ → ℕ → Image
write m a v = record m { byte = put_word m.byte a v }

-- `none` is an access outside the mapping.
abbrev pub Cmd : Type 0 → Type 0
Cmd A = Image → Option (A × Image)

abbrev pub pure : {A : Type 0} → A → Cmd A
pure a m = some (a, m)

abbrev pub and_then : {A B : Type 0} → Option (A × Image) → (A → Cmd B) → Option (B × Image)
and_then none k = none
and_then (some (a, m)) k = k a m

infixl 5 ◌>>=◌ ◌>>◌
abbrev pub ◌>>=◌ : {A B : Type 0} → Cmd A → (A → Cmd B) → Cmd B
◌>>=◌ c k m = and_then (c m) k

abbrev pub ◌>>◌ : {B : Type 0} → Cmd (Unit {0}) → Cmd B → Cmd B
c >> k = c >>= λ _. k

-- `if (test) return a;` before the rest of the function.
abbrev pub return_if : {A : Type 0} → Bool → A → Cmd A → Cmd A
return_if true a rest m = some (a, m)
return_if false a rest m = rest m

unfoldable pub load : ℕ → Cmd ℕ
load a m = if leb (a + 8) m.mapped then some (word m.byte a, m) else none

unfoldable pub store : ℕ → ℕ → Cmd (Unit {0})
store a v m = if leb (a + 8) m.mapped then some (tt, write m a v) else none
