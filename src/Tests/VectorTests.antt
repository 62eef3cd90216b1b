-- ===== src/Tests/VectorTests.antt =====
-- The interrupt command register idle at the fourth read, and the handlers at concrete vectors.
use resume_from_edk2_tooling.Base.{ℕ, ◌+◌, ltb, if◌then◌else◌}
use resume_from_edk2_tooling.Apic.Device.{Reg}

abbrev idle_at_three : ℕ → ℕ
idle_at_three n = if ltb n 3 then 0x1000 else 0

-- Every word of the in-service register holds 5, so vector 0x42 is in service.
abbrev acked : (Reg → ℕ) → Reg → ℕ
acked s r = s r + 1
