-- ===== src/Apic/Width/Timer.antt =====
-- What is written to the timer's entry is a `u32`.
use resume_from_edk2_tooling.Base.{Bool, not}
use resume_from_edk2_tooling.Apic.Device.{Device, ApicDef}
use resume_from_edk2_tooling.Apic.Timer.{lvtt_value}
use resume_from_edk2_tooling.Apic.Width.{IsU32, DefFits, bit_or-IsU32, if-IsU32}

module _ (d : Device) (def : ApicDef) (fits : DefFits def) where
  pub lvtt_value-IsU32 :
      (deadline integrated oneshot irqen : Bool)
      → IsU32 (lvtt_value d def deadline integrated oneshot irqen)
  lvtt_value-IsU32 deadline integrated oneshot irqen =
      let v = fits.local_timer_vector in
      let kind =
        if-IsU32 (not oneshot) _ _ (bit_or-IsU32 _ _ v fits.lvt_timer_periodic)
          (if-IsU32 deadline _ _ (bit_or-IsU32 _ _ v fits.lvt_timer_tscdeadline) v) in
      let based = if-IsU32 (not integrated) _ _ (bit_or-IsU32 _ _ kind fits.timer_base_div) kind in
      if-IsU32 (not irqen) _ _ (bit_or-IsU32 _ _ based fits.lvt_masked) based
