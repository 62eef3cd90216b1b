-- ===== src/Apic/Kept.antt =====
-- What every statement of a piece of code keeps, the whole piece keeps: rules for the ways in which
-- the models of linux/arch/x86/kernel/apic/apic.c put statements together.
use resume_from_edk2_tooling.Base.{Bool, true, false, List, [], ◌∷◌, if◌then◌else◌}
use resume_from_edk2_tooling.Apic.Device.{run, only}

module _ {S : Type 0} (P : S → Type 0) where
  abbrev pub Keeps : (S → S) → Type 0
  Keeps f = (s : S) → P s → P (f s)

  -- Statements that all keep it, in their order.
  infixr 5 ◌▸◌
  pub data AllKeep : List (S → S) → Type 0 where
    end : AllKeep []
    ◌▸◌ : {f : S → S} {rest : List (S → S)} → Keeps f → AllKeep rest → AllKeep (f ∷ rest)

  pub run-Keeps : {fs : List (S → S)} → AllKeep fs → Keeps (run fs)
  run-Keeps end s t = t
  run-Keeps (◌▸◌ {f} h rest) s t = run-Keeps rest (f s) (h s t)

  pub only-Keeps : (b : Bool) (f : S → S) → Keeps f → Keeps (only b f)
  unfolding only
  only-Keeps true f h s t = h s t
  only-Keeps false f h s t = t

  pub if_kept : (b : Bool) (x y : S) → P x → P y → P (if b then x else y)
  if_kept true x y hx hy = hx
  if_kept false x y hx hy = hy
