-- ===== src/Base/Exec.antt =====
-- Calls that change a state and may return an error. What was written before an error stays
-- written, so the state comes back beside the error too.
use k8s_container_service_pr.Base.Tests.{Result, ok, err}

abbrev pub Exec : Type 0 → Type 0 → Type 0 → Type 0
Exec W E A = W → Result E A × W

module _ {W E : Type 0} where
  abbrev pub pure : {A : Type 0} → A → Exec W E A
  pure a w = (ok a, w)

  abbrev pub raise : {A : Type 0} → E → Exec W E A
  raise e w = (err e, w)

  abbrev pub continue : {A B : Type 0} → Result E A → (A → Exec W E B) → Exec W E B
  continue (ok a) f w = f a w
  continue (err e) f w = (err e, w)

  infixl 5 ◌>>=◌ ◌>>◌
  abbrev pub ◌>>=◌ : {A B : Type 0} → Exec W E A → (A → Exec W E B) → Exec W E B
  ◌>>=◌ m f w = continue (m w).0 f (m w).1

  abbrev pub ◌>>◌ : {A B : Type 0} → Exec W E A → Exec W E B → Exec W E B
  m >> n = m >>= λ _. n

module _ {W E F : Type 0} where
  abbrev pub handle : {A : Type 0} → Result E A → (E → Exec W F A) → Exec W F A
  handle (ok a) f w = (ok a, w)
  handle (err e) f w = f e w

  -- `if err != nil { … }` after a call: the value, or what the handler makes of the error.
  abbrev pub catch : {A : Type 0} → Exec W E A → (E → Exec W F A) → Exec W F A
  catch m f w = handle (m w).0 f (m w).1

  -- A call whose error is only logged.
  abbrev pub ignore_error : {A : Type 0} → Exec W E A → Exec W F (Unit {0})
  ignore_error m w = (ok tt, (m w).1)
