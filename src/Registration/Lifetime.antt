-- ===== src/Registration/Lifetime.antt =====
-- Start and Done of internal/registration/registration.go: the goroutine of a registrar, as a step
-- relation. Start may be called from anywhere and at any time.
use k8s_container_service_pr.Base.{
  ℕ, suc, ◌+◌, Bool, true, false, ◌≡◌, refl, inl, inr, if◌then◌else◌, Bool-cases, eqb, arith, not,
}

-- startOnce, the goroutines that were launched, whether one runs, and how often `done` was closed.
pub record Registrar : Type 0 where
  pub started : Bool
  pub launched : ℕ
  pub is_running : Bool
  pub done_closed : ℕ

-- As NewRegistrar makes it.
abbrev pub fresh : Registrar
fresh = record { started = false; launched = 0; is_running = false; done_closed = 0 }

-- Start
unfoldable pub start : Registrar → Registrar
start r =
    if r.started
    then r
    else record r { started = true; launched = suc r.launched; is_running = true }

-- The end of the goroutine, with its deferred close(r.done).
unfoldable pub finish : Registrar → Registrar
finish r = record r { is_running = false; done_closed = suc r.done_closed }

-- Whether a receive from Done returns.
unfoldable pub done : Registrar → Bool
done r = not (eqb r.done_closed 0)

pub data Step : Registrar → Registrar → Type 0 where
  start_called : {r : Registrar} → Step r (start r)
  run_ended : {r : Registrar} → r.is_running ≡ true → Step r (finish r)

pub data Reaches : Registrar → Registrar → Type 0 where
  here : {r : Registrar} → Reaches r r
  after : {r s t : Registrar} → Reaches r s → Step s t → Reaches r t

abbrev one_if : Bool → ℕ
one_if b = if b then 1 else 0

-- One goroutine once Start was called and none before, and `done` is closed where it has ended.
abbrev pub IsOnce : Registrar → Type 0
IsOnce r =
    (r.launched ≡ one_if r.started)
    × (r.done_closed + one_if r.is_running ≡ r.launched)
    × (done r ≡ (if r.started then not r.is_running else false))

closed_once : (d : ℕ) → not (eqb (suc d) 0) ≡ true
closed_once d = ground arith

step-IsOnce : (r s : Registrar) → Step r s → IsOnce r → IsOnce s
unfolding start finish done
step-IsOnce r s start_called h = elim (Bool-cases r.started) [
  | inl e ↦ rw (start, e) (rw e at h)
  | inr e ↦
      let (none_launched, balance, unread) = rw e at h in
      rw (start, e) (omega (arith, none_launched), omega (arith, none_launched, balance), unread)
]
step-IsOnce r s (run_ended e) h = elim (Bool-cases r.started) [
  | inl f ↦
      let (one, balance, unread) = rw (f, e) at h in
      rw f (one, omega (arith, balance), closed_once r.done_closed)
  | inr f ↦
      let (none_launched, balance, unread) = rw (f, e) at h in
      absurd (omega (arith, none_launched, balance))
]

-- However often and from wherever Start is called, a registrar launches its goroutine once, and not
-- before the first call; `done` is closed at most once, and a receive from it returns exactly where the
-- goroutine was launched and has ended.
pub Reaches-IsOnce : (r : Registrar) → Reaches fresh r → IsOnce r
unfolding done
Reaches-IsOnce r here = (refl, refl, refl)
Reaches-IsOnce r (after {s = s} before step) = step-IsOnce s r step (Reaches-IsOnce s before)
