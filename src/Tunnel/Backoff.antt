-- ===== src/Tunnel/Backoff.antt =====
-- cli/tunnel/tunnel.go: the waits between attempts to connect again.
use Prim.Native.Nat.{min}
use mathlib.Core.Path.{subst}
use roxey.Base.{
  ℕ, zero, suc, ◌*◌, ◌≤◌, ◌≡◌, refl, ap, sym, ◌∙◌, true, false, List, [], ◌∷◌, ◌++◌, arith,
}
use roxey.Tunnel.{
  hold, Hold, connected, waiting, finished, HoldEvent, cancelled, dropped, dialled, second,
  longest_wait, hold_step, hold_run,
}

-- A connection starts with a second again, and every wait is between a second and half a minute.
abbrev pub IsPaced : Hold → Type 0
IsPaced (connected b) = b ≡ second
IsPaced (waiting b) = (second ≤ b) × (b ≤ longest_wait)
IsPaced finished = Unit {0}

hold_step-IsPaced : (h : Hold) (e : HoldEvent) → IsPaced h → IsPaced (hold_step h e)
unfolding hold_step
hold_step-IsPaced finished e p = tt
hold_step-IsPaced (connected b) cancelled p = tt
hold_step-IsPaced (connected b) dropped p = (omega (arith, p), omega (arith, p))
hold_step-IsPaced (connected b) (dialled ok) p = p
hold_step-IsPaced (waiting b) cancelled p = tt
hold_step-IsPaced (waiting b) dropped p = p
hold_step-IsPaced (waiting b) (dialled true) p = refl
hold_step-IsPaced (waiting b) (dialled false) p = (omega (arith, p.0), omega arith)

hold_run-IsPaced : (h : Hold) (es : List HoldEvent) → IsPaced h → IsPaced (hold_run h es)
unfolding hold_run
hold_run-IsPaced h [] p = p
hold_run-IsPaced h (e ∷ es) p = hold_run-IsPaced (hold_step h e) es (hold_step-IsPaced h e p)

abbrev pub doubled : ℕ → ℕ → ℕ
doubled zero b = b
doubled (suc n) b = doubled n (b * 2)

abbrev pub failures : ℕ → List HoldEvent
failures zero = []
failures (suc n) = dialled false ∷ failures n

-- Cutting at the longest wait before the doublings makes no difference.
doubled-min :
    (n b : ℕ) → min (doubled n (min b longest_wait)) longest_wait ≡ min (doubled n b) longest_wait
doubled-min zero b = omega arith
doubled-min (suc n) b =
    let cut : min (min b longest_wait * 2) longest_wait ≡ min (b * 2) longest_wait = omega arith in
    sym (doubled-min n (min b longest_wait * 2))
    ∙ ap (λ c. min (doubled n c) longest_wait) cut
    ∙ doubled-min n (b * 2)

hold_run-failures :
    (n b : ℕ)
    → b ≤ longest_wait
    → hold_run (waiting b) (failures n) ≡ waiting (min (doubled n b) longest_wait)
unfolding hold_run hold_step
hold_run-failures zero b h = ap waiting (omega (arith, h))
hold_run-failures (suc n) b h =
    hold_run-failures n (min (b * 2) longest_wait) (omega arith)
    ∙ ap waiting (doubled-min n (b * 2))

hold_run-append :
    (h : Hold) (es fs : List HoldEvent) → hold_run h (es ++ fs) ≡ hold_run (hold_run h es) fs
unfolding hold_run
hold_run-append h [] fs = refl
hold_run-append h (e ∷ es) fs = hold_run-append (hold_step h e) es fs

outage :
    (b n : ℕ)
    → b ≡ second
    → hold_run (connected b) (dropped ∷ failures n) ≡ waiting (min (doubled n second) longest_wait)
unfolding hold_run hold_step
outage b n e =
    hold_run-failures n b (omega (arith, e)) ∙ ap (λ c. waiting (min (doubled n c) longest_wait)) e

-- Whatever came before: when a tunnel that is up drops and `n` attempts to connect again fail, the
-- next one comes after a second doubled `n` times, and after half a minute at most. When that one
-- succeeds the tunnel is up as it was at first.
pub hold_run-outage :
    (es : List HoldEvent) (b n : ℕ)
    → hold_run hold es ≡ connected b
    → (hold_run hold (es ++ (dropped ∷ failures n)) ≡ waiting (min (doubled n second) longest_wait))
      × (hold_run hold (es ++ (dropped ∷ failures n) ++ (dialled true ∷ [])) ≡ hold)
unfolding hold_run hold_step
hold_run-outage es b n up =
    let paced : IsPaced (hold_run hold es) = hold_run-IsPaced hold es refl in
    let at_second : b ≡ second = subst IsPaced up paced in
    let down : hold_run hold (es ++ (dropped ∷ failures n))
        ≡ waiting (min (doubled n second) longest_wait) =
      hold_run-append hold es (dropped ∷ failures n)
      ∙ ap (λ h. hold_run h (dropped ∷ failures n)) up
      ∙ outage b n at_second in
    (
      down,
      hold_run-append hold (es ++ (dropped ∷ failures n)) (dialled true ∷ [])
          ∙ ap (λ h. hold_run h (dialled true ∷ [])) down,
    )

-- However the relay and the network behave, `Hold` never asks the relay again after less than a
-- second, nor later than half a minute after the last attempt.
pub hold_run-waiting :
    (es : List HoldEvent) (b : ℕ) → hold_run hold es ≡ waiting b → (second ≤ b) × (b ≤ longest_wait)
hold_run-waiting es b w = subst IsPaced w (hold_run-IsPaced hold es refl)
