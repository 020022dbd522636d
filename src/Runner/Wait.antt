-- ===== src/Runner/Wait.antt =====
-- cli/runner/runner.go and cli/main.go: the loops that wait come to an end.
use native.Mathlib.Nat.{lt-div-mul-add}
use mathlib.Core.Path.{subst}
use roxey.Base.{
  sym, ℕ, zero, suc, ◌+◌, ◌*◌, ◌/◌, ◌≤◌, ◌<◌, ◌≡◌, refl, ltb, not, Bool, true, false, List, [], ◌∷◌,
  arith, inl, inr, ◌⊎◌, Bool-cases, ltb→lt,
}
use roxey.Runner.{
  Asked, succeeded, gave_up, not_yet, Waited, ready, ended, timed_out, out_of_fuel, wait_from, wait,
  wait_port_or_exit, kill_group, port_answer, sooner, send_kill, Sent, term, kill,
}

Asked-cases : (a : Asked) → (a ≡ succeeded) ⊎ ((a ≡ gave_up) ⊎ (a ≡ not_yet))
Asked-cases succeeded = inl refl
Asked-cases gave_up = inr (inl refl)
Asked-cases not_yet = inr (inr refl)

-- The time of question number `n`, where the questions before it were all put off.
pub clock : (ℕ → ℕ) → ℕ → ℕ → ℕ
clock took period zero = 0
clock took period (suc n) = clock took period n + took n + period

-- No question before number `n` had an answer that ends the wait.
abbrev pub PutOff : (ℕ → Asked) → ℕ → Type 0
PutOff asks n = (j : ℕ) → j < n → asks j ≡ not_yet

-- How the loop ends: on the first answer, to a question before the deadline, or behind the deadline.
abbrev pub IsEnd : (ℕ → Asked) → (ℕ → ℕ) → ℕ → ℕ → Waited → Type 0
IsEnd asks took period deadline (ready k) =
    (asks k ≡ succeeded) × (clock took period k < deadline) × PutOff asks k
IsEnd asks took period deadline (ended k) =
    (asks k ≡ gave_up) × (clock took period k < deadline) × PutOff asks k
IsEnd asks took period deadline (timed_out k) = (deadline ≤ clock took period k) × PutOff asks k
IsEnd asks took period deadline out_of_fuel = ⊥

PutOff-suc : (asks : ℕ → Asked) (n : ℕ) → PutOff asks n → asks n ≡ not_yet → PutOff asks (suc n)
PutOff-suc asks n before here j l = elim (Bool-cases (ltb j n)) [
  | inl earlier ↦ before j (ltb→lt j n earlier)
  | inr late ↦ let same : j ≡ n = ground arith in subst (λ k. asks k ≡ not_yet) (sym same) here
]

-- Fuel for one question in each period that is left, and one more, is enough.
wait_from-IsEnd :
    (asks : ℕ → Asked) (took : ℕ → ℕ) (period deadline left n : ℕ)
    → deadline ≤ clock took period n + left * period
    → PutOff asks n
    → IsEnd asks took period deadline
        (wait_from asks took period deadline (suc left) n (clock took period n))
unfolding wait_from clock
wait_from-IsEnd asks took period deadline zero n h before =
    elim (Bool-cases (ltb (clock took period n) deadline)) [
      | inr late ↦ rw late (omega arith, before)
      | inl early ↦ absurd (omega (arith, ltb→lt (clock took period n) deadline early))
    ]
wait_from-IsEnd asks took period deadline (suc left) n h before =
    elim (Bool-cases (ltb (clock took period n) deadline)) [
      | inr late ↦ rw late (ground (arith, late), before)
      | inl early ↦ elim (Asked-cases (asks n)) [
        | inl s ↦ rw (early, s) (s, ltb→lt _ _ early, before)
        | inr (inl s) ↦ rw (early, s) (s, ltb→lt _ _ early, before)
        | inr (inr s) ↦
            rw (early, s)
              (wait_from-IsEnd asks took period deadline left (suc n) (omega (arith, h))
                (PutOff-suc asks n before s))
      ]
    ]

wait-IsEnd :
    (asks : ℕ → Asked) (took : ℕ → ℕ) (period timeout : ℕ)
    → 0 < period
    → IsEnd asks took period timeout (wait asks took period timeout)
unfolding wait clock
wait-IsEnd asks took period timeout p =
    wait_from-IsEnd asks took period timeout (suc (timeout / period)) 0
      (let room = lt-div-mul-add {a = timeout} {b = period} p in omega (arith, room))
      (λ j l. absurd (omega (arith, l)))

-- At question number `n` the port took no connection, and the child had not ended.
abbrev pub IsQuietAt : (ℕ → Bool) → (ℕ → Bool) → ℕ → Type 0
IsQuietAt connects exited n = (connects n ≡ false) × (exited n ≡ false)

-- what the end of the wait for a port tells: the first question that brought something, at a time
-- before the deadline, or a time behind the deadline with nothing before
abbrev pub IsPortEnd : (ℕ → Bool) → (ℕ → Bool) → (ℕ → ℕ) → ℕ → Waited → Type 0
IsPortEnd connects exited took timeout (ready k) =
    (connects k ≡ true)
    × (clock took 250 k < timeout)
    × ((j : ℕ) → j < k → IsQuietAt connects exited j)
IsPortEnd connects exited took timeout (ended k) =
    (connects k ≡ false)
    × (exited k ≡ true)
    × (clock took 250 k < timeout)
    × ((j : ℕ) → j < k → IsQuietAt connects exited j)
IsPortEnd connects exited took timeout (timed_out k) =
    (timeout ≤ clock took 250 k) × ((j : ℕ) → j < k → IsQuietAt connects exited j)
IsPortEnd connects exited took timeout out_of_fuel = ⊥

port_answer-succeeded : (c e : Bool) → port_answer c e ≡ succeeded → c ≡ true
port_answer-succeeded true e h = refl
port_answer-succeeded false true h = cc
port_answer-succeeded false false h = cc

port_answer-gave_up : (c e : Bool) → port_answer c e ≡ gave_up → (c ≡ false) × (e ≡ true)
port_answer-gave_up true e h = cc
port_answer-gave_up false true h = (refl, refl)
port_answer-gave_up false false h = cc

port_answer-not_yet : (c e : Bool) → port_answer c e ≡ not_yet → (c ≡ false) × (e ≡ false)
port_answer-not_yet true e h = cc
port_answer-not_yet false true h = cc
port_answer-not_yet false false h = (refl, refl)

module _ (connects exited : ℕ → Bool) (took : ℕ → ℕ) (timeout : ℕ) where
  quiet_before :
      (k : ℕ)
      → PutOff (λ n. port_answer (connects n) (exited n)) k
      → (j : ℕ) → j < k
      → IsQuietAt connects exited j
  quiet_before k before j l = port_answer-not_yet (connects j) (exited j) (before j l)

  to_port_end :
      (w : Waited)
      → IsEnd (λ n. port_answer (connects n) (exited n)) took 250 timeout w
      → IsPortEnd connects exited took timeout w
  to_port_end (ready k) (a, t, before) =
      (port_answer-succeeded (connects k) (exited k) a, t, quiet_before k before)
  to_port_end (ended k) (a, t, before) =
      let (c, e) = port_answer-gave_up (connects k) (exited k) a in (c, e, t, quiet_before k before)
  to_port_end (timed_out k) (t, before) = (t, quiet_before k before)
  to_port_end out_of_fuel h = h

  -- The wait for a port ends, whatever the port and the child do and however long a question takes.
  -- Either it ends with the first question, put before the deadline, that the port answers with a
  -- connection or else finds the child exited; or the deadline has passed, and no question before
  -- it found one or the other.
  pub wait_port_or_exit-IsPortEnd :
      IsPortEnd connects exited took timeout (wait_port_or_exit connects exited took timeout)
  unfolding wait_port_or_exit
  wait_port_or_exit-IsPortEnd =
      to_port_end (wait_port_or_exit connects exited took timeout)
        (wait-IsEnd (λ n. port_answer (connects n) (exited n)) took 250 timeout (omega arith))

sooner-succeeded : (b : Bool) → sooner b ≡ succeeded → b ≡ true
sooner-succeeded true h = refl
sooner-succeeded false h = cc

sooner-gave_up : (b : Bool) → sooner b ≡ gave_up → ⊥
sooner-gave_up true h = let bad : false ≡ true = cc in absurd (ground arith)
sooner-gave_up false h = let bad : false ≡ true = cc in absurd (ground arith)

sooner-not_yet : (b : Bool) → sooner b ≡ not_yet → b ≡ false
sooner-not_yet true h = cc
sooner-not_yet false h = refl

not_dead : (b : Bool) → not b ≡ false → b ≡ true
not_dead true h = refl
not_dead false h = cc

-- The process was seen dead before five seconds were over, and only SIGTERM was sent; or they were
-- over with the process alive at each look, and SIGKILL was sent too.
abbrev pub IsEnded : ℕ → (ℕ → Bool) → (ℕ → ℕ) → List Sent → Type 0
IsEnded p alive took sent =
    ((n : ℕ) × (alive n ≡ false)
      × (clock took 100 n < 5000)
      × ((j : ℕ) → j < n → alive j ≡ true)
      × (sent ≡ term p ∷ []))
    ⊎ ((n : ℕ) × (5000 ≤ clock took 100 n)
        × ((j : ℕ) → j < n → alive j ≡ true)
        × (sent ≡ term p ∷ kill p ∷ []))

module _ (p : ℕ) (alive : ℕ → Bool) (took : ℕ → ℕ) where
  alive_before : (k : ℕ) → PutOff (λ n. sooner (not (alive n))) k → (j : ℕ) → j < k → alive j ≡ true
  alive_before k before j l = not_dead (alive j) (sooner-not_yet (not (alive j)) (before j l))

  to_ended :
      (w : Waited)
      → IsEnd (λ n. sooner (not (alive n))) took 100 5000 w
      → IsEnded p alive took (term p ∷ send_kill (kill p ∷ []) w)
  to_ended (ready k) (a, t, before) =
      let dead = sooner-succeeded (not (alive k)) a in
      inl (k, ground arith, t, alive_before k before, refl)
  to_ended (ended k) (a, t, before) = absurd (sooner-gave_up (not (alive k)) a)
  to_ended (timed_out k) (t, before) = inr (k, t, alive_before k before, refl)
  to_ended out_of_fuel h = absurd h

-- `KillGroup` of a process ends. Its group gets SIGTERM. If the process is then seen dead at a look
-- before five seconds are over, at the first such look it ends and sends no more; else the process
-- was alive at each look of the five seconds, and the group gets SIGKILL.
pub kill_group-IsEnded :
    (p : ℕ) (alive : ℕ → Bool) (took : ℕ → ℕ)
    → IsEnded (suc p) alive took (kill_group (suc p) alive took)
unfolding kill_group
kill_group-IsEnded p alive took =
    to_ended (suc p) alive took _
      (wait-IsEnd (λ n. sooner (not (alive n))) took 100 5000 (omega arith))
