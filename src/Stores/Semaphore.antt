-- ===== src/Stores/Semaphore.antt =====
-- `Semaphore` of core/stores.js: the gate around the expensive proof checks. A task is a number, and
-- the promise that it waits on is its place in the queue.
use dash_mno_verify.Prelude.{
  ap, Option-cases, ℕ, zero, suc, ◌+◌, ◌-◌, ◌≤◌, ◌≡◌, ◌⊎◌, inl, inr, refl, List, [], ◌∷◌, ◌++◌, ltb,
  length, length-append, Option, some, none, if◌then◌else◌, arith, Option-cases,
}

pub record Semaphore : Type 0 where
  pub max : ℕ
  pub max_queue : ℕ
  pub active : ℕ
  pub queue : List ℕ

-- `Math.max(1, max)`; `Math.max(0, maxQueue)` of a natural number is the number.
unfoldable pub new : ℕ → ℕ → Semaphore
new max max_queue = record {
  max = if ltb max 1 then 1 else max;
  max_queue = max_queue;
  active = 0;
  queue = [];
}

-- What a call of `run` does first: the task starts, waits in the queue, or is refused as overloaded.
pub data Entry : Type 0 where
  starts waits overloaded : Entry

unfoldable pub enter : ℕ → Semaphore → Entry × Semaphore
enter task s =
    if ltb s.active s.max
    then (starts, record s { active = s.active + 1 })
    else if ltb (length s.queue) s.max_queue
    then (waits, record s { queue = s.queue ++ task ∷ [] })
    else (overloaded, s)

-- The `finally` of a task that ran, whether it returned or threw: the slot goes to the first waiter, if
-- there is one.
unfoldable pub leave : Semaphore → Option ℕ × Semaphore
leave s = elim s.queue [
  | [] ↦ (none, record s { active = s.active - 1 })
  | woken ∷ rest ↦ (some woken, record s { queue = rest })
]

-- The gate and the tasks that run.
pub record World : Type 0 where
  pub gate : Semaphore
  pub running : List ℕ

pub data Event : Type 0 where
  -- a call of `run` for the task
  calls : ℕ → Event
  -- the end of the running task at the place
  ends : ℕ → Event

unfoldable pub take_out : ℕ → List ℕ → Option (List ℕ)
take_out i [] = none
take_out zero (task ∷ tasks) = some tasks
take_out (suc i) (task ∷ tasks) = elim (take_out i tasks) [
  | none ↦ none
  | some rest ↦ some (task ∷ rest)
]

abbrev pub started : ℕ → Entry → List ℕ → List ℕ
started task Entry.starts running = task ∷ running
started task Entry.waits running = running
started task Entry.overloaded running = running

abbrev pub woken_up : Option ℕ → List ℕ → List ℕ
woken_up none running = running
woken_up (some task) running = task ∷ running

-- The other tasks, where the task was running.
abbrev pub ended : Option (List ℕ) → World → World
ended none w = w
ended (some others) w =
    let (woken, gate') = leave w.gate in record { gate = gate'; running = woken_up woken others }

unfoldable pub step : Event → World → World
unfolding take_out
step (calls task) w =
    let (entry, gate') = enter task w.gate in
    record { gate = gate'; running = started task entry w.running }
step (ends i) w = ended (take_out i w.running) w

unfoldable pub run_events : List Event → World → World
run_events [] w = w
run_events (e ∷ es) w = run_events es (step e w)

-- The slots in use are the tasks that run, both bounds hold, and nobody waits while a slot is free.
abbrev pub IsGated : World → Type 0
IsGated w =
    (length w.running ≡ w.gate.active)
    × (w.gate.active ≤ w.gate.max)
    × (length w.gate.queue ≤ w.gate.max_queue)
    × ((length w.gate.queue ≡ 0) ⊎ (w.gate.active ≡ w.gate.max))

length-take_out :
    (i : ℕ) (tasks rest : List ℕ) → take_out i tasks ≡ some rest → length tasks ≡ suc (length rest)
unfolding take_out
length-take_out i [] rest h = cc
length-take_out zero (task ∷ tasks) rest h = let e : tasks ≡ rest = cc in ap (λ x. suc (length x)) e
length-take_out (suc i) (task ∷ tasks) rest h = elim (Option-cases (take_out i tasks)) [
  | inl e ↦ ground arith
  | inr (r, e) ↦
      let l = length-take_out i tasks r e in
      let q : rest ≡ task ∷ r = ground arith in rw q (omega (arith, l))
]

call-IsGated : (task : ℕ) (w : World) → IsGated w → IsGated (step (calls task) w)
unfolding step enter
call-IsGated task w h = ground (arith, length-append w.gate.queue (task ∷ []))

leave-IsGated :
    (max max_queue active : ℕ) (queue others : List ℕ)
    → suc (length others) ≡ active
    → active ≤ max
    → length queue ≤ max_queue
    → (length queue ≡ 0) ⊎ (active ≡ max)
    → IsGated (
        let (woken, gate') =
          leave (record { max = max; max_queue = max_queue; active = active; queue = queue }) in
        record { gate = gate'; running = woken_up woken others })
unfolding leave
leave-IsGated max max_queue active [] others n a q full =
    (omega arith, omega arith, omega arith, inl refl)
leave-IsGated max max_queue active (woken ∷ rest) others n a q full = (
  omega arith,
  a,
  omega arith,
  elim full [ inl none_waits ↦ inl (omega arith) | inr at_max ↦ inr at_max ],
)

end-IsGated : (i : ℕ) (w : World) → IsGated w → IsGated (step (ends i) w)
unfolding step leave
end-IsGated i w h = elim (Option-cases (take_out i w.running)) [
  | inl e ↦ rw e h
  | inr (others, e) ↦ rw e (
      leave-IsGated w.gate.max w.gate.max_queue w.gate.active w.gate.queue others
        (omega (arith, length-take_out i w.running others e)) h.1 h.2 h.3)
]

step-IsGated : (e : Event) (w : World) → IsGated w → IsGated (step e w)
step-IsGated (calls task) w h = call-IsGated task w h
step-IsGated (ends i) w h = end-IsGated i w h

run_events-IsGated : (es : List Event) (w : World) → IsGated w → IsGated (run_events es w)
unfolding run_events
run_events-IsGated [] w h = h
run_events-IsGated (e ∷ es) w h = run_events-IsGated es (step e w) (step-IsGated e w h)

-- However tasks call and end, from an empty gate: as many tasks run as slots are in use, the slots in
-- use and the waiting tasks keep within their bounds, and no task waits while a slot is free.
pub run_events-new :
    (es : List Event) (max max_queue : ℕ)
    → IsGated (run_events es (record { gate = new max max_queue; running = [] }))
unfolding new
run_events-new es max max_queue = run_events-IsGated es _ (ground arith)
