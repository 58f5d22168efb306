-- ===== src/Api/Worker/Slots.antt =====
-- The number of dispatches in flight, whatever runs beside the worker.
use open_mamba.Base.{
  ◌+◌, ◌-◌, ◌≤◌, ◌≡◌, Option, none, some, List, [], ◌∷◌, ◌++◌, ap, take, length, length-append,
  length-take, leb, Bool-cases, inl, inr, arith, ◌==◌,
}
use open_mamba.Types.{Uuid, TaskEnvelope}
use open_mamba.Platform.{Platform}
use open_mamba.Lake.Tables.{TaskRow}
use open_mamba.Lake.Exec.{World, Outcome, ok, err, panic, deadlock}
use open_mamba.Lake.Store.{list_pending, get_task}
use open_mamba.Api.Worker.{
  Worker, Step, polls, others, ends, panics, Reach, here, next, poll, take_all, take_up, poll_ids,
  worker_concurrency, started, envelope_from_row,
}

-- Each spawned dispatch holds a slot, and there are two.
pub record InBounds (k : Worker) : Type 0 where
  pub held : length k.spawned ≤ k.in_flight
  pub limit : k.in_flight ≤ worker_concurrency

-- Taking up one task uses one slot at most.
take_up_slots :
    (p : Platform) (k : Worker) (o : Outcome (Option TaskRow) × World)
    → length k.spawned ≤ k.in_flight
    → (length (take_up p k o).spawned ≤ (take_up p k o).in_flight)
      × ((take_up p k o).in_flight ≤ k.in_flight + 1)
take_up_slots p k (ok (some row), w) h = elim (Bool-cases (row.status == "pending")) [
  | inl due ↦
      rw due
        (omega (arith, length-append k.spawned (envelope_from_row p w.clock row ∷ [])), omega arith)
  | inr stale ↦ rw stale (h, omega arith)
]
take_up_slots p k (ok none, w) h = (h, omega arith)
take_up_slots p k (err e, w) h = (h, omega arith)
take_up_slots p k (panic, w) h = (h, omega arith)
take_up_slots p k (deadlock, w) h = (h, omega arith)

take_all_slots :
    (p : Platform) (k : Worker) (ids : List Uuid)
    → length k.spawned ≤ k.in_flight
    → (length (take_all p k ids).spawned ≤ (take_all p k ids).in_flight)
      × ((take_all p k ids).in_flight ≤ k.in_flight + length ids)
unfolding take_all
take_all_slots p k [] h = (h, omega arith)
take_all_slots p k (id ∷ ids) h =
    let one = take_up_slots p k (get_task id k.world) h in
    let rest = take_all_slots p (take_up p k (get_task id k.world)) ids one.0 in
    (rest.0, omega arith)

poll_ids-InBounds :
    (p : Platform) (k : Worker) (o : Outcome (List Uuid) × World)
    → InBounds k
    → InBounds (poll_ids p k o)
poll_ids-InBounds p k (ok ids, w) b =
    let all =
      take_all_slots p (record k { world = w }) (take (worker_concurrency - k.in_flight) ids)
        b.held in
    record {
      held = all.0;
      limit = omega (arith, b.limit, all.1, length-take (worker_concurrency - k.in_flight) ids);
    }
poll_ids-InBounds p k (err e, w) b = record { held = b.held; limit = b.limit }
poll_ids-InBounds p k (panic, w) b = record { held = b.held; limit = b.limit }
poll_ids-InBounds p k (deadlock, w) b = record { held = b.held; limit = b.limit }

poll-InBounds : (p : Platform) (k : Worker) → InBounds k → InBounds (poll p k)
unfolding poll
poll-InBounds p k b = elim (Bool-cases (leb worker_concurrency k.in_flight)) [
  | inl full ↦ rw full b
  | inr room ↦ rw room (poll_ids-InBounds p k (list_pending k.world) b)
]

spawned_less :
    (k : Worker) (before after : List TaskEnvelope) (e : TaskEnvelope)
    → k.spawned ≡ before ++ (e ∷ after)
    → length k.spawned ≡ length (before ++ after) + 1
spawned_less k before after e h =
    omega (arith, ap length h, length-append before (e ∷ after), length-append before after)

Step-InBounds : {p : Platform} {k l : Worker} → Step p k l → InBounds k → InBounds l
Step-InBounds {p} (polls k) b = poll-InBounds p k b
Step-InBounds (others k w) b = record { held = b.held; limit = b.limit }
Step-InBounds (ends k before after e h) b = record {
  held = omega (arith, b.held, spawned_less k before after e h);
  limit = omega (arith, b.limit);
}
Step-InBounds (panics k before after e h) b = record {
  held = omega (arith, b.held, spawned_less k before after e h);
  limit = b.limit;
}

-- From the start of the server, under every interleaving of polls, ends of dispatches, panics in
-- dispatches and changes of the world, at most two dispatches are in flight, and the counter is at
-- most two and at least their number.
pub Reach-InBounds : {p : Platform} {w : World} {k : Worker} → Reach p (started w) k → InBounds k
Reach-InBounds here = record { held = omega arith; limit = omega arith }
Reach-InBounds (next r s) = Step-InBounds s (Reach-InBounds r)
