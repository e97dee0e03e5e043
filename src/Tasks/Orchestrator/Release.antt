-- ===== src/Tasks/Orchestrator/Release.antt =====
-- The way of a goroutine of `executeRun` to its end, in internal/tasks/orchestrator.go.
use bm.Base.{◌≡◌, refl, false, Option, none, some, List, [], Str, str_refl, arith}
use bm.Store.{Outcome, prompt}
use bm.Store.Bucket.{Bucket}
use bm.Store.Json.{Json}
use bm.Tasks.Types.{Time, HistoryEntry, OperationProgress}
use bm.Tasks.Orchestrator.Types.{
  RunState, executing, recorded, closed, swept, released, Proc, final_state,
}
use bm.Tasks.Hub.Defs.{snapshot}
use bm.Tasks.Orchestrator.Defs.{Manager, proceed}

module _ (b : Bucket (Json HistoryEntry)) (id : Str) (exec_err : Option Str) (now : Time)
    (walk : List Str) (o : Outcome) (m : Manager b) (p : Proc) where
  recorded_next :
      (rs : RunState)
      → m.procs id ≡ some p
      → p.phase ≡ executing
      → m.runs id ≡ some rs
      → (final : OperationProgress) × ((proceed b id exec_err now walk o m).procs id
          ≡ some (record p { phase = recorded final }))
  unfolding proceed
  recorded_next rs hp ph hr = (
    final_state id rs.canceled exec_err (snapshot rs.hub),
    ground (arith, hp, ph, hr, str_refl id),
  )

  closed_next :
      (final : OperationProgress)
      → m.procs id ≡ some p
      → p.phase ≡ recorded final
      → (proceed b id exec_err now walk o m).procs id ≡ some (record p { phase = closed })
  unfolding proceed
  closed_next final hp ph = ground (arith, hp, ph, str_refl id)

  swept_next :
      m.procs id ≡ some p
      → p.phase ≡ closed
      → (proceed b id exec_err now walk o m).procs id ≡ some (record p { phase = swept })
  unfolding proceed
  swept_next hp ph = ground (arith, hp, ph, str_refl id)

  released_next :
      m.procs id ≡ some p
      → p.phase ≡ swept
      → ((proceed b id exec_err now walk o m).procs id ≡ some (record p { phase = released }))
        × ((proceed b id exec_err now walk o m).locks p.cluster_id ≡ false)
  unfolding proceed
  released_next hp ph =
      (ground (arith, hp, ph, str_refl id), ground (arith, hp, ph, str_refl p.cluster_id))

-- All of `executeRun`: the executor's end with its history write, the close of the hub, the sweep, and
-- the deferred calls.
abbrev pub to_the_end :
    (b : Bucket (Json HistoryEntry))
    → Str
    → Option Str
    → Time
    → Outcome
    → List Str
    → Outcome
    → Manager b
    → Manager b
to_the_end b id exec_err ended written walk swept_as m = proceed b id none ended [] prompt (
    proceed b id none ended walk swept_as
      (proceed b id none ended [] prompt (proceed b id exec_err ended [] written m)))

-- Once the executor of a run returns, with an error or without, its goroutine comes to its end and
-- releases the lock of its cluster, also where the history write or the sweep fails or times out.
pub to_the_end-releases :
    (b : Bucket (Json HistoryEntry)) (id : Str) (exec_err : Option Str) (ended : Time)
    (written : Outcome) (walk : List Str) (swept_as : Outcome) (m : Manager b) (p : Proc)
    (rs : RunState)
    → m.procs id ≡ some p
    → p.phase ≡ executing
    → m.runs id ≡ some rs
    → ((to_the_end b id exec_err ended written walk swept_as m).procs id
        ≡ some (record p { phase = released }))
      × ((to_the_end b id exec_err ended written walk swept_as m).locks p.cluster_id ≡ false)
to_the_end-releases b id exec_err ended written walk swept_as m p rs hp ph hr =
    let (final, first) = recorded_next b id exec_err ended [] written m p rs hp ph hr in
    let second =
      closed_next b id none ended [] prompt _ (record p { phase = recorded final }) final first
        refl in
    let third =
      swept_next b id none ended walk swept_as _ (record p { phase = closed }) second refl in
    released_next b id none ended [] prompt _ (record p { phase = swept }) third refl
