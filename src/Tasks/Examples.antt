-- ===== src/Tasks/Examples.antt =====
-- Concrete hubs, histories and runs.
use bm.Base.{
  ◌⊎◌, keep, not, ◌+◌, ℕ, zero, suc, ◌-◌, ◌≤◌, ◌≡◌, refl, true, false, not, none, some, List, [],
  ◌∷◌, Str, codes, ◌=s◌, if◌then◌else◌, length, get_elem?, str_iff, arith, keep,
}
use mathlib.Core.List.{reverse}
use bm.Store.{ok, prompt, update, timed_out, commit_fails}
use bm.Store.Bucket.{Bucket}
use bm.Store.Assoc.{assoc, lookup}
use bm.Tasks.Types.{OperationState, OperationProgress, HistoryEntry, DispatchRequest}
use bm.Tasks.Hub.Defs.{
  state_frame, hub_step, receive, publish_state, Hub, HubStep, Subscription, new_hub, subscribes,
  publishes_state, receives, subscribe, snapshot, hub_run, teardown, close_after_terminal,
  mutate_state,
}
use bm.Tasks.Hub.Order.{replay, stream, replay-stream}
use bm.Tasks.Hub.Channels.{IsSound, hub_run-IsSound}
use bm.Tasks.Hub.Terminal.{shut_is_final, terminal_replaced_in_grace}
use bm.Tasks.History.Defs.{
  Json, json, malformed, HistoryFilter, get, insert, list, clear, sweep, wiped, matches,
  history_row_cap,
}
use bm.Tasks.History.Rows.{get-insert}
use bm.Tasks.History.Listing.{list_lem, limited, readable}
use bm.Tasks.History.Pruning.{clear_lem, sweep_lem, take, mem_str}
use bm.Tasks.Recovery.Defs.{recover_in_flight}
use bm.Tasks.Recovery.Marks.{recover_in_flight_lem, listed}
use bm.Tasks.Recovery.Touch.{recovered, WellKeyed}
use bm.Tasks.Orchestrator.Defs.{Manager, checked, try_lock, proceed}
use bm.Tasks.Orchestrator.Steps.{
  State, begins, inserts, lock_for, begin_call, insert_call, act, init, init_state, Reach, start,
  next,
}
use bm.Tasks.Orchestrator.Types.{released, Registry, RunState, Proc, executing, close_row}
use bm.Tasks.Orchestrator.Release.{to_the_end, to_the_end-releases}
use bm.Tasks.Orchestrator.Exclusion.{Reach-Owned}
use bm.Tasks.Orchestrator.Owning.{Owned}
use bm.Tasks.Orchestrator.Ending.{final_of}

abbrev halfway : OperationProgress
halfway = record {
  task_id = codes "t1";
  state = OperationState.running;
  current_step = codes "installing";
  current = some 1;
  total = some 2;
  detail = [];
  failure_note = [];
  host_statuses = [];
  summary = [];
  events = [];
}

abbrev fresh : OperationProgress
fresh = record halfway { current_step = []; current = none; total = none }

abbrev blank : OperationProgress
blank = record halfway { state = OperationState.failed }

abbrev some_steps : List HubStep
some_steps = subscribes ∷ publishes_state halfway ∷ receives 0 ∷ []

abbrev first_sub : Subscription
first_sub = record {
  buffer = state_frame halfway ∷ [];
  received = state_frame fresh ∷ [];
  member = true;
  closes = 0;
}

one_sub : get_elem? (hub_run (new_hub (codes "t1")) some_steps).subs 0 ≡ some first_sub
unfolding hub_run new_hub hub_step subscribe publish_state receive
one_sub = refl

replay-stream_example :
    replay blank (stream first_sub) ≡ snapshot (hub_run (new_hub (codes "t1")) some_steps)
replay-stream_example = replay-stream blank (codes "t1") some_steps 0 first_sub one_sub refl

hub_run-IsSound_example : IsSound (hub_run (new_hub (codes "t1")) some_steps).closed first_sub
hub_run-IsSound_example = hub_run-IsSound (codes "t1") some_steps 0 first_sub one_sub

abbrev busy_hub : Hub
busy_hub = record { state = halfway; subs = first_sub ∷ []; closed = false; signals = 0 }

shut_is_final_example :
    ((hub_run (teardown busy_hub) some_steps).closed ≡ true)
    × (snapshot (hub_run (teardown busy_hub) some_steps) ≡ snapshot busy_hub)
shut_is_final_example = shut_is_final busy_hub some_steps

terminal_replaced_in_grace_example :
    (snapshot (close_after_terminal fresh (close_after_terminal blank busy_hub)) ≡ fresh)
    × (snapshot (mutate_state (λ p. p) (close_after_terminal blank busy_hub)) ≡ blank)
terminal_replaced_in_grace_example = terminal_replaced_in_grace blank fresh (λ p. p) busy_hub refl

-- Two rows of a history, the second one still running, and a text that does not decode.
abbrev done_row : HistoryEntry
done_row = record {
  id = codes "a";
  at = 5;
  op_kind = codes "cluster_restart";
  op_label = codes "Restart";
  cluster_id = codes "c1";
  cluster_name = codes "one";
  host_scope = none;
  status = OperationState.succeeded;
  duration = none;
  failure_note = [];
  result = none;
}

abbrev running_row : HistoryEntry
running_row = record done_row { id = codes "b"; at = 8; status = OperationState.running }

abbrev rows : Bucket (Json HistoryEntry)
rows = assoc (Json HistoryEntry)

abbrev stored : List (Str × Json HistoryEntry)
stored = (codes "b", json running_row) ∷ (codes "x", malformed []) ∷ (codes "a", json done_row) ∷ []

unfoldable table : rows.T
unfolding assoc
table = stored

abbrev all_rows : HistoryFilter
all_rows = record {
  status = OperationState.other [];
  cluster_id = [];
  since = 0;
  until = 0;
  limit = 2;
}

list_lem_example :
    list rows all_rows true (some table)
    ≡ ok (limited 2 (keep (matches all_rows) (readable (reverse (rows.entries table)))))
list_lem_example = list_lem rows all_rows table

clear_lem_example :
    (c : rows.T) × (clear rows 6 prompt (some table)
      ≡ (some c, ok (length (keep (λ e. wiped 6 e.1) (rows.entries table)))))
    × (rows.entries c ≡ keep (λ e. not (wiped 6 e.1)) (rows.entries table))
clear_lem_example = clear_lem rows 6 table

-- One row more than a sweep leaves.
many : ℕ → List (Str × Json HistoryEntry)
many zero = []
many (suc n) = (n ∷ [], json (record done_row { id = n ∷ [] })) ∷ many n

unfoldable full_table : rows.T
unfolding assoc many
full_table = many 1001

-- A cursor that yields the second key after the delete of the first, and then skips one.
abbrev cursor_keys : List Str
cursor_keys = (1000 ∷ []) ∷ (998 ∷ []) ∷ []

sweep_lem_example :
    (c : rows.T) × (d : ℕ) × (sweep rows cursor_keys prompt (some full_table) ≡ (some c, ok d))
    × (d ≤ length (rows.entries full_table) - history_row_cap)
    × ((d ≡ length (rows.entries full_table) - history_row_cap) ⊎ (d ≡ length cursor_keys))
    × (rows.entries c
        ≡ keep (λ e. not (mem_str e.0 (take d cursor_keys))) (rows.entries full_table))
    × (length (rows.entries full_table)
        ≤ length (rows.entries c) + (length (rows.entries full_table) - history_row_cap))
sweep_lem_example = sweep_lem rows cursor_keys full_table

-- Each row of the table stands under its own id.
table-WellKeyed : WellKeyed rows table
unfolding assoc table lookup
table-WellKeyed k e h =
    ground (arith, h, str_iff (codes "b") k, str_iff (codes "x") k, str_iff (codes "a") k)

recover_in_flight_lem_example :
    (c : rows.T) × (recover_in_flight rows 20 true (λ _. prompt) (some table)
      ≡ (some c, ok (length (listed rows table))))
    × ((j : Str) → rows.get j c ≡ recovered 20 (rows.get j table))
recover_in_flight_lem_example = recover_in_flight_lem rows 20 table table-WellKeyed

abbrev request : DispatchRequest
request = record {
  cluster_id = codes "c1";
  kind = codes "cluster_restart";
  params = [];
  target_host_ids = [];
  cluster_name = [];
  op_label = [];
  host_scope = none;
}

abbrev registry : Registry
registry kind = some (record { validate = λ _. none })

abbrev idle : Manager rows
idle = init rows (some table)

-- Two calls for one cluster: the second comes while the first one inserts its row.
abbrev racing : State rows
racing =
    act rows registry
      (act rows registry
        (act rows registry (init_state rows (some table)) (begins (codes "x") request))
        (inserts (codes "x") (some (codes "t1")) 30 prompt))
      (begins (codes "y") request)

race_reached : Reach rows registry (some table) racing
unfolding act checked lock_for try_lock begin_call insert_call ◌=s◌
race_reached =
    next (begins (codes "y") request)
      (next (inserts (codes "x") (some (codes "t1")) 30 prompt)
        (next (begins (codes "x") request) start refl) tt)
      refl

Reach-Owned_example : Owned racing.manager.locks racing.manager.procs racing.calls
Reach-Owned_example = Reach-Owned rows registry (some table) race_reached

abbrev run_b : RunState
run_b = record { hub = busy_hub; canceled = false; cluster_id = codes "c1"; started_at = 8 }

abbrev proc_b : Proc
proc_b = record { cluster_id = codes "c1"; phase = executing }

abbrev working : Manager rows
working = record {
  history = some table;
  locks = λ c. c =s codes "c1";
  runs = λ id. if id =s codes "b" then some run_b else none;
  procs = λ id. if id =s codes "b" then some proc_b else none;
}

-- The row of the running task, as the executor's error leaves it.
abbrev closed_row : HistoryEntry
closed_row =
    record (close_row (final_of rows (codes "b") run_b (some (codes "boom"))) 40 8 running_row) {
      id = codes "b";
    }

abbrev after_failure : Manager rows
after_failure = proceed rows (codes "b") (some (codes "boom")) 40 [] prompt working

abbrev new_row : HistoryEntry
new_row = record done_row { id = codes "c" }

abbrev longer : List (Str × Json HistoryEntry)
longer = (codes "c", json new_row) ∷ stored

unfoldable longer_table : rows.T
unfolding assoc
longer_table = longer

inserted_c : insert rows new_row prompt (some table) ≡ (some longer_table, ok tt)
unfolding insert update assoc table longer_table lookup ◌=s◌
inserted_c = refl

get-insert_example :
    (get rows (codes "c") true (some longer_table) ≡ ok new_row)
    × (rows.get (codes "c") table ≡ none)
    × ((j : Str)
        → get rows j true (some longer_table)
          ≡ (if codes "c" =s j then ok new_row else get rows j true (some table)))
get-insert_example = get-insert rows new_row table (some longer_table) inserted_c

to_the_end-releases_example :
    ((to_the_end rows
          (codes "b")
          (some (codes "boom"))
          40
          (timed_out true)
          []
          commit_fails
          working).procs
        (codes "b")
      ≡ some (record proc_b { phase = released }))
    × ((to_the_end rows
            (codes "b")
            (some (codes "boom"))
            40
            (timed_out true)
            []
            commit_fails
            working).locks
          (codes "c1")
        ≡ false)
unfolding ◌=s◌
to_the_end-releases_example =
    to_the_end-releases rows (codes "b") (some (codes "boom")) 40 (timed_out true) [] commit_fails
      working proc_b run_b refl refl refl
