-- ===== src/Ralph/RunTable.antt =====
-- `RunTable` of free-claude-code/core/ralph/run_table.py and the task marks of `RunLifecycle` in
-- run_lifecycle.py. Of an entry the fields that these operations use are modelled; the card of a
-- score is the parameter `S`.
pub mod Index
use vega_claude.Prelude.{
  ℕ, String, Option, none, some, Bool, true, false, not, ◌&&◌, ◌||◌, List, [], ◌∷◌, ◌++◌, Dict, get,
  has, put, select, contains, add, count_if, length, string_eq, ◌==◌, if◌then◌else◌,
}
use vega_claude.Prelude.Text.{is_null}

pub data TaskStatus : Type 0 where
  pending approved running verifying needs_fix passed failed blocked cancelled : TaskStatus

pub record RunTableEntry (S : Type 0) : Type 0 where
  pub run_id : String
  pub task_id : String
  pub task_title : String
  pub status : TaskStatus
  pub score : Option S
  pub last_error : String

pub record RunTable (S : Type 0) : Type 0 where
  pub entries : Dict String (RunTableEntry S)
  pub run_entries : Dict String (List String)

abbrev pub or_nil : Option (List String) → List String
or_nil none = []
or_nil (some ids) = ids

abbrev pub is_passed : TaskStatus → Bool
is_passed TaskStatus.passed = true
is_passed _ = false

abbrev pub is_active : TaskStatus → Bool
is_active TaskStatus.pending = true
is_active TaskStatus.approved = true
is_active TaskStatus.running = true
is_active TaskStatus.verifying = true
is_active TaskStatus.needs_fix = true
is_active _ = false

abbrev pub is_failed : TaskStatus → Bool
is_failed TaskStatus.failed = true
is_failed TaskStatus.blocked = true
is_failed _ = false

pub record RalphTask : Type 0 where
  pub id : String
  pub title : String
  pub status : TaskStatus

module _ {S : Type 0} where
  unfoldable pub add_entry : RunTableEntry S → RunTable S → RunTable S
  add_entry e t = record {
    entries = put e.task_id e t.entries;
    run_entries = put e.run_id (add e.task_id (or_nil (get e.run_id t.run_entries))) t.run_entries;
  }

  -- The change of an entry that is there, and whether it was.
  abbrev update_in :
      (RunTableEntry S → RunTableEntry S)
      → String
      → Option (RunTableEntry S)
      → RunTable S
      → Bool × RunTable S
  update_in f task_id none t = (false, t)
  update_in f task_id (some e) t = (true, record t { entries = put task_id (f e) t.entries })

  unfoldable pub update_status : String → TaskStatus → RunTable S → Bool × RunTable S
  update_status task_id new_status t =
      update_in (λ e. record e { status = new_status }) task_id (get task_id t.entries) t

  unfoldable pub update_score : String → S → RunTable S → Bool × RunTable S
  update_score task_id card t =
      update_in (λ e. record e { score = some card }) task_id (get task_id t.entries) t

  unfoldable pub record_task_error : String → String → RunTable S → Bool × RunTable S
  record_task_error task_id error t =
      update_in (λ e. record e { last_error = error }) task_id (get task_id t.entries) t

  -- [self._entries[tid] for tid in task_ids if tid in self._entries]
  abbrev pub found : List String → Dict String (RunTableEntry S) → List (RunTableEntry S)
  found [] d = []
  found (id ∷ ids) d = elim (get id d) [ none ↦ found ids d | some e ↦ e ∷ found ids d ]

  unfoldable pub get_entries_for_run : String → RunTable S → List (RunTableEntry S)
  get_entries_for_run run_id t = found (or_nil (get run_id t.run_entries)) t.entries

  unfoldable pub clear : RunTable S → RunTable S
  clear t = record { entries = []; run_entries = [] }

  stub_of : String → TaskStatus → Option (RunTableEntry S) → RalphTask
  stub_of task_id status none = record { id = task_id; title = ""; status = status }
  stub_of task_id status (some e) = record { id = e.task_id; title = e.task_title; status = status }

  unfoldable pub make_task_stub : String → TaskStatus → RunTable S → RalphTask
  unfolding stub_of
  make_task_stub task_id status t = stub_of task_id status (get task_id t.entries)

  -- The stub is returned; `none` is the RunLifecycleError.
  unfoldable pub mark_status : String → TaskStatus → RunTable S → Option (RalphTask × RunTable S)
  unfolding update_status make_task_stub
  mark_status task_id status t =
      let t' = (update_status task_id status t).1 in
      if has task_id t.entries then some (make_task_stub task_id status t', t') else none

  unfoldable pub mark_task_result :
      String → Bool → String → RunTable S → Option (RalphTask × RunTable S)
  unfolding update_status record_task_error make_task_stub
  mark_task_result task_id is_pass reason t =
      let status = if is_pass then TaskStatus.passed else TaskStatus.failed in
      let t' = (update_status task_id status t).1 in
      let t'' =
        if not is_pass && not (is_null reason)
        then (record_task_error task_id reason t').1
        else t' in
      if has task_id t.entries then some (make_task_stub task_id status t'', t'') else none

  unfoldable pub entry_count : RunTable S → ℕ
  entry_count t = length t.entries

  -- The entries of the dict, in order, whose status passes a test.
  abbrev entries_with : (TaskStatus → Bool) → Dict String (RunTableEntry S) → List (RunTableEntry S)
  entries_with p [] = []
  entries_with p ((id, e) ∷ d) =
      let rest = entries_with p d in if p e.status then e ∷ rest else rest

  unfoldable pub list_active_entries : RunTable S → List (RunTableEntry S)
  list_active_entries t = entries_with is_active t.entries

  unfoldable pub list_failed_entries : RunTable S → List (RunTableEntry S)
  list_failed_entries t = entries_with is_failed t.entries

  -- The two numbers whose quotient is the percentage: the entries that passed, and all.
  unfoldable pub completion : String → RunTable S → ℕ × ℕ
  unfolding get_entries_for_run
  completion run_id t =
      let es = get_entries_for_run run_id t in (count_if (λ e. is_passed e.status) es, length es)

  load_task : String → RalphTask → Option (RunTableEntry S) → RunTable S → RunTable S
  unfolding add_entry update_status
  load_task run_id task none t =
      add_entry
        (record {
          run_id = run_id;
          task_id = task.id;
          task_title = task.title;
          status = task.status;
          score = none;
          last_error = "";
        })
        t
  load_task run_id task (some e) t = (update_status task.id task.status t).1

  unfoldable pub load_run_tasks : String → List RalphTask → RunTable S → RunTable S
  unfolding load_task
  load_run_tasks run_id [] t = t
  load_run_tasks run_id (task ∷ tasks) t =
      load_run_tasks run_id tasks (load_task run_id task (get task.id t.entries) t)
