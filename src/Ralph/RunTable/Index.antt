-- ===== src/Ralph/RunTable/Index.antt =====
-- The index of a run table by runs agrees with its entries.
use mathlib.Core.Option.{some-injective}
use vega_claude.Prelude.{
  ◌≡◌, refl, sym, ap, subst, ◌∙◌, ==_refl, String, Option, none, some, Bool, true, false, ◌&&◌,
  ◌||◌, List, [], ◌∷◌, Dict, get, put, get-put, contains, add, contains-add, string_eq, ◌==◌,
  ==_iff, if◌then◌else◌,
}
use vega_claude.Ralph.RunTable.{
  TaskStatus, RunTableEntry, RunTable, or_nil, add_entry, update_in, update_status, update_score,
  record_task_error, clear, RalphTask, load_task, load_run_tasks,
}

listed-put :
    (k id r r' : String) (d : Dict String (List String))
    → contains k (or_nil (get r' (put r (add id (or_nil (get r d))) d)))
      ≡ ((r == r' && id == k) || contains k (or_nil (get r' d)))
listed-put k id r r' d = rw (get-put r r' (add id (or_nil (get r d))) d) (go (r == r') refl)
  where
    go :
        (b : Bool)
        → (r == r') ≡ b
        → contains k (or_nil (if b then some (add id (or_nil (get r d))) else get r' d))
          ≡ ((b && id == k) || contains k (or_nil (get r' d)))
    go true e =
        rw (contains-add k id (or_nil (get r d)))
          (ap (λ s. id == k || contains k (or_nil (get s d))) ((==_iff r r').0 e))
    go false e = refl

or_true : (b : Bool) → (b || true) ≡ true
or_true true = refl
or_true false = refl

-- A call of one of the table's operations.
pub data Edit (S : Type 0) : Type 0 where
  adds : RunTableEntry S → Edit S
  sets_status : String → TaskStatus → Edit S
  sets_score : String → S → Edit S
  sets_error : String → String → Edit S
  loads : String → List RalphTask → Edit S
  clears : Edit S

module _ {S : Type 0} where
  -- Every entry stands under its own task id, and its run lists it.
  abbrev pub Indexed : RunTable S → Type 0
  Indexed t =
      (k : String) (e : RunTableEntry S)
      → get k t.entries ≡ some e
      → (e.task_id ≡ k) × (contains k (or_nil (get e.run_id t.run_entries)) ≡ true)

  add_entry-Indexed : (e : RunTableEntry S) (t : RunTable S) → Indexed t → Indexed (add_entry e t)
  unfolding add_entry
  add_entry-Indexed e t h k f q =
      go (e.task_id == k) refl (sym (get-put e.task_id k e t.entries) ∙ q)
    where
      go :
          (b : Bool)
          → (e.task_id == k) ≡ b
          → (if b then some e else get k t.entries) ≡ some f
          → (f.task_id ≡ k)
            × (contains k (or_nil (get f.run_id (add_entry e t).run_entries)) ≡ true)
      go true x y =
          subst
            (λ g.
              (g.task_id ≡ k)
              × (contains k (or_nil (get g.run_id (add_entry e t).run_entries)) ≡ true))
            (some-injective e f y)
            (
              (==_iff e.task_id k).0 x,
              rw (listed-put k e.task_id e.run_id e.run_id t.run_entries)
                  (rw (==_refl e.run_id, x) refl),
            )
      go false x y =
          let (a, b) = h k f y in
          (
            a,
            rw (listed-put k e.task_id e.run_id f.run_id t.run_entries)
                (rw b (or_true (e.run_id == f.run_id && e.task_id == k))),
          )

  update_in-Indexed :
      (f : RunTableEntry S → RunTableEntry S) (id : String) (t : RunTable S)
      → ((e : RunTableEntry S) → ((f e).task_id ≡ e.task_id) × ((f e).run_id ≡ e.run_id))
      → (o : Option (RunTableEntry S)) → get id t.entries ≡ o
      → Indexed t
      → Indexed (update_in f id o t).1
  update_in-Indexed f id t keeps none q h k g p = h k g p
  update_in-Indexed f id t keeps (some e) q h k g p =
      go (id == k) refl (sym (get-put id k (f e) t.entries) ∙ p)
    where
      go :
          (b : Bool)
          → (id == k) ≡ b
          → (if b then some (f e) else get k t.entries) ≡ some g
          → (g.task_id ≡ k) × (contains k (or_nil (get g.run_id t.run_entries)) ≡ true)
      go true x y =
          let (a, b) = h id e q in
          let same : id ≡ k = (==_iff id k).0 x in
          subst (λ u. (u.task_id ≡ k) × (contains k (or_nil (get u.run_id t.run_entries)) ≡ true))
            (some-injective (f e) g y) ((keeps e).0 ∙ a ∙ same, rw ((keeps e).1) (rw (sym same) b))
      go false x y = h k g y

  update_status-Indexed :
      (id : String) (status : TaskStatus) (t : RunTable S)
      → Indexed t
      → Indexed (update_status id status t).1
  unfolding update_status
  update_status-Indexed id status t h =
      update_in-Indexed (λ e. record e { status = status }) id t (λ e. (refl, refl))
        (get id t.entries) refl h

  update_score-Indexed :
      (id : String) (card : S) (t : RunTable S) → Indexed t → Indexed (update_score id card t).1
  unfolding update_score
  update_score-Indexed id card t h =
      update_in-Indexed (λ e. record e { score = some card }) id t (λ e. (refl, refl))
        (get id t.entries) refl h

  record_task_error-Indexed :
      (id error : String) (t : RunTable S) → Indexed t → Indexed (record_task_error id error t).1
  unfolding record_task_error
  record_task_error-Indexed id error t h =
      update_in-Indexed (λ e. record e { last_error = error }) id t (λ e. (refl, refl))
        (get id t.entries) refl h

  load_task-Indexed :
      (run_id : String) (task : RalphTask) (o : Option (RunTableEntry S)) (t : RunTable S)
      → Indexed t
      → Indexed (load_task run_id task o t)
  unfolding load_task
  load_task-Indexed run_id task none t h = add_entry-Indexed _ t h
  load_task-Indexed run_id task (some e) t h = update_status-Indexed task.id task.status t h

  load_run_tasks-Indexed :
      (run_id : String) (tasks : List RalphTask) (t : RunTable S)
      → Indexed t
      → Indexed (load_run_tasks run_id tasks t)
  unfolding load_run_tasks
  load_run_tasks-Indexed run_id [] t h = h
  load_run_tasks-Indexed run_id (task ∷ tasks) t h =
      load_run_tasks-Indexed run_id tasks (load_task run_id task (get task.id t.entries) t)
        (load_task-Indexed run_id task (get task.id t.entries) t h)

  unfoldable pub perform : Edit S → RunTable S → RunTable S
  unfolding add_entry
  perform (Edit.adds e) t = add_entry e t
  perform (Edit.sets_status id status) t = (update_status id status t).1
  perform (Edit.sets_score id card) t = (update_score id card t).1
  perform (Edit.sets_error id error) t = (record_task_error id error t).1
  perform (Edit.loads run_id tasks) t = load_run_tasks run_id tasks t
  perform Edit.clears t = clear t

  unfoldable pub perform_all : List (Edit S) → RunTable S → RunTable S
  perform_all [] t = t
  perform_all (c ∷ cs) t = perform_all cs (perform c t)

  perform-Indexed : (c : Edit S) (t : RunTable S) → Indexed t → Indexed (perform c t)
  unfolding perform clear
  perform-Indexed (Edit.adds e) t h = add_entry-Indexed e t h
  perform-Indexed (Edit.sets_status id status) t h = update_status-Indexed id status t h
  perform-Indexed (Edit.sets_score id card) t h = update_score-Indexed id card t h
  perform-Indexed (Edit.sets_error id error) t h = record_task_error-Indexed id error t h
  perform-Indexed (Edit.loads run_id tasks) t h = load_run_tasks-Indexed run_id tasks t h
  perform-Indexed Edit.clears t h = λ k e q. cc

  perform_all-keeps : (cs : List (Edit S)) (t : RunTable S) → Indexed t → Indexed (perform_all cs t)
  unfolding perform_all
  perform_all-keeps [] t h = h
  perform_all-keeps (c ∷ cs) t h = perform_all-keeps cs (perform c t) (perform-Indexed c t h)

  abbrev pub empty_table : RunTable S
  empty_table = record { entries = []; run_entries = [] }

  -- After any calls of the operations on a new table, an entry that is there stands under its own
  -- task id, and the index lists that id under the entry's run.
  pub perform_all-Indexed :
      (cs : List (Edit S)) (k : String) (e : RunTableEntry S)
      → get k (perform_all cs empty_table).entries ≡ some e
      → (e.task_id ≡ k)
        × (contains k (or_nil (get e.run_id (perform_all cs empty_table).run_entries)) ≡ true)
  perform_all-Indexed cs k e q = perform_all-keeps cs empty_table (λ j f p. cc) k e q
