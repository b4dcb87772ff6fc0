-- ===== src/Limits/Queue/Futures.antt =====
-- What is enqueued is given to the worker once.
use mathlib.Core.List.{append_assoc, append-nil}
use vega_claude.Prelude.{
  ℕ, zero, suc, ◌+◌, ◌≡◌, refl, sym, ap, ◌∙◌, subst, String, Option, none, some, Bool, false, List,
  [], ◌∷◌, ◌++◌, Dict, get, has, contains, string_eq, ==_refl, length, arith,
}
use vega_claude.Limits.Queue.{TaskQueue, get_task, get_from, pop_entry}
use vega_claude.Limits.Queue.Runs.{
  occurrences, occurrences-append, Step, enqueue, work, Course, new_course, after_get, perform,
  perform_all, enqueued, occurrences_in, waiting, waiting-remove, waiting-enqueue,
}
use vega_claude.Limits.Queue.Kept.{Coherent, enqueue-Coherent, Fine, get_task-Fine}

module _ {F : Type 0} where
  -- A run in order: the queue is coherent, and the futures of `es` are given or wait.
  record Kept (es : List ℕ) (c : Course F) : Type 0 where
    fine : c.failed ≡ false
    coherent : Coherent c.queue
    all : (x : ℕ) → occurrences x c.given + waiting x c.queue.queue_map ≡ occurrences x es

  work-Kept : (es : List ℕ) (c : Course F) → Kept es c → Kept es (perform work c)
  unfolding get_task get_from
  work-Kept es c h = go c.queue.queue_list refl (get_task-Fine c.queue h.coherent)
    where
      popped :
          (key : String) (ks : List String) (o : Option (F × List ℕ))
          → get key c.queue.queue_map ≡ o
          → Fine (pop_entry key ks o c.queue)
          → Kept es (after_get (pop_entry key ks o c.queue) c)
      popped key ks none e f = absurd f
      popped key ks (some (func, futures)) e f = record {
        fine = h.fine;
        coherent = f;
        all = λ x.
            let r = waiting-remove x key c.queue.queue_map h.coherent.distinct in
            let s = ap (occurrences_in x) e in
            let t = occurrences-append x c.given futures in let u = h.all x in omega arith;
      }

      go :
          (ks : List String)
          → c.queue.queue_list ≡ ks
          → Fine (get_from c.queue.queue_list c.queue)
          → Kept es (after_get (get_from c.queue.queue_list c.queue) c)
      go [] e f = subst (λ z. Kept es (after_get (get_from z c.queue) c)) (sym e) h
      go (key ∷ ks) e f =
          subst (λ z. Kept es (after_get (get_from z c.queue) c)) (sym e)
            (popped key ks (get key c.queue.queue_map) refl
              (subst (λ z. Fine (get_from z c.queue)) e f))

  enqueue-Kept :
      (es : List ℕ) (c : Course F) (func : F) (futures : List ℕ) (key : String) (front : Bool)
      → Kept es c
      → Kept (es ++ futures) (perform (enqueue func futures key front) c)
  enqueue-Kept es c func futures key front h = record {
    fine = h.fine;
    coherent = enqueue-Coherent func futures key front c.queue h.coherent;
    all = λ x.
        let r = waiting-enqueue x func futures key front c.queue in
        let s = occurrences-append x es futures in let t = h.all x in omega arith;
  }

  perform_all-Kept :
      (ss : List (Step F)) (es : List ℕ) (c : Course F)
      → Kept es c
      → Kept (es ++ enqueued ss) (perform_all ss c)
  perform_all-Kept [] es c h = subst (λ l. Kept l c) (sym (append-nil es)) h
  perform_all-Kept (enqueue func futures key front ∷ ss) es c h =
      subst (λ l. Kept l (perform_all ss (perform (enqueue func futures key front) c)))
        (append_assoc es futures (enqueued ss))
        (perform_all-Kept ss (es ++ futures) _ (enqueue-Kept es c func futures key front h))
  perform_all-Kept (work ∷ ss) es c h = perform_all-Kept ss es (perform work c) (work-Kept es c h)

  new-Kept : Kept [] new_course
  new-Kept = record {
    fine = refl;
    coherent = record { same_keys = λ k. refl; once = tt; distinct = tt };
    all = λ x. refl;
  }

  -- Whatever is enqueued and however often the worker takes a task, it meets no KeyError, and every
  -- future was given to it or waits, as often as it was enqueued.
  pub perform_all-kept :
      (ss : List (Step F))
      → ((perform_all ss new_course).failed ≡ false)
        × ((x : ℕ)
            → occurrences x (perform_all ss new_course).given
                + waiting x (perform_all ss new_course).queue.queue_map
              ≡ occurrences x (enqueued ss))
  perform_all-kept ss = let h = perform_all-Kept ss [] new_course new-Kept in (h.fine, h.all)

  -- The worker alone, as often as `n`.
  abbrev pub work_times : ℕ → List (Step F)
  work_times zero = []
  work_times (suc n) = work ∷ work_times n

  shorter :
      (es : List ℕ) (c : Course F) (n : ℕ)
      → Kept es c
      → length c.queue.queue_list ≡ suc n
      → length (perform work c).queue.queue_list ≡ n
  unfolding get_task get_from
  shorter es c n h e = go c.queue.queue_list refl e (get_task-Fine c.queue h.coherent)
    where
      popped :
          (key : String) (ks : List String) (o : Option (F × List ℕ))
          → length ks ≡ n
          → Fine (pop_entry key ks o c.queue)
          → length (after_get (pop_entry key ks o c.queue) c).queue.queue_list ≡ n
      popped key ks none q f = absurd f
      popped key ks (some (func, futures)) q f = q

      go :
          (ks : List String)
          → c.queue.queue_list ≡ ks
          → length c.queue.queue_list ≡ suc n
          → Fine (get_from c.queue.queue_list c.queue)
          → length (after_get (get_from c.queue.queue_list c.queue) c).queue.queue_list ≡ n
      go [] e q f = absurd (let r = sym (ap length e) ∙ q in omega arith)
      go (key ∷ ks) e q f =
          subst (λ z. length (after_get (get_from z c.queue) c).queue.queue_list ≡ n) (sym e)
            (popped key ks (get key c.queue.queue_map)
              (let r = sym (ap length e) ∙ q in omega arith)
              (subst (λ z. Fine (get_from z c.queue)) e f))

  drain-Kept :
      (n : ℕ) (es : List ℕ) (c : Course F)
      → Kept es c
      → length c.queue.queue_list ≡ n
      → Kept es (perform_all (work_times n) c)
        × (length (perform_all (work_times n) c).queue.queue_list ≡ 0)
  drain-Kept zero es c h e = (h, e)
  drain-Kept (suc n) es c h e =
      drain-Kept n es (perform work c) (work-Kept es c h) (shorter es c n h e)

  nothing_waits :
      (x : ℕ) (q : TaskQueue F) → Coherent q → length q.queue_list ≡ 0 → waiting x q.queue_map ≡ 0
  nothing_waits x q h e = go q.queue_list refl e q.queue_map refl
    where
      go :
          (ks : List String)
          → q.queue_list ≡ ks
          → length ks ≡ 0
          → (d : Dict String (F × List ℕ)) → q.queue_map ≡ d
          → waiting x d ≡ 0
      go ks e n [] f = refl
      go [] e n ((key, entry) ∷ d) f =
          let r = sym (ap (contains key) e) ∙ h.same_keys key ∙ ap (has key) f in
          ground (arith, ==_refl key)
      go (k ∷ ks) e n ((key, entry) ∷ d) f = absurd (omega arith)

  nothing_stays :
      (q : TaskQueue F)
      → Coherent q
      → length q.queue_list ≡ 0
      → (q.queue_list ≡ []) × (q.queue_map ≡ [])
  nothing_stays q h e = go q.queue_list refl e q.queue_map refl
    where
      go :
          (ks : List String)
          → q.queue_list ≡ ks
          → length ks ≡ 0
          → (d : Dict String (F × List ℕ)) → q.queue_map ≡ d
          → (ks ≡ []) × (d ≡ [])
      go [] e n [] f = (refl, refl)
      go [] e n ((key, entry) ∷ d) f =
          let r = sym (ap (contains key) e) ∙ h.same_keys key ∙ ap (has key) f in
          ground (arith, ==_refl key)
      go (k ∷ ks) e n d f = absurd (omega arith)

  -- Once nothing more is enqueued, as many rounds of the worker as there are keys in line leave
  -- nothing in the line and nothing in the map, and give it every future, as often as it was
  -- enqueued.
  pub work_times-gives :
      (ss : List (Step F)) (x : ℕ)
      → let c = perform_all ss new_course in
        let end = perform_all (work_times (length c.queue.queue_list)) c in
        (end.queue.queue_list ≡ [])
        × (end.queue.queue_map ≡ [])
        × (occurrences x end.given ≡ occurrences x (enqueued ss))
  work_times-gives ss x =
      let c = perform_all ss new_course in
      let h = perform_all-Kept ss [] new_course new-Kept in
      let (k, e) = drain-Kept (length c.queue.queue_list) (enqueued ss) c h refl in
      let (line, map) = nothing_stays _ k.coherent e in
      let r = k.all x in let s = nothing_waits x _ k.coherent e in (line, map, omega arith)
