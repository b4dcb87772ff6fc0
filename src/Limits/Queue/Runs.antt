-- ===== src/Limits/Queue/Runs.antt =====
-- Runs of the queue, and how often a future waits in it.
use vega_claude.Prelude.{
  ℕ, suc, ◌+◌, ◌≡◌, refl, ap, String, Option, none, some, Bool, true, false, List, [], ◌∷◌, ◌++◌,
  Dict, IsDict, get, has, put, remove, string_eq, ◌==◌, ==_iff, count_if, nat_beq, arith,
  if◌then◌else◌,
}
use vega_claude.Limits.Queue.{
  TaskQueue, new_queue, enqueue_in, enqueue_internal_multi, Got, waits, task, key_error, get_task,
}

abbrev pub occurrences : ℕ → List ℕ → ℕ
occurrences x = count_if (nat_beq x)

-- A step of a run: a call of `_enqueue_internal_multi`, or a round of the worker.
pub data Step (F : Type 0) : Type 0 where
  enqueue : F → List ℕ → String → Bool → Step F
  work : Step F

-- The queue, the futures of the tasks that the worker got so far, and whether it met a KeyError.
pub record Course (F : Type 0) : Type 0 where
  pub queue : TaskQueue F
  pub given : List ℕ
  pub failed : Bool

pub occurrences-append :
    (x : ℕ) (xs ys : List ℕ) → occurrences x (xs ++ ys) ≡ occurrences x xs + occurrences x ys
occurrences-append x [] ys = omega arith
occurrences-append x (y ∷ xs) ys = go (nat_beq x y) (occurrences-append x xs ys)
  where
    go :
        (b : Bool)
        → occurrences x (xs ++ ys) ≡ occurrences x xs + occurrences x ys
        → (if b then suc (occurrences x (xs ++ ys)) else occurrences x (xs ++ ys))
          ≡ (if b then suc (occurrences x xs) else occurrences x xs) + occurrences x ys
    go true h = omega arith
    go false h = h

module _ {F : Type 0} where
  abbrev pub new_course : Course F
  new_course = record { queue = new_queue; given = []; failed = false }

  abbrev pub after_get : Got F → Course F → Course F
  after_get waits c = c
  after_get (task key func futures q) c = record c { queue = q; given = c.given ++ futures }
  after_get key_error c = record c { failed = true }

  abbrev pub perform : Step F → Course F → Course F
  perform (enqueue func futures key front) c = record c {
    queue = enqueue_internal_multi func futures key front c.queue;
  }
  perform work c = after_get (get_task c.queue) c

  abbrev pub perform_all : List (Step F) → Course F → Course F
  perform_all [] c = c
  perform_all (s ∷ ss) c = perform_all ss (perform s c)

  -- All futures that the steps enqueue.
  abbrev pub enqueued : List (Step F) → List ℕ
  enqueued [] = []
  enqueued (enqueue func futures key front ∷ ss) = futures ++ enqueued ss
  enqueued (work ∷ ss) = enqueued ss

  abbrev pub occurrences_in : ℕ → Option (F × List ℕ) → ℕ
  occurrences_in x none = 0
  occurrences_in x (some (func, futures)) = occurrences x futures

  -- How often the future waits in the map.
  abbrev pub waiting : ℕ → Dict String (F × List ℕ) → ℕ
  waiting x [] = 0
  waiting x ((key, entry) ∷ d) = occurrences x entry.1 + waiting x d

  waiting-put :
      (x : ℕ) (key : String) (func : F) (futures : List ℕ) (d : Dict String (F × List ℕ))
      → waiting x (put key (func, futures) d) + occurrences_in x (get key d)
        ≡ waiting x d + occurrences x futures
  waiting-put x key func futures [] = omega arith
  waiting-put x key func futures ((k, entry) ∷ d) = go (k == key) (waiting-put x key func futures d)
    where
      go :
          (b : Bool)
          → waiting x (put key (func, futures) d) + occurrences_in x (get key d)
            ≡ waiting x d + occurrences x futures
          → waiting x
                (if b then (k, (func, futures)) ∷ d else (k, entry) ∷ put key (func, futures) d)
              + occurrences_in x (if b then some entry else get key d)
            ≡ occurrences x entry.1 + waiting x d + occurrences x futures
      go true h = omega arith
      go false h = omega arith

  remove_absent :
      (key : String) (d : Dict String (F × List ℕ)) → has key d ≡ false → remove key d ≡ d
  remove_absent key [] h = refl
  remove_absent key ((k, entry) ∷ d) h = ground (arith, remove_absent key d)

  pub waiting-remove :
      (x : ℕ) (key : String) (d : Dict String (F × List ℕ))
      → IsDict d
      → waiting x (remove key d) + occurrences_in x (get key d) ≡ waiting x d
  waiting-remove x key [] n = refl
  waiting-remove x key ((k, entry) ∷ d) n = go (k == key) refl (waiting-remove x key d n.1)
    where
      go :
          (b : Bool)
          → (k == key) ≡ b
          → waiting x (remove key d) + occurrences_in x (get key d) ≡ waiting x d
          → waiting x (if b then remove key d else (k, entry) ∷ remove key d)
              + occurrences_in x (if b then some entry else get key d)
            ≡ occurrences x entry.1 + waiting x d
      go true e h =
          let same = remove_absent key d (ground (arith, n.0, ==_iff k key)) in
          let r = ap (waiting x) same in omega arith
      go false e h = omega arith

  pub waiting-enqueue :
      (x : ℕ) (func : F) (futures : List ℕ) (key : String) (front : Bool) (q : TaskQueue F)
      → waiting x (enqueue_internal_multi func futures key front q).queue_map
        ≡ waiting x q.queue_map + occurrences x futures
  unfolding enqueue_internal_multi enqueue_in
  waiting-enqueue x func futures key front q = go (get key q.queue_map) refl
    where
      go :
          (o : Option (F × List ℕ))
          → get key q.queue_map ≡ o
          → waiting x (enqueue_in func futures key front o q).queue_map
            ≡ waiting x q.queue_map + occurrences x futures
      go none e =
          let r = waiting-put x key func futures q.queue_map in
          let s = ap (occurrences_in x) e in omega arith
      go (some (old, fs)) e =
          let r = waiting-put x key func (fs ++ futures) q.queue_map in
          let s = ap (occurrences_in x) e in let t = occurrences-append x fs futures in omega arith
