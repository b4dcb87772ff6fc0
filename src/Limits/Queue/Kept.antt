-- ===== src/Limits/Queue/Kept.antt =====
-- The line of keys and the map stay coherent, so there is no KeyError.
use vega_claude.Prelude.{
  ℕ, ◌≡◌, refl, sym, ap, ◌∙◌, subst, String, Option, none, some, Bool, true, false, List, [], ◌∷◌,
  ◌++◌, IsDict, get, has, has-get, has-put, put-IsDict, has-remove, remove-IsDict, contains,
  contains-append, string_eq, ==_iff, ==_refl, nat_eq, arith,
}
use vega_claude.Limits.Queue.{
  TaskQueue, enqueue_in, enqueue_internal_multi, Got, waits, task, key_error, get_task, get_from,
  pop_entry,
}

abbrev NoTwice : List String → Type 0
NoTwice [] = Unit
NoTwice (k ∷ ks) = (contains k ks ≡ false) × NoTwice ks

snoc-NoTwice :
    (k : String) (ks : List String) → contains k ks ≡ false → NoTwice ks → NoTwice (ks ++ k ∷ [])
snoc-NoTwice k [] n h = (refl, tt)
snoc-NoTwice k (j ∷ ks) n h = (
  ground (arith, contains-append j ks (k ∷ []), ==_iff j k, ==_iff k j),
  snoc-NoTwice k ks (ground arith) h.1,
)

module _ {F : Type 0} where
  -- The keys in line are those of the map, each once.
  pub record Coherent (q : TaskQueue F) : Type 0 where
    pub same_keys : (k : String) → contains k q.queue_list ≡ has k q.queue_map
    pub once : NoTwice q.queue_list
    pub distinct : IsDict q.queue_map

  pub enqueue-Coherent :
      (func : F) (futures : List ℕ) (key : String) (front : Bool) (q : TaskQueue F)
      → Coherent q
      → Coherent (enqueue_internal_multi func futures key front q)
  unfolding enqueue_internal_multi enqueue_in
  enqueue-Coherent func futures key front q h = go (get key q.queue_map) refl front
    where
      go :
          (o : Option (F × List ℕ))
          → get key q.queue_map ≡ o
          → (b : Bool) → Coherent (enqueue_in func futures key b o q)
      go (some (old, waiting)) e b = record {
        same_keys = λ k. ground (
          arith,
          h.same_keys k,
          has-put key k (func, waiting ++ futures) q.queue_map,
          has-get key q.queue_map,
          ==_iff key k,
        );
        once = h.once;
        distinct = put-IsDict key (func, waiting ++ futures) q.queue_map h.distinct;
      }
      go none e true = record {
        same_keys = λ k. ground (arith, h.same_keys k, has-put key k (func, futures) q.queue_map);
        once = (ground (arith, h.same_keys key, has-get key q.queue_map), h.once);
        distinct = put-IsDict key (func, futures) q.queue_map h.distinct;
      }
      go none e false = record {
        same_keys = λ k. ground (
          arith,
          h.same_keys k,
          has-put key k (func, futures) q.queue_map,
          contains-append k q.queue_list (key ∷ []),
        );
        once =
            snoc-NoTwice key q.queue_list (ground (arith, h.same_keys key, has-get key q.queue_map))
              h.once;
        distinct = put-IsDict key (func, futures) q.queue_map h.distinct;
      }

  -- A task leaves a queue that is coherent; there is no KeyError.
  abbrev pub Fine : Got F → Type 0
  Fine waits = Unit
  Fine (task key func futures q) = Coherent q
  Fine key_error = ⊥

  pub get_task-Fine : (q : TaskQueue F) → Coherent q → Fine (get_task q)
  unfolding get_task get_from
  get_task-Fine q h = go q.queue_list refl
    where
      popped :
          (key : String) (ks : List String) (o : Option (F × List ℕ))
          → q.queue_list ≡ key ∷ ks
          → get key q.queue_map ≡ o
          → Fine (pop_entry key ks o q)
      popped key ks none e r =
          let same = sym (ap (contains key) e) ∙ h.same_keys key in
          ground (arith, has-get key q.queue_map, ==_refl key)
      popped key ks (some (func, futures)) e r =
          let once = subst NoTwice e h.once in
          record {
            same_keys = λ k.
                let same = sym (ap (contains k) e) ∙ h.same_keys k in
                ground (arith, has-remove key k q.queue_map, ==_iff key k);
            once = once.1;
            distinct = remove-IsDict key q.queue_map h.distinct;
          }

      go : (ks : List String) → q.queue_list ≡ ks → Fine (get_from ks q)
      go [] e = tt
      go (key ∷ ks) e = popped key ks (get key q.queue_map) e refl
