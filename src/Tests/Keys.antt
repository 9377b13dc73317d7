-- ===== src/Tests/Keys.antt =====
-- Thread-specific data at work: two keys, the second with the destructor 900.
use st_win.Prelude.{
  ℕ, ◌≡◌, ◌≢◌, ◌⊎◌, refl, arith, ◌==◌, not, ◌&&◌, [], ◌∷◌, ◌++◌, if◌then◌else◌, update, ltb,
}
use st_win.Prelude.Int.{pos}
use st_win.TimeoutHeap.{Addr}
use st_win.Vp.{eok, ok}
use st_win.Key.{Keys, thread_setspecific, thread_getspecific, thread_cleanup}
use st_win.Key.Cleanup.{both_given, setspecific-getspecific, due_calls, thread_cleanup-destroys}

abbrev two_keys : Keys
two_keys = record {
  key_max = 2;
  destructors = update (λ k. 0) 1 900;
  private_data = λ t. update (update (λ k. 0) 0 50) 1 60;
  calls = [];
  errno = eok;
}

setspecific-getspecific_example :
    (let r = (thread_setspecific 3 (pos 1) 70 two_keys).0 in
      ((thread_setspecific 3 (pos 1) 70 two_keys).1 ≡ ok)
      × (thread_getspecific 3 (pos 1) r ≡ 70)
      × ((t : Addr) (k : ℕ)
          → (t ≢ 3) ⊎ (k ≢ 1)
          → thread_getspecific t (pos k) r ≡ thread_getspecific t (pos k) two_keys)
      × (r.calls ≡ (
          if not (70 == two_keys.private_data 3 1) && both_given 3 1 two_keys
          then two_keys.calls ++ ((two_keys.destructors 1, two_keys.private_data 3 1) ∷ [])
          else two_keys.calls)))
setspecific-getspecific_example =
    setspecific-getspecific 3 1 70 two_keys (ground arith) (ground arith)

thread_cleanup-destroys_example :
    ((thread_cleanup 3 two_keys).calls ≡ [] ++ due_calls 2 0 3 two_keys)
    × ((t : Addr) (k : ℕ)
        → (thread_cleanup 3 two_keys).private_data t k ≡ (
            if (t == 3) && ltb k 2 && both_given 3 k two_keys
            then 0
            else two_keys.private_data t k))
thread_cleanup-destroys_example = thread_cleanup-destroys 3 two_keys (ground arith)

cleaned : (thread_cleanup 3 two_keys).calls ≡ (900, 60) ∷ []
unfolding thread_cleanup
cleaned = refl
