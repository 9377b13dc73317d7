-- ===== src/Key/Cleanup.antt =====
-- What a thread stores under a key it reads back, and at its end every value is destroyed once.
use st_win.Prelude.{
  ℕ, zero, suc, ◌+◌, ◌≤◌, ◌<◌, ◌≡◌, ◌≢◌, ◌⊎◌, inl, inr, refl, sym, ◌∙◌, ◌==◌, ltb, leb, Bool, false,
  not, ◌&&◌, List, [], ◌∷◌, ◌++◌, if◌then◌else◌, arith, Bool-cases, append-nil, append_assoc,
}
use st_win.Prelude.Int.{pos}
use st_win.TimeoutHeap.{Addr}
use st_win.Vp.{ok}
use st_win.Key.{
  Keys, thread_setspecific, thread_getspecific, cleanup_key, cleanup_loop, thread_cleanup,
}

-- Neither the value nor the destructor is null.
abbrev pub both_given : Addr → ℕ → Keys → Bool
both_given thread key ks = not (ks.private_data thread key == 0) && not (ks.destructors key == 0)

-- `st_thread_setspecific` of a thread with a key that was created stores the value:
-- `st_thread_getspecific` returns it, every other key and thread reads what it read before, and the
-- value that was there is handed to the destructor of the key exactly if it was another one and
-- neither it nor the destructor is null.
pub setspecific-getspecific :
    (thread key : ℕ) (value : Addr) (ks : Keys)
    → thread ≢ 0
    → key < ks.key_max
    → (let r = (thread_setspecific thread (pos key) value ks).0 in
        ((thread_setspecific thread (pos key) value ks).1 ≡ ok)
        × (thread_getspecific thread (pos key) r ≡ value)
        × ((t : Addr) (k : ℕ)
            → (t ≢ thread) ⊎ (k ≢ key)
            → thread_getspecific t (pos k) r ≡ thread_getspecific t (pos k) ks)
        × (r.calls ≡ (
            if not (value == ks.private_data thread key) && both_given thread key ks
            then ks.calls ++ ((ks.destructors key, ks.private_data thread key) ∷ [])
            else ks.calls)))
unfolding thread_setspecific thread_getspecific
setspecific-getspecific thread key value ks ne lt =
    (ground arith, ground arith, λ t k d. ground arith, ground arith)

-- The destructor calls that are due for the keys from `key` on.
unfoldable pub due_calls : ℕ → ℕ → Addr → Keys → List (Addr × Addr)
due_calls zero key thread ks = []
due_calls (suc rounds) key thread ks =
    let rest = due_calls rounds (key + 1) thread ks in
    if both_given thread key ks
    then (ks.destructors key, ks.private_data thread key) ∷ rest
    else rest

cleanup_key-fields :
    (key : ℕ) (thread : Addr) (ks : Keys)
    → ((cleanup_key thread key ks).destructors ≡ ks.destructors)
      × ((t : Addr) (k : ℕ)
          → (cleanup_key thread key ks).private_data t k ≡ (
              if (t == thread) && (k == key) && both_given thread key ks
              then 0
              else ks.private_data t k))
      × ((cleanup_key thread key ks).calls ≡ (
          if both_given thread key ks
          then ks.calls ++ ((ks.destructors key, ks.private_data thread key) ∷ [])
          else ks.calls))
      × ((cleanup_key thread key ks).key_max ≡ ks.key_max)
unfolding cleanup_key
cleanup_key-fields key thread ks = (ground arith, λ t k. ground arith, ground arith, ground arith)

due_calls-same :
    (rounds key : ℕ) (thread : Addr) (ks ks' : Keys)
    → ks'.destructors ≡ ks.destructors
    → ((k : ℕ) → key ≤ k → ks'.private_data thread k ≡ ks.private_data thread k)
    → due_calls rounds key thread ks' ≡ due_calls rounds key thread ks
unfolding due_calls
due_calls-same zero key thread ks ks' d p = refl
due_calls-same (suc rounds) key thread ks ks' d p = rw (
  due_calls-same rounds (key + 1) thread ks ks' d (λ k le. p k (omega arith)),
  d,
  p key (omega arith),
)

due_calls-cleanup :
    (rounds key : ℕ) (thread : Addr) (ks : Keys)
    → due_calls rounds (key + 1) thread (cleanup_key thread key ks)
      ≡ due_calls rounds (key + 1) thread ks
due_calls-cleanup rounds key thread ks =
    let f = cleanup_key-fields key thread ks in
    due_calls-same rounds (key + 1) thread ks _ f.0 (λ k le. ground (arith, f.1 thread k))

cleanup_loop-calls :
    (rounds key : ℕ) (thread : Addr) (ks : Keys)
    → (cleanup_loop rounds key thread ks).calls ≡ ks.calls ++ due_calls rounds key thread ks
unfolding cleanup_loop due_calls
cleanup_loop-calls zero key thread ks = sym (append-nil ks.calls)
cleanup_loop-calls (suc rounds) key thread ks =
    let f = cleanup_key-fields key thread ks in
    cleanup_loop-calls rounds (key + 1) thread (cleanup_key thread key ks)
    ∙ rw (due_calls-cleanup, f.2)
        (elim (Bool-cases (both_given thread key ks)) [
          | inl owned ↦ rw owned (append_assoc ks.calls _ _)
          | inr not_owned ↦ rw not_owned
        ])

-- What stays stored: values whose key has no destructor, and whatever the loop does not reach.
cleanup_loop-data :
    (rounds key : ℕ) (thread : Addr) (ks : Keys) (t : Addr) (k : ℕ)
    → (cleanup_loop rounds key thread ks).private_data t k ≡ (
        if (t == thread) && leb key k && ltb k (key + rounds) && both_given thread k ks
        then 0
        else ks.private_data t k)
unfolding cleanup_loop
cleanup_loop-data zero key thread ks t k = ground arith
cleanup_loop-data (suc rounds) key thread ks t k =
    let f = cleanup_key-fields key thread ks in
    cleanup_loop-data rounds (key + 1) thread (cleanup_key thread key ks) t k
    ∙ ground (arith, f.0, f.1 t k, f.1 thread k)

-- `_st_thread_cleanup` of a thread calls the destructor of each key once on the thread's value, in
-- the order of the keys, skips null values and keys with no destructor, nulls what it has
-- destroyed, and touches neither another value of the thread nor another thread.
pub thread_cleanup-destroys :
    (thread : Addr) (ks : Keys)
    → thread ≢ 0
    → ((thread_cleanup thread ks).calls ≡ ks.calls ++ due_calls ks.key_max 0 thread ks)
      × ((t : Addr) (k : ℕ)
          → (thread_cleanup thread ks).private_data t k ≡ (
              if (t == thread) && ltb k ks.key_max && both_given thread k ks
              then 0
              else ks.private_data t k))
unfolding thread_cleanup
thread_cleanup-destroys thread ks ne =
    let alive : (thread == 0) ≡ false = ground arith in
    (
      rw alive (cleanup_loop-calls ks.key_max 0 thread ks),
      λ t k. rw alive (cleanup_loop-data ks.key_max 0 thread ks t k ∙ ground arith),
    )
