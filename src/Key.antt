-- ===== src/Key.antt =====
-- key.c: thread-specific data. A destructor is a function of the program that uses the library, so a
-- call of one is recorded, with the value it is given, in the order of the calls.
pub mod Cleanup
use st_win.Prelude.{
  ℕ, zero, suc, ◌+◌, ◌==◌, ltb, leb, Bool, true, false, not, ◌&&◌, ◌||◌, List, [], ◌∷◌, ◌++◌,
  if◌then◌else◌, update,
}
use st_win.Prelude.Int.{ℤ, pos, negsuc}
use st_win.TimeoutHeap.{Addr}
use st_win.Vp.{Errno, einval, eagain, Rc, ok, fail}

-- `ST_KEYS_MAX`
abbrev pub keys_max : ℕ
keys_max = 16

-- `key_max`, `_st_destructors`, the `private_data` of the threads, and the destructor calls made so far.
pub record Keys : Type 0 where
  pub key_max : ℕ
  pub destructors : ℕ → Addr
  pub private_data : Addr → ℕ → Addr
  pub calls : List (Addr × Addr)
  pub errno : Errno

-- `st_key_create`; the key goes to `*keyp`.
unfoldable pub key_create : Addr → Keys → Keys × ℕ × Rc
key_create destructor ks =
    if leb keys_max ks.key_max then (record ks { errno = eagain }, 0, fail) else (
      record ks {
        key_max = ks.key_max + 1;
        destructors = update ks.destructors ks.key_max destructor;
      },
      ks.key_max,
      ok,
    )

-- `st_key_getlimit`
unfoldable pub key_getlimit : ℕ
key_getlimit = keys_max

-- `thread == NULL || key < 0 || key >= key_max`, for a key that is not negative
abbrev pub is_bad_key : Addr → ℕ → Keys → Bool
is_bad_key thread key ks = thread == 0 || leb ks.key_max key

-- `(*_st_destructors[key])(thread->private_data[key])`
unfoldable pub destroy : Addr → ℕ → Keys → Keys
destroy thread key ks = record ks {
  calls = ks.calls ++ ((ks.destructors key, ks.private_data thread key) ∷ []);
}

abbrev pub store : Addr → ℕ → Addr → Keys → Keys
store thread key value ks = record ks {
  private_data = update ks.private_data thread (update (ks.private_data thread) key value);
}

-- `thread->private_data[key] && _st_destructors[key]`
abbrev pub is_owned : Addr → ℕ → Keys → Bool
is_owned thread key ks = not (ks.private_data thread key == 0) && not (ks.destructors key == 0)

-- `st_thread_setspecific`
unfoldable pub setspecific_at : Addr → ℕ → Addr → Keys → Keys × Rc
unfolding destroy
setspecific_at thread key value ks =
    if is_bad_key thread key ks
    then (record ks { errno = einval }, fail)
    else if value == ks.private_data thread key
    then (ks, ok)
    else let ks₁ = if is_owned thread key ks then destroy thread key ks else ks in
      (store thread key value ks₁, ok)

unfoldable pub thread_setspecific : Addr → ℤ → Addr → Keys → Keys × Rc
unfolding setspecific_at
thread_setspecific thread (pos key) value ks = setspecific_at thread key value ks
thread_setspecific thread (negsuc key) value ks = (record ks { errno = einval }, fail)

-- `st_thread_getspecific`
unfoldable pub getspecific_at : Addr → ℕ → Keys → Addr
getspecific_at thread key ks = if is_bad_key thread key ks then 0 else ks.private_data thread key

unfoldable pub thread_getspecific : Addr → ℤ → Keys → Addr
unfolding getspecific_at
thread_getspecific thread (pos key) ks = getspecific_at thread key ks
thread_getspecific thread (negsuc key) ks = 0

-- One round of `_st_thread_cleanup`.
unfoldable pub cleanup_key : Addr → ℕ → Keys → Keys
unfolding destroy
cleanup_key thread key ks =
    if is_owned thread key ks then store thread key 0 (destroy thread key ks) else ks

-- The loop of `_st_thread_cleanup`, with the rounds left and the next key.
unfoldable pub cleanup_loop : ℕ → ℕ → Addr → Keys → Keys
unfolding cleanup_key
cleanup_loop zero key thread ks = ks
cleanup_loop (suc rounds) key thread ks =
    cleanup_loop rounds (key + 1) thread (cleanup_key thread key ks)

-- `_st_thread_cleanup`
unfoldable pub thread_cleanup : Addr → Keys → Keys
unfolding cleanup_loop
thread_cleanup thread ks = if thread == 0 then ks else cleanup_loop ks.key_max 0 thread ks
