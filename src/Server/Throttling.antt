-- ===== src/Server/Throttling.antt =====
-- `set_thread_throttling`: how the limits of a process relate to each other and to the totals.
use st_win.Prelude.{
  ℕ, ◌+◌, ◌*◌, ◌/◌, ◌%◌, ◌≤◌, ◌<◌, ◌≡◌, inl, inr, refl, arith, ◌==◌, false, lt-cases,
}
use native.Mathlib.Nat.{mul-le-mul_right}
use st_win.Server.{Config, share, total_limits, set_thread_throttling}

share-zero : (n v : ℕ) → 0 < v → n % v ≡ 0 → share n v * v ≡ n
unfolding share
share-zero n v pos_v e = rw e (omega (arith, e))

share-suc : (n v : ℕ) → 0 < v → 0 < n % v → share n v * v ≡ n / v * v + v
unfolding share
share-suc n v pos_v pos_r = let e : (n % v == 0) ≡ false = ground arith in rw e (omega arith)

share-covers : (n v : ℕ) → 0 < v → (n ≤ share n v * v) × (share n v * v < n + v)
share-covers n v pos_v = elim (lt-cases 0 (n % v)) [
  | inl more ↦ rw share-suc (omega arith, omega arith)
  | inr even ↦ let e : n % v ≡ 0 = omega arith in rw share-zero (omega arith, omega arith)
]

share_mono : (a b v : ℕ) → 0 < v → a ≤ b → share a v ≤ share b v
share_mono a b v pos_v le = elim (lt-cases (share b v) (share a v)) [
  | inr fine ↦ fine
  | inl over ↦
      let steps : (share b v + 1) * v ≤ share a v * v = mul-le-mul_right v (omega (arith, over)) in
      let below = (share-covers a v pos_v).1 in
      let above = (share-covers b v pos_v).0 in omega arith
]

total_limits-ordered :
    (fdlimit : ℕ) (c : Config)
    → let t = total_limits fdlimit c in
      (t.vp_count ≡ c.vp_count) × (t.max_wait_threads ≤ t.max_threads)
unfolding total_limits
total_limits-ordered fdlimit c = (refl, ground arith)

throttled :
    (fdlimit : ℕ) (c : Config)
    → let t = total_limits fdlimit c in
      let r = set_thread_throttling fdlimit c in
      (r.max_wait_threads ≡ share t.max_wait_threads t.vp_count)
      × (r.max_threads ≡ share t.max_threads t.vp_count)
      × (r.min_wait_threads ≤ r.max_wait_threads)
unfolding set_thread_throttling
throttled fdlimit c = (refl, refl, ground arith)

-- With one process or more, `set_thread_throttling` leaves min_wait_threads at most
-- max_wait_threads, and this at most max_threads; the threads of all processes together reach the
-- total limit, and exceed it by less than the number of processes.
pub set_thread_throttling-shares :
    (fdlimit : ℕ) (c : Config)
    → 0 < c.vp_count
    → let t = total_limits fdlimit c in
      let r = set_thread_throttling fdlimit c in
      (r.min_wait_threads ≤ r.max_wait_threads)
      × (r.max_wait_threads ≤ r.max_threads)
      × (t.max_threads ≤ r.max_threads * c.vp_count)
      × (r.max_threads * c.vp_count < t.max_threads + c.vp_count)
set_thread_throttling-shares fdlimit c pos_v =
    let (vps, ordered) = total_limits-ordered fdlimit c in
    let (w, m, least) = throttled fdlimit c in
    let t = total_limits fdlimit c in
    let (le, lt) = share-covers t.max_threads c.vp_count pos_v in
    (
      least,
      rw (w, m, vps) (share_mono t.max_wait_threads t.max_threads c.vp_count pos_v ordered),
      rw (m, vps) le,
      rw (m, vps) lt,
    )
