-- ===== src/Io/Descriptors.antt =====
-- The life of a descriptor object: freed once, with its destructor called once, and used again clean.
use st_win.Prelude.{ℕ, ◌≡◌, ◌≢◌, ◌==◌, not, ◌&&◌, true, false, [], ◌∷◌, ◌++◌, if◌then◌else◌, arith}
use st_win.TimeoutHeap.{Addr}
use st_win.Io.{Netfds, netfd_free, netfd_new, netfd_getspecific, netfd_fileno}

-- `st_netfd_free` of an object in use calls the destructor of its data once, if it has one, and
-- hands the object to the next `_st_netfd_new` that the event system allows, which returns it for
-- its own descriptor, in use and with null data; the rest of the free list stays. Freeing it again
-- changes nothing.
pub netfd_free-netfd_new :
    (fd object : Addr) (osfd : ℕ) (s : Netfds)
    → fd ≢ 0
    → s.inuse fd ≡ true
    → (let r = netfd_new true object osfd (netfd_free fd s) in
        (r.1 ≡ fd)
        × (netfd_getspecific fd r.0 ≡ 0)
        × (netfd_fileno fd r.0 ≡ osfd)
        × (r.0.inuse fd ≡ true)
        × (r.0.freelist ≡ s.freelist)
        × (r.0.calls ≡ (
            if not (s.private_data fd == 0) && not (s.destructor fd == 0)
            then s.calls ++ ((s.destructor fd, s.private_data fd) ∷ [])
            else s.calls))
        × (netfd_free fd (netfd_free fd s) ≡ netfd_free fd s))
unfolding netfd_free netfd_new netfd_getspecific netfd_fileno
netfd_free-netfd_new fd object osfd s ne used =
    let z : (fd == 0) ≡ false = ground arith in
    (
      ground arith,
      ground arith,
      ground arith,
      ground arith,
      ground arith,
      ground arith,
      ground arith,
    )
