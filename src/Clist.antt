-- ===== src/Clist.antt =====
-- The circular lists of common.h, as the lists of their elements from `next` on. Links shows that the
-- macros do on the pointers what is done here on lists.
pub mod Links
use st_win.Prelude.{ℕ, ◌==◌, List, [], ◌∷◌, ◌++◌, if◌then◌else◌}
unfoldable pub use st_win.Prelude.Members.{remove_link}
use st_win.TimeoutHeap.{Addr}

-- `ST_APPEND_LINK(e, &q)`
abbrev pub append_link : Addr → List Addr → List Addr
append_link e q = q ++ (e ∷ [])
