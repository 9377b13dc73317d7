-- ===== src/Tests/Lists.antt =====
-- Circular lists at work: 9 is the head of a list, 4 and 6 go on it.
use st_win.Prelude.{◌≡◌, refl, arith, [], ◌∷◌}
use st_win.Prelude.Members.{has, remove_link}
use st_win.Clist.Links.{
  Links, Ring, init_clist, insert_before, unlink, init_clist-Ring, insert_before-Ring, unlink-Ring,
}

abbrev zeros : Links
zeros = record { next = λ a. 0; prev = λ a. 0 }

abbrev empty : Links
empty = init_clist 9 zeros

empty-Ring : Ring empty 9 []
empty-Ring = init_clist-Ring 9 zeros (ground arith)

two-Ring : Ring (insert_before 6 9 (insert_before 4 9 empty)) 9 (4 ∷ 6 ∷ [])
unfolding has
two-Ring =
    insert_before-Ring (insert_before-Ring empty-Ring 4 (ground arith) (ground arith)) 6
      (ground arith) (ground arith)

unlink-Ring_example :
    Ring (unlink 4 (insert_before 6 9 (insert_before 4 9 empty))) 9 (remove_link 4 (4 ∷ 6 ∷ []))
unfolding has
unlink-Ring_example = unlink-Ring two-Ring 4 (ground arith)

runs : (unlink 4 (insert_before 6 9 (insert_before 4 9 empty))).next 9 ≡ 6
unfolding unlink insert_before init_clist
runs = refl
