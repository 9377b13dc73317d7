-- ===== src/Stk.antt =====
-- stk.c: the stacks of the threads and the list of the free ones. What `calloc`, the allocation of the
-- segment and `rand` return are arguments, 0 where an allocation fails.
pub mod Redzone
use st_win.Prelude.{
  ℕ, ◌+◌, ◌*◌, ◌/◌, ◌%◌, ◌==◌, leb, Bool, Option, none, some, List, [], ◌∷◌, if◌then◌else◌, update,
}
use st_win.Prelude.Int.{ℤ, incr, decr}
use st_win.TimeoutHeap.{Addr}
use st_win.Clist.{remove_link}

-- `_st_free_stacks` from its `next` on, `_st_num_free_stacks`, `_st_randomize_stacks`, and the fields of
-- `struct _st_stack`.
pub record Stacks : Type 0 where
  pub free_stacks : List Addr
  pub num_free_stacks : ℤ
  pub randomize : Bool
  pub vaddr : Addr → Addr
  pub vaddr_size : Addr → ℕ
  pub stk_size : Addr → ℕ
  pub stk_bottom : Addr → Addr
  pub stk_top : Addr → Addr
  pub sp : Addr → Addr

-- The first stack of the free list that is big enough.
unfoldable pub find_stack : ℕ → List Addr → Stacks → Option Addr
find_stack stack_size [] s = none
find_stack stack_size (ts ∷ q) s =
    if leb stack_size (s.stk_size ts) then some ts else find_stack stack_size q s

-- `(rand() % extra) & ~0xf`
abbrev pub random_offset : ℕ → ℕ → ℕ
random_offset extra rand = rand % extra / 16 * 16

-- `extra = _st_randomize_stacks ? _ST_PAGE_SIZE : 0;`
abbrev pub extra_size : ℕ → Stacks → ℕ
extra_size pagesize s = if s.randomize then pagesize else 0

-- A new stack object `ts`, with the segment at `segment`.
unfoldable pub make_stack : ℕ → ℕ → Addr → Addr → ℕ → Stacks → Stacks
make_stack pagesize stack_size ts segment rand s =
    let extra = extra_size pagesize s in
    let offset = if extra == 0 then 0 else random_offset extra rand in
    record s {
      vaddr_size = update s.vaddr_size ts (stack_size + 2 * pagesize + extra);
      vaddr = update s.vaddr ts segment;
      stk_size = update s.stk_size ts stack_size;
      stk_bottom = update s.stk_bottom ts (segment + pagesize + offset);
      stk_top = update s.stk_top ts (segment + pagesize + stack_size + offset);
    }

-- `_st_stack_new`
unfoldable pub stack_new : ℕ → ℕ → Addr → Addr → ℕ → Stacks → Stacks × Addr
unfolding find_stack make_stack remove_link
stack_new pagesize stack_size ts segment rand s = elim (find_stack stack_size s.free_stacks s) [
  | some found ↦ (
    record s {
      free_stacks = remove_link found s.free_stacks;
      num_free_stacks = decr s.num_free_stacks;
    },
    found,
  )
  | none ↦
      if ts == 0
      then (s, 0)
      else if segment == 0
      then (s, 0)
      else (make_stack pagesize stack_size ts segment rand s, ts)
]

-- `ST_APPEND_LINK(e, q.prev)`: the link goes before the last one of the list.
unfoldable pub insert_before_last : Addr → List Addr → List Addr
insert_before_last e [] = e ∷ []
insert_before_last e (x ∷ []) = e ∷ x ∷ []
insert_before_last e (x ∷ y ∷ q) = x ∷ insert_before_last e (y ∷ q)

-- `_st_stack_free`
unfoldable pub stack_free : Addr → Stacks → Stacks
unfolding insert_before_last
stack_free ts s = if ts == 0 then s else record s {
  free_stacks = insert_before_last ts s.free_stacks;
  num_free_stacks = incr s.num_free_stacks;
}

-- `st_randomize_stacks`, without the call of `srand`; it returns `wason`.
unfoldable pub randomize_stacks : Bool → Stacks → Stacks × Bool
randomize_stacks on s = (record s { randomize = on }, s.randomize)
