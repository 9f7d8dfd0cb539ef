-- ===== src/Links.antt =====
-- The circular lists of kernel/src/lib/list.c and kernel/include/lib/list.h, on a memory that gives the fields of each
-- item and of each list by its address; address 0 is the null pointer. The child modules prove what holds of them.
--
-- The writes stand one after another, as in the code: where the items of a write are the same one, a later read sees
-- what an earlier write has left.
pub mod Distinct
pub mod Chain
pub mod Cycle
pub mod Edit
pub mod Removal
pub mod Other
pub mod Ring
mod Tests
use nocturne_os_base.Prelude.{ℕ, ◌+◌, ◌-◌, ◌^◌, ◌==◌, if◌then◌else◌, u32}

-- The memory with `v` at `a`.
abbrev pub update : (ℕ → ℕ) → ℕ → ℕ → ℕ → ℕ
update f a v b = if a == b then v else f b

-- `prev`, `next` and `list` of `list_item_t`; `first` and `count` of `list_t`.
pub record Links : Type 0 where
  pub prev : ℕ → ℕ
  pub next : ℕ → ℕ
  pub owner : ℕ → ℕ
  pub first : ℕ → ℕ
  pub count : ℕ → ℕ

abbrev pub set_prev : Links → ℕ → ℕ → Links
set_prev s a v = record s { prev = update s.prev a v }

abbrev pub set_next : Links → ℕ → ℕ → Links
set_next s a v = record s { next = update s.next a v }

abbrev pub set_owner : Links → ℕ → ℕ → Links
set_owner s a v = record s { owner = update s.owner a v }

abbrev pub set_first : Links → ℕ → ℕ → Links
set_first s a v = record s { first = update s.first a v }

abbrev pub set_count : Links → ℕ → ℕ → Links
set_count s a v = record s { count = update s.count a v }

unfoldable pub list_init : Links → ℕ → Links
list_init s list = set_count (set_first s list 0) list 0

-- The four writes that put an item before `first`, once the list is written into it.
unfoldable pub link : Links → ℕ → ℕ → Links
link s item first =
    let s1 = set_next s item first in
    let s2 = set_prev s1 item (s1.prev first) in
    let s3 = set_next s2 (s2.prev item) item in set_prev s3 (s3.next item) item

-- An item that is alone in its list.
unfoldable pub link_alone : Links → ℕ → ℕ → Links
link_alone s list item = set_first (set_prev (set_next s item item) item item) list item

-- A list that has an item goes on after it; an item that is in a list already is left alone.
unfoldable pub list_add : Links → ℕ → ℕ → Links
unfolding link link_alone
list_add s list item =
    let t = set_owner s item list in
    let linked = if s.first list == 0 then link_alone t list item else link t item (s.first list) in
    if s.owner item == 0 then set_count linked list (u32 (linked.count list + 1)) else s

-- The first item of the list moves on, if it is the one that leaves.
pub advance : Links → ℕ → Links
advance s item =
    let list = s.owner item in
    let t = set_first s list (s.next item) in
    if s.first list == item then if s.next item == item then set_first t list 0 else t else s

-- The two writes that join the neighbours of an item.
pub unlink : Links → ℕ → Links
unlink s item =
    let t = set_prev s (s.next item) (s.prev item) in set_next t (t.prev item) (t.next item)

-- `item->list` stays as it is.
unfoldable pub list_remove : Links → ℕ → Links
unfolding advance unlink
list_remove s item =
    let t = unlink (advance s item) item in
    set_count t (t.owner item) (u32 (t.count (t.owner item) + 2 ^ 32 - 1))
