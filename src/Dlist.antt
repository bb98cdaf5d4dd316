-- ===== src/Dlist.antt =====
-- libs/list.c and libs/list.h: the intrusive doubly linked list. A `list_t` at address `l` has its
-- `head` element at `l` and its `tail` element at `l + 8`; memory is a function for each field.
pub mod Chain
pub mod Frame
pub mod Insert
pub mod Erase
pub mod Ends
pub mod Walk
pub mod Replace
pub mod Separate
pub mod Move
mod Tests
use atlos.Base.{
  ℕ, zero, suc, ◌+◌, ◌-◌, ◌%◌, ◌^◌, Bool, true, false, ◌||◌, Option, none, some, ◌==◌,
  if◌then◌else◌, update,
}

abbrev pub Ptr : Type 0
Ptr = ℕ

abbrev pub null : Ptr
null = 0

-- `struct list_elem` by its fields, and the `len` field of `struct list`.
pub record Heap : Type 0 where
  pub next : Ptr → Ptr
  pub prev : Ptr → Ptr
  pub len : Ptr → ℕ

-- `&l->tail`; `&l->head` is `l` itself.
abbrev pub tail : Ptr → Ptr
tail l = l + 8

-- `none` is a fault: an access through NULL, a loop that has used up its fuel, or a callback that
-- fails an assertion.
abbrev pub Run : Type 0 → Type 0
Run A = Heap → Option (A × Heap)

abbrev pub fault : {A : Type 0} → Run A
fault heap = none

abbrev pub pure : {A : Type 0} → A → Run A
pure value heap = some (value, heap)

module _ {A B : Type 0} where
  abbrev pub and_then : Option (A × Heap) → (A → Run B) → Option (B × Heap)
  and_then none k = none
  and_then (some (a, h)) k = k a h

  infixl 5 ◌>>=◌ ◌>>◌
  abbrev pub ◌>>=◌ : Run A → (A → Run B) → Run B
  m >>= k = λ h. and_then (m h) k

  abbrev pub ◌>>◌ : Run A → Run B → Run B
  m >> n = m >>= λ _. n

abbrev pub load_next : Ptr → Run Ptr
load_next p h = if p == null then none else some (h.next p, h)

abbrev pub load_prev : Ptr → Run Ptr
load_prev p h = if p == null then none else some (h.prev p, h)

abbrev pub store_next : Ptr → Ptr → Run (Unit {0})
store_next p v h = if p == null then none else some (tt, record h { next = update h.next p v })

abbrev pub store_prev : Ptr → Ptr → Run (Unit {0})
store_prev p v h = if p == null then none else some (tt, record h { prev = update h.prev p v })

-- `l->len` is a uint32_t and wraps.
abbrev pub store_len : Ptr → ℕ → Run (Unit {0})
store_len l n h = some (tt, record h { len = update h.len l n })

abbrev pub load_len : Ptr → Run ℕ
load_len l h = some (h.len l, h)

unfoldable pub list_elem_init : Ptr → Run (Unit {0})
list_elem_init elem =
    if elem == null then pure tt else do store_next elem null; store_prev elem null

unfoldable pub list_empty : Ptr → Run Bool
list_empty l = do n ← load_next l; pure (n == tail l)

pub list_init : Ptr → Run (Unit {0})
list_init l = if l == null then pure tt else do
  store_next l (tail l)
  store_prev l null
  store_next (tail l) null
  store_prev (tail l) l
  store_len l 0

pub list_front : Ptr → Run Ptr
unfolding list_empty
list_front l = do e ← list_empty l; if e then pure null else load_next l

pub list_back : Ptr → Run Ptr
unfolding list_empty
list_back l = do e ← list_empty l; if e then pure null else load_prev (tail l)

pub list_insert : Ptr → Ptr → Ptr → Run (Unit {0})
list_insert l elem new_elem =
    if (l == null) || (elem == null) || (new_elem == null) then pure tt else do
      n ← load_next elem
      store_next new_elem n
      store_prev new_elem elem
      n' ← load_next elem
      store_prev n' new_elem
      store_next elem new_elem
      c ← load_len l
      store_len l ((c + 1) % 2 ^ 32)

pub list_insert_after : Ptr → Ptr → Ptr → Run (Unit {0})
list_insert_after l p n = list_insert l p n

pub list_insert_before : Ptr → Ptr → Ptr → Run (Unit {0})
list_insert_before l p n = do q ← load_prev p; list_insert l q n

pub list_push_back : Ptr → Ptr → Run (Unit {0})
list_push_back l elem = do q ← load_prev (tail l); list_insert l q elem

pub list_push_front : Ptr → Ptr → Run (Unit {0})
list_push_front l elem = list_insert l l elem

pub list_erase : Ptr → Ptr → Run Ptr
list_erase l elem =
    if (l == null) || (elem == null)
    then pure null
    else if (elem == l) || (elem == tail l)
    then pure null
    else do
      p ← load_prev elem
      n ← load_next elem
      store_next p n
      n' ← load_next elem
      p' ← load_prev elem
      store_prev n' p'
      c ← load_len l
      store_len l ((c + 2 ^ 32 - 1) % 2 ^ 32)
      pure elem

pub list_replace : Ptr → Ptr → Run Ptr
list_replace pos nelem = if (pos == null) || (nelem == null) then pure null else do
  n ← load_next pos
  store_next nelem n
  p ← load_prev pos
  store_prev nelem p
  n' ← load_next pos
  store_prev n' nelem
  p' ← load_prev pos
  store_next p' nelem
  pure nelem

pub list_pop_back : Ptr → Run Ptr
list_pop_back l = do e ← load_prev (tail l); list_erase l e

pub list_pop_front : Ptr → Run Ptr
list_pop_front l = do e ← load_next l; list_erase l e

-- The loop of `list_elem_find`.
find_from : ℕ → Ptr → Ptr → Ptr → Run Bool
find_from zero l elem it = fault
find_from (suc k) l elem it =
    if it == tail l
    then pure false
    else if it == elem
    then pure true
    else do n ← load_next it; find_from k l elem n

-- Every loop over a list is given `fuel` rounds.
pub list_elem_find : (fuel : ℕ) → Ptr → Ptr → Run Bool
unfolding find_from
list_elem_find fuel l elem =
    if (l == null) || (elem == null)
    then pure false
    else do it ← load_next l; find_from fuel l elem it

-- The loop of `list_traversal`; `func` is the callback at its argument, `none` where it fails an
-- assertion.
traverse_from : ℕ → Ptr → (Ptr → Option Bool) → Ptr → Run Ptr
traverse_from zero l func elem = fault
traverse_from (suc k) l func elem = if elem == tail l then pure null else elim (func elem) [
  | none ↦ fault
  | some true ↦ pure elem
  | some false ↦ do n ← load_next elem; traverse_from k l func n
]

pub list_traversal : (fuel : ℕ) → Ptr → (Ptr → Option Bool) → Run Ptr
unfolding traverse_from list_empty
list_traversal fuel l func = if l == null then pure null else do
  e ← list_empty l
  if e then pure null else do it ← load_next l; traverse_from fuel l func it
