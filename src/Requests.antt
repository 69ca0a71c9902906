-- ===== src/Requests.antt =====
-- `UvWriteRequest` of lib/uv_socket.cpp: the copies of the bytes of a write, kept on the heap while
-- libuv writes them. A result `none` is a use of memory that C++ leaves undefined.
pub mod Balance
use tcpserver_cpp_libuv_samp.Base.{
  ℕ, suc, ◌+◌, ◌==◌, ltb, List, [], ◌∷◌, ◌++◌, Option, none, some, Bytes, length, if◌then◌else◌,
}

-- The blocks that are allocated, newest first; a block is a number.
pub record Memory : Type 0 where
  pub next : ℕ
  pub live : List ℕ

unfoldable pub alloc : Memory → ℕ × Memory
alloc m = (m.next, record { next = suc m.next; live = m.next ∷ m.live })

-- The free of a block that is not allocated, or is freed already, is undefined.
unfoldable pub erase : ℕ → List ℕ → Option (List ℕ)
erase k [] = none
erase k (j ∷ js) =
    let later : Option (List ℕ) = elim (erase k js) [ none ↦ none | some ks ↦ some (j ∷ ks) ] in
    if j == k then some js else later

unfoldable pub free : ℕ → Memory → Option Memory
free k m = elim (erase k m.live) [ none ↦ none | some ks ↦ some (record m { live = ks }) ]

-- `uv_buf_t`: a block and the bytes in it.
pub record UvBuf : Type 0 where
  pub base : ℕ
  pub bytes : Bytes

-- `UvWriteRequest`, with the block of its array `bufs` and the length of the array; `nbuf` is the
-- length of the list.
pub record WriteRequest : Type 0 where
  pub uv_socket : ℕ
  pub array : ℕ
  pub capacity : ℕ
  pub bufs : List UvBuf

unfoldable pub new_write_request : ℕ → ℕ → Memory → WriteRequest × Memory
new_write_request socket n m =
    let (k, m') = alloc m in (record { uv_socket = socket; array = k; capacity = n; bufs = [] }, m')

-- `add`: a copy in a new block; behind the end of the array it writes out of bounds.
unfoldable pub add : Bytes → WriteRequest → Memory → Option (WriteRequest × Memory)
add buf r m =
    let (k, m') = alloc m in
    if ltb (length r.bufs) r.capacity
    then some (record r { bufs = r.bufs ++ (record { base = k; bytes = buf } ∷ []) }, m')
    else none

unfoldable pub add_all : List Bytes → WriteRequest → Memory → Option (WriteRequest × Memory)
add_all [] r m = some (r, m)
add_all (b ∷ bs) r m = elim (add b r m) [ none ↦ none | some (r', m') ↦ add_all bs r' m' ]

-- The destructor.
unfoldable pub free_bufs : List UvBuf → Memory → Option Memory
free_bufs [] m = some m
free_bufs (b ∷ bs) m = elim (free b.base m) [ none ↦ none | some m' ↦ free_bufs bs m' ]

unfoldable pub destroy_request : WriteRequest → Memory → Option Memory
destroy_request r m = elim (free_bufs r.bufs m) [ none ↦ none | some m' ↦ free r.array m' ]
