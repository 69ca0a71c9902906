-- ===== src/Requests/Balance.antt =====
-- The blocks of a write request of lib/uv_socket.cpp, from its constructor to its destructor.
use tcpserver_cpp_libuv_samp.Base.{
  ℕ, zero, suc, ◌+◌, ◌==◌, ◌≤◌, ◌≡◌, refl, sym, ap, ◌∙◌, arith, ltb, true, false, List, [], ◌∷◌,
  ◌++◌, map, append_assoc, append-nil, Option, none, some, Bytes, length, length-append,
  if◌then◌else◌,
}
use tcpserver_cpp_libuv_samp.Requests.{
  Memory, alloc, erase, free, UvBuf, WriteRequest, new_write_request, add, add_all, free_bufs,
  destroy_request,
}

-- The blocks from `k` on in front of others, newest first, and the buffers that they hold.
abbrev blocks : ℕ → ℕ → List ℕ → List ℕ
blocks k zero base = base
blocks k (suc j) base = (k + j) ∷ blocks k j base

abbrev numbered : ℕ → List Bytes → List UvBuf
numbered k [] = []
numbered k (b ∷ bs) = record { base = k; bytes = b } ∷ numbered (k + 1) bs

blocks_shift : (k j : ℕ) (base : List ℕ) → blocks (k + 1) j (k ∷ base) ≡ blocks k (suc j) base
blocks_shift k zero base = ap (λ n. n ∷ base) (omega arith)
blocks_shift k (suc j) base =
    let same : (k + 1) + j ≡ k + suc j = omega arith in
    ap (λ n. n ∷ blocks (k + 1) j (k ∷ base)) same ∙ ap (◌∷◌ (k + suc j)) (blocks_shift k j base)

erase-blocks :
    (k j : ℕ) (base : List ℕ) → erase k (blocks k (suc j) base) ≡ some (blocks (k + 1) j base)
unfolding erase
erase-blocks k zero base = let same : (k + 0 == k) ≡ true = ground arith in rw same
erase-blocks k (suc j) base =
    let other : (k + suc j == k) ≡ false = ground arith in
    let same : k + suc j ≡ (k + 1) + j = omega arith in
    rw (other, erase-blocks k j base) (ap (λ n. some (n ∷ blocks (k + 1) j base)) same)

map-numbered : (k : ℕ) (bs : List Bytes) → map (λ (b : UvBuf). b.bytes) (numbered k bs) ≡ bs
map-numbered k [] = refl
map-numbered k (b ∷ bs) = ap (◌∷◌ b) (map-numbered (k + 1) bs)

-- A request with its buffers, and the memory around it.
abbrev filled : WriteRequest → List UvBuf → ℕ → List ℕ → Option (WriteRequest × Memory)
filled r bufs n live = some (record r { bufs = bufs }, record { next = n; live = live })

add-filled :
    (b : Bytes) (r : WriteRequest) (m : Memory)
    → suc (length r.bufs) ≤ r.capacity
    → add b r m
      ≡ filled r
          (r.bufs ++ (record { base = m.next; bytes = b } ∷ []))
          (suc m.next)
          (m.next ∷ m.live)
unfolding add alloc
add-filled b r m le =
    let room : ltb (length r.bufs) r.capacity ≡ true = ground (arith, le) in
    ap
      (λ c.
        if c
        then filled r (r.bufs ++ (record { base = m.next; bytes = b } ∷ [])) (suc m.next)
            (m.next ∷ m.live)
        else none)
      room

add_all-filled :
    (bs : List Bytes) (r : WriteRequest) (m : Memory)
    → length r.bufs + length bs ≤ r.capacity
    → add_all bs r m
      ≡ filled r
          (r.bufs ++ numbered m.next bs)
          (m.next + length bs)
          (blocks m.next (length bs) m.live)
unfolding add_all
add_all-filled [] r m le =
    let same : m.next ≡ m.next + 0 = omega arith in
    ap (λ bufs. filled r bufs m.next m.live) (sym (append-nil r.bufs))
    ∙ ap (λ n. filled r (r.bufs ++ []) n m.live) same
add_all-filled (b ∷ bs) r m le =
    let x : UvBuf = record { base = m.next; bytes = b } in
    let r' = record r { bufs = r.bufs ++ (x ∷ []) } in
    let m' : Memory = record { next = suc m.next; live = m.next ∷ m.live } in
    let fits : length r'.bufs + length bs ≤ r.capacity =
      omega (arith, length-append r.bufs (x ∷ [])) in
    let one : suc m.next ≡ m.next + 1 = omega arith in
    let far : (m.next + 1) + length bs ≡ m.next + suc (length bs) = omega arith in
    ap
      (λ (o : Option (WriteRequest × Memory)). elim o as (λ y. Option (WriteRequest × Memory)) [
        | none ↦ none
        | some (q, v) ↦ add_all bs q v
      ])
      (add-filled b r m (omega arith))
    ∙ (add_all-filled bs r' m' fits
        ∙ ap
            (λ n.
              filled r ((r.bufs ++ (x ∷ [])) ++ numbered n bs) (n + length bs)
                (blocks n (length bs) (m.next ∷ m.live)))
            one
        ∙ ap
            (λ bufs.
              filled r bufs ((m.next + 1) + length bs)
                (blocks (m.next + 1) (length bs) (m.next ∷ m.live)))
            (append_assoc r.bufs (x ∷ []) (numbered (m.next + 1) bs))
        ∙ ap
            (λ n.
              filled r (r.bufs ++ (x ∷ numbered (m.next + 1) bs)) n
                (blocks (m.next + 1) (length bs) (m.next ∷ m.live)))
            far
        ∙ ap (filled r (r.bufs ++ (x ∷ numbered (m.next + 1) bs)) (m.next + suc (length bs)))
            (blocks_shift m.next (length bs) m.live))

free_bufs-numbered :
    (bs : List Bytes) (k n : ℕ) (base : List ℕ)
    → free_bufs (numbered k bs) (record { next = n; live = blocks k (length bs) base })
      ≡ some (record { next = n; live = base })
unfolding free_bufs free
free_bufs-numbered [] k n base = refl
free_bufs-numbered (b ∷ bs) k n base =
    ap
      (λ (o : Option (List ℕ)).
        elim (elim o as (λ x. Option Memory) [
          | none ↦ none
          | some ks ↦ some (record { next = n; live = ks })
        ])
          as (λ x. Option Memory) [ none ↦ none | some m' ↦ free_bufs (numbered (k + 1) bs) m' ])
      (erase-blocks k (length bs) base)
    ∙ free_bufs-numbered bs (k + 1) n base

free_newest :
    (k n : ℕ) (js : List ℕ)
    → free k (record { next = n; live = k ∷ js }) ≡ some (record { next = n; live = js })
unfolding free erase
free_newest k n js =
    let self : (k == k) ≡ true = ground arith in
    ap
      (λ b.
        elim (if b then some js else elim (erase k js) as (λ x. Option (List ℕ)) [
          | none ↦ none
          | some ks ↦ some (k ∷ ks)
        ])
          as (λ x. Option Memory) [ none ↦ none | some ks ↦ some (record { next = n; live = ks }) ])
      self

-- A write request for at most as many buffers as its array has room for: every `add` stays in the
-- bounds of the array, the request then holds copies of the buffers in their order, its destructor
-- frees no block twice, and afterwards exactly the blocks are allocated that were allocated before.
pub destroy_request-add_all :
    (socket n : ℕ) (bs : List Bytes) (m : Memory)
    → length bs ≤ n
    → (r : WriteRequest) × (m1 m2 : Memory) × (add_all bs
          (new_write_request socket n m).0
          (new_write_request socket n m).1
        ≡ some (r, m1))
      × (map (λ (b : UvBuf). b.bytes) r.bufs ≡ bs)
      × (destroy_request r m1 ≡ some m2)
      × (m2.live ≡ m.live)
unfolding new_write_request alloc destroy_request free
destroy_request-add_all socket n bs m le =
    let k = suc m.next in
    let r : WriteRequest = record { uv_socket = socket; array = m.next; capacity = n; bufs = [] } in
    let m0 : Memory = record { next = k; live = m.next ∷ m.live } in
    (
      record r { bufs = numbered k bs },
      record { next = k + length bs; live = blocks k (length bs) (m.next ∷ m.live) },
      record { next = k + length bs; live = m.live },
      add_all-filled bs r m0 (omega arith),
      map-numbered k bs,
      ap
            (λ (o : Option Memory). elim o as (λ x. Option Memory) [
              | none ↦ none
              | some v ↦ free m.next v
            ])
            (free_bufs-numbered bs k (k + length bs) (m.next ∷ m.live))
          ∙ free_newest m.next (k + length bs) m.live,
      refl,
    )
