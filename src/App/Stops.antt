-- ===== src/App/Stops.antt =====
-- The calls of the destructors that `connectionClosed` of node/node.cpp runs (node/peer_conn.cpp).
use tcpserver_cpp_libuv_samp.Base.{
  IsIn, ℕ, ◌≡◌, ◌++◌, append_assoc, sym, refl, ap, ◌∙◌, ◌==◌, true, false, Bool-cases, inl, inr,
  List, [], ◌∷◌, Option, none, some, arith,
}
use tcpserver_cpp_libuv_samp.World.{
  Kind, client_in, client_out, peer_client_out, Client, Call, uv_timer_stop, World,
}
use tcpserver_cpp_libuv_samp.App.Dropped.{destroyed_timer, destroyed_as, destroyed}

IsIn-last : (xs : List Call) (x : Call) → IsIn x (xs ++ (x ∷ []))
IsIn-last [] x = inl refl
IsIn-last (y ∷ xs) x = inr (IsIn-last xs x)

IsIn-left : (xs ys : List Call) (x : Call) → IsIn x xs → IsIn x (xs ++ ys)
IsIn-left [] ys x h = absurd h
IsIn-left (y ∷ xs) ys x (inl e) = inl e
IsIn-left (y ∷ xs) ys x (inr h) = inr (IsIn-left xs ys x h)

-- A destructor only adds calls.
as-trace :
    (k : Kind) (j : ℕ) (o : Option ℕ) (w : World)
    → (added : List Call) × ((destroyed_as k j o w).trace ≡ added ++ w.trace)
unfolding destroyed_as destroyed_timer
as-trace client_in j o w = ([], refl)
as-trace client_out j o w = ([], refl)
as-trace peer_client_out j none w = ([], refl)
as-trace peer_client_out j (some t) w = (uv_timer_stop t ∷ [], refl)

destroyed-trace :
    (js : List ℕ) (w : World) → (added : List Call) × ((destroyed js w).trace ≡ added ++ w.trace)
unfolding destroyed
destroyed-trace [] w = ([], refl)
destroyed-trace (j ∷ js) w =
    let (one, e) = as-trace (w.client j).kind j (w.client j).timer w in
    let (rest, f) = destroyed-trace js (destroyed_as (w.client j).kind j (w.client j).timer w) in
    (rest ++ one, f ∙ ap (λ x. rest ++ x) e ∙ sym (append_assoc rest one w.trace))

own-trace :
    (k : Kind) (j t : ℕ) (o : Option ℕ) (w : World)
    → k ≡ peer_client_out
    → o ≡ some t
    → (destroyed_as k j o w).trace ≡ uv_timer_stop t ∷ w.trace
unfolding destroyed_as destroyed_timer
own-trace client_in j t o w p e = cc
own-trace client_out j t o w p e = cc
own-trace peer_client_out j t none w p e = cc
own-trace peer_client_out j t (some s) w p e = let same : s ≡ t = ground arith in rw same refl

as-other :
    (k : Kind) (j : ℕ) (o : Option ℕ) (w : World) (i : ℕ)
    → (j == i) ≡ false
    → (destroyed_as k j o w).client i ≡ w.client i
unfolding destroyed_as destroyed_timer
as-other client_in j o w i e = refl
as-other client_out j o w i e = refl
as-other peer_client_out j none w i e = refl
as-other peer_client_out j (some t) w i e = rw e refl

-- The timer of a connection that is destroyed is stopped.
pub destroyed-stops :
    (js : List ℕ) (w : World) (i t : ℕ)
    → IsIn i js
    → (w.client i).kind ≡ peer_client_out
    → (w.client i).timer ≡ some t
    → (added : List Call) × ((destroyed js w).trace ≡ added ++ w.trace)
      × IsIn (uv_timer_stop t) added
unfolding destroyed
destroyed-stops [] w i t h k e = absurd h
destroyed-stops (j ∷ js) w i t h k e =
    let next = destroyed_as (w.client j).kind j (w.client j).timer w in
    elim (Bool-cases (j == i)) [
      | inl own ↦
          let same : j ≡ i = ground (arith, own) in
          let first : next.trace ≡ uv_timer_stop t ∷ w.trace =
            own-trace (w.client j).kind j t (w.client j).timer w (rw same k) (rw same e) in
          let (rest, f) = destroyed-trace js next in
          (
            rest ++ (uv_timer_stop t ∷ []),
            f ∙ ap (λ x. rest ++ x) first ∙ sym (append_assoc rest (uv_timer_stop t ∷ []) w.trace),
            IsIn-last rest (uv_timer_stop t),
          )
      | inr other ↦
          let same = as-other (w.client j).kind j (w.client j).timer w i other in
          let later : IsIn i js = elim h [
            | inl s ↦ let bad : (j == i) ≡ true = ground (arith, s) in cc
            | inr l ↦ l
          ] in
          let (rest, f, g) =
            destroyed-stops js next i t later (ap (λ (c : Client). c.kind) same ∙ k)
              (ap (λ (c : Client). c.timer) same ∙ e) in
          let (one, q) = as-trace (w.client j).kind j (w.client j).timer w in
          (
            rest ++ one,
            f ∙ ap (λ x. rest ++ x) q ∙ sym (append_assoc rest one w.trace),
            IsIn-left rest one (uv_timer_stop t) g,
          )
    ]
