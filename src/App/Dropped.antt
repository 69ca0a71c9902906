-- ===== src/App/Dropped.antt =====
-- The destructors that `connectionClosed` runs (lib/app.cpp, node/node.cpp, node/peer_conn.cpp).
use tcpserver_cpp_libuv_samp.World.Steps.{bind_step}
use tcpserver_cpp_libuv_samp.Base.{
  ℕ, ◌≡◌, refl, ◌∙◌, ◌==◌, Bool-cases, inl, inr, List, [], ◌∷◌, Option, none, some, arith,
}
use tcpserver_cpp_libuv_samp.Base.Outcome.{ok}
use tcpserver_cpp_libuv_samp.World.{
  Kind, client_in, client_out, peer_client_out, uv_timer_stop, Uv, World, set_at,
}
use tcpserver_cpp_libuv_samp.App.{stop_timer, destroy_as, destroy, destroy_all}

-- The world behind the destructors.
unfoldable pub destroyed_timer : ℕ → Option ℕ → World → World
destroyed_timer i none w = w
destroyed_timer i (some timer) w = record w {
  client = set_at w.client i (record (w.client i) { timer = none });
  trace = uv_timer_stop timer ∷ w.trace;
}

unfoldable pub destroyed_as : Kind → ℕ → Option ℕ → World → World
unfolding destroyed_timer
destroyed_as peer_client_out i timer w = destroyed_timer i timer w
destroyed_as client_in i timer w = w
destroyed_as client_out i timer w = w

unfoldable pub destroyed : List ℕ → World → World
destroyed [] w = w
destroyed (j ∷ js) w = destroyed js (destroyed_as (w.client j).kind j (w.client j).timer w)

-- The destructors leave the application, and every connection's stream and state.
pub record IsSpared (w v : World) : Type 0 where
  pub app : v.app ≡ w.app
  pub streams : (i : ℕ) → (v.client i).stream ≡ (w.client i).stream
  pub states : (i : ℕ) → (v.client i).state ≡ (w.client i).state

IsSpared-refl : (w : World) → IsSpared w w
IsSpared-refl w = record { app = refl; streams = λ i. refl; states = λ i. refl }

timer-IsSpared : (j : ℕ) (o : Option ℕ) (w : World) → IsSpared w (destroyed_timer j o w)
unfolding destroyed_timer
timer-IsSpared j none w = IsSpared-refl w
timer-IsSpared j (some t) w = record { app = refl; streams = streams; states = states }
  where
    streams :
        (i : ℕ)
        → (set_at w.client j (record (w.client j) { timer = none }) i).stream ≡ (w.client i).stream
    streams i = elim (Bool-cases (j == i)) [
      | inl e ↦ let same : j ≡ i = ground arith in rw (e, same)
      | inr e ↦ rw e
    ]

    states :
        (i : ℕ)
        → (set_at w.client j (record (w.client j) { timer = none }) i).state ≡ (w.client i).state
    states i = elim (Bool-cases (j == i)) [
      | inl e ↦ let same : j ≡ i = ground arith in rw (e, same)
      | inr e ↦ rw e
    ]

as-IsSpared : (k : Kind) (j : ℕ) (o : Option ℕ) (w : World) → IsSpared w (destroyed_as k j o w)
unfolding destroyed_as
as-IsSpared peer_client_out j o w = timer-IsSpared j o w
as-IsSpared client_in j o w = IsSpared-refl w
as-IsSpared client_out j o w = IsSpared-refl w

pub destroyed-IsSpared : (js : List ℕ) (w : World) → IsSpared w (destroyed js w)
unfolding destroyed
destroyed-IsSpared [] w = IsSpared-refl w
destroyed-IsSpared (j ∷ js) w =
    let one = as-IsSpared (w.client j).kind j (w.client j).timer w in
    let rest = destroyed-IsSpared js (destroyed_as (w.client j).kind j (w.client j).timer w) in
    record {
      app = rest.app ∙ one.app;
      streams = λ i. rest.streams i ∙ one.streams i;
      states = λ i. rest.states i ∙ one.states i;
    }

module _ (uv : Uv) where
  destroy_as-destroyed :
      (k : Kind) (j : ℕ) (o : Option ℕ) (w : World)
      → destroy_as uv k j o w ≡ ok (tt, destroyed_as k j o w)
  unfolding destroy_as stop_timer destroyed_as
  destroy_as-destroyed peer_client_out j none w = refl
  destroy_as-destroyed peer_client_out j (some t) w = refl
  destroy_as-destroyed client_in j o w = refl
  destroy_as-destroyed client_out j o w = refl

  pub destroy_all-destroyed :
      (js : List ℕ) (w : World) → destroy_all uv js w ≡ ok (tt, destroyed js w)
  unfolding destroy_all destroy destroyed
  destroy_all-destroyed [] w = refl
  destroy_all-destroyed (j ∷ js) w =
      bind_step (destroy uv j) (λ _. destroy_all uv js) w
        (destroy_as-destroyed (w.client j).kind j (w.client j).timer w)
      ∙ destroy_all-destroyed js _
