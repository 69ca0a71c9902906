-- ===== src/Kept/Steady.antt =====
-- Predicates of the classes of the connections, the tables of the application and the calls
-- (lib/net_client.cpp, lib/net_handler.cpp): they hold on whatever the states, streams and timers
-- are, so that the operations of a connection keep them.
use tcpserver_cpp_libuv_samp.Base.{
  ℕ, suc, ◌==◌, ◌≡◌, refl, Bool, false, Bool-cases, inl, inr, List, [], ◌∷◌, Bytes, Option, none,
  some, arith,
}
use tcpserver_cpp_libuv_samp.Base.Int.{ℤ, is_negative}
use tcpserver_cpp_libuv_samp.Message.{Message}
use tcpserver_cpp_libuv_samp.World.{
  Kind, client_in, client_out, peer_client_out, State, Client, Call, uv_tcp_init, uv_accept, Uv,
  World, set_state, set_stream, set_at, clear_timer, new_client, new_handle, call, ◌>>=◌, ◌>>◌,
}
use tcpserver_cpp_libuv_samp.App.{
  connection_closed, closed_app, dropped_app, stop_timer, destroy_as, destroy, destroy_all,
  in_connection_received, received_app,
}
use tcpserver_cpp_libuv_samp.Client.{
  on_close, close_stream, close, send_message, do_read, has_descriptor, connected_on, is_connected,
  new_client_in,
}
use tcpserver_cpp_libuv_samp.Remote.{remote_address_host_port, remote_address}
use tcpserver_cpp_libuv_samp.Node.{learn_candidate}
use tcpserver_cpp_libuv_samp.Events.{on_new_connection}
use tcpserver_cpp_libuv_samp.Kept.{
  bind-Kept, get_client-Kept, kept, Kept, Laws, then-Kept, pure-Kept, if-Kept,
}

-- The world in which the listening side has taken in a connection on a handle.
abbrev pub taken_in : ℕ → Bytes → World → World
taken_in handle addr w =
    let f = set_at w.client w.next_client (new_client_in handle addr) in
    record w {
      client = f;
      next_client = suc w.next_client;
      app = received_app f w.next_client w.app;
    }

pub record Steady (P : World → Type 0) : Type 0 where
  pub clients :
      (f : ℕ → Client) (w : World)
      → ((j : ℕ) → (f j).kind ≡ (w.client j).kind)
      → P w
      → P (record w { client = f })
  pub handles : (k : ℕ) (w : World) → P w → P (record w { next_handle = k })
  pub calls : (c : Call) (w : World) → P w → P (record w { trace = c ∷ w.trace })
  pub closings : (i : ℕ) (w : World) → P w → P (record w { app = closed_app w.client i w.app })
  pub entries : (handle : ℕ) (addr : Bytes) (w : World) → P w → P (taken_in handle addr w)

-- A write of one connection that leaves its class leaves all classes.
pub set_at-kind :
    (f : ℕ → Client) (i : ℕ) (c : Client)
    → c.kind ≡ (f i).kind
    → (j : ℕ) → (set_at f i c j).kind ≡ (f j).kind
set_at-kind f i c e j = elim (Bool-cases (i == j)) [
  | inl q ↦ let same : i ≡ j = ground arith in rw (q, ← same) e
  | inr q ↦ rw q
]

module _ {P : World → Type 0} (S : Steady P) where
  pub write-Kept :
      (i : ℕ) (f : Client → Client)
      → ((c : Client) → (f c).kind ≡ c.kind)
      → (w : World) → P w
      → P (record w { client = set_at w.client i (f (w.client i)) })
  write-Kept i f same w p = S.clients _ w (set_at-kind w.client i _ (same (w.client i))) p

  state-Kept : (i : ℕ) (s : State) → Kept P (set_state i s)
  state-Kept i s = record { at = write-Kept i (λ c. record c { state = s }) (λ c. refl) }

  stream-Kept : (i : ℕ) (h : Option ℕ) → Kept P (set_stream i h)
  stream-Kept i h = record { at = write-Kept i (λ c. record c { stream = h }) (λ c. refl) }

  timer-Kept : (i : ℕ) → Kept P (clear_timer i)
  timer-Kept i = record { at = write-Kept i (λ c. record c { timer = none }) (λ c. refl) }

  pub any_handle-Kept : Kept P new_handle
  any_handle-Kept = record { at = λ w p. S.handles (suc w.next_handle) w p }

  pub any_call-Kept : (uv : Uv) (c : Call) → Kept P (call uv c)
  any_call-Kept uv c = record { at = S.calls c }

module _ (uv : Uv) {P : World → Type 0} (S : Steady P) where
  destroy_as-Kept : (k : Kind) (i : ℕ) (o : Option ℕ) → Kept P (destroy_as uv k i o)
  unfolding destroy_as stop_timer
  destroy_as-Kept peer_client_out i none = pure-Kept tt
  destroy_as-Kept peer_client_out i (some t) = search (kept, any_call-Kept S, timer-Kept S)
  destroy_as-Kept client_in i o = pure-Kept tt
  destroy_as-Kept client_out i o = pure-Kept tt

  pub destroy_all-Kept : (js : List ℕ) → Kept P (destroy_all uv js)
  unfolding destroy_all destroy
  destroy_all-Kept [] = pure-Kept tt
  destroy_all-Kept (j ∷ js) =
      then-Kept _ _ (bind-Kept _ _ (get_client-Kept j) λ c. destroy_as-Kept c.kind j c.timer)
        (destroy_all-Kept js)

  connection_closed-Kept : (i : ℕ) → Kept P (connection_closed uv i)
  unfolding connection_closed
  connection_closed-Kept i = record {
    at = λ w p.
        (destroy_all-Kept (dropped_app w.client i w.app)).at
          (record w { app = closed_app w.client i w.app }) (S.closings i w p);
  }

  on_close-Kept : (i handle : ℕ) → Kept P (on_close uv i handle)
  unfolding on_close
  on_close-Kept i handle = search (kept, state-Kept S, any_call-Kept S, connection_closed-Kept)

  close_stream-Kept : (i : ℕ) (o : Option ℕ) → Kept P (close_stream uv i o)
  unfolding close_stream
  close_stream-Kept i none = pure-Kept tt
  close_stream-Kept i (some handle) =
      search (kept, stream-Kept S, any_call-Kept S, on_close-Kept) depth 8

  close-Kept : (i : ℕ) → Kept P (close uv i)
  unfolding close
  close-Kept i = search (kept, state-Kept S, close_stream-Kept) depth 8

  send_message-Kept : (i : ℕ) (m : Message) → Kept P (send_message uv i m)
  unfolding send_message
  send_message-Kept i m = search (kept, state-Kept S, any_call-Kept S, close-Kept) depth 9

  do_read-Kept : (i : ℕ) → Kept P (do_read uv i)
  unfolding do_read
  do_read-Kept i = search (kept, state-Kept S, any_call-Kept S, close-Kept) depth 9

  has_descriptor-Kept : (handle : ℕ) → Kept P (has_descriptor uv handle)
  unfolding has_descriptor
  has_descriptor-Kept handle = search (kept, any_call-Kept S) depth 8

  connected_on-Kept : (offline : Bool) (o : Option ℕ) → Kept P (connected_on uv offline o)
  unfolding connected_on
  connected_on-Kept offline none = pure-Kept false
  connected_on-Kept offline (some handle) = search (kept, has_descriptor-Kept)

  is_connected-Kept : (i : ℕ) → Kept P (is_connected uv i)
  unfolding is_connected
  is_connected-Kept i = search (kept, connected_on-Kept)

  remote_host_port-Kept : (handle : ℕ) → Kept P (remote_address_host_port uv handle)
  unfolding remote_address_host_port
  remote_host_port-Kept handle = search (kept, any_call-Kept S)

  remote_address-Kept : (handle : ℕ) → Kept P (remote_address uv handle)
  unfolding remote_address
  remote_address-Kept handle = search (kept, remote_host_port-Kept)

  taken_in-Kept :
      (handle : ℕ) (addr : Bytes)
      → Kept P
          (new_client (new_client_in handle addr) >>= λ i. in_connection_received i >> do_read uv i)
  unfolding in_connection_received
  taken_in-Kept handle addr = record {
    at =
        λ w p. (do_read-Kept w.next_client).at (taken_in handle addr w) (S.entries handle addr w p);
  }

  on_new_connection-Kept : (server : ℕ) (status : ℤ) → Kept P (on_new_connection uv server status)
  unfolding on_new_connection
  on_new_connection-Kept server status = if-Kept (is_negative status) _ _ (pure-Kept tt) (
      bind-Kept _ _ (any_handle-Kept S) λ handle.
        bind-Kept _ _ (any_call-Kept S uv (uv_tcp_init handle)) λ _.
          bind-Kept _ _ (any_call-Kept S uv (uv_accept server handle)) λ res.
            if-Kept (is_negative res) _ _ (pure-Kept tt)
              (bind-Kept _ _ (remote_address-Kept handle) λ addr. taken_in-Kept handle addr))

  pub steady_laws : ((host : Bytes) (port : ℤ) → Kept P (learn_candidate uv host port)) → Laws uv P
  steady_laws learns = record {
    updates = λ i f w same p. write-Kept S i f (λ c. (same c).1) w p;
    handles = λ w p. S.handles (suc w.next_handle) w p;
    calls = λ c w plain p. S.calls c w p;
    sends = send_message-Kept;
    reads = do_read-Kept;
    closes = close-Kept;
    ends = on_close-Kept;
    checks = is_connected-Kept;
    learns = learns;
    accepts = on_new_connection-Kept;
  }
