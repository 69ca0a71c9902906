-- ===== src/Listen/Named.antt =====
-- What a node does when it has been told its port (`NodeApp::listenStarted` of node/node.cpp): it
-- makes further calls into libuv, and keeps its name.
use tcpserver_cpp_libuv_samp.Base.{ℕ, ◌≡◌, refl, ap, ◌∙◌, List, [], ◌∷◌, ◌++◌, Bytes, codes}
use tcpserver_cpp_libuv_samp.Base.Int.{ℤ}
use tcpserver_cpp_libuv_samp.Text.{to_string}
use tcpserver_cpp_libuv_samp.World.{Client, App, server_app, client_app, node_app, Call, Uv, World}
use tcpserver_cpp_libuv_samp.App.{closed_app, received_app}
use tcpserver_cpp_libuv_samp.Frame.{After, After-map}
use tcpserver_cpp_libuv_samp.Node.{push_peer}
use tcpserver_cpp_libuv_samp.Listen.{listen_started_by, listen_started}
use tcpserver_cpp_libuv_samp.Kept.Steady.{Steady}
use tcpserver_cpp_libuv_samp.Kept.Trials.{Trials, try_out_connections-Kept}

-- The calls from an earlier trace on.
abbrev pub Extends : List Call → List Call → Type 0
Extends base t = (later : List Call) × (t ≡ later ++ base)

abbrev pub own_name : App → Bytes
own_name (server_app s) = []
own_name client_app = []
own_name (node_app n) = n.name

-- A node that listens has its name from the port.
abbrev pub IsNamed : ℤ → App → Type 0
IsNamed port (server_app s) = Unit
IsNamed port client_app = Unit
IsNamed port (node_app n) = n.name ≡ codes ":" ++ to_string port

pub record Later (base : List Call) (name : Bytes) (w : World) : Type 0 where
  pub trace : Extends base w.trace
  pub same_name : own_name w.app ≡ name

closed_name : (f : ℕ → Client) (i : ℕ) (a : App) → own_name (closed_app f i a) ≡ own_name a
unfolding closed_app
closed_name f i (server_app s) = refl
closed_name f i client_app = refl
closed_name f i (node_app n) = refl

received_name : (f : ℕ → Client) (i : ℕ) (a : App) → own_name (received_app f i a) ≡ own_name a
unfolding received_app
received_name f i (server_app s) = refl
received_name f i client_app = refl
received_name f i (node_app n) = refl

module _ (base : List Call) (name : Bytes) where
  Later-Steady : Steady (Later base name)
  Later-Steady = record {
    clients = λ f w same l. record { trace = l.trace; same_name = l.same_name };
    handles = λ k w l. record { trace = l.trace; same_name = l.same_name };
    calls =
        λ c w l. record { trace = (c ∷ l.trace.0, ap (◌∷◌ c) l.trace.1); same_name = l.same_name };
    closings =
        λ i w l. record { trace = l.trace; same_name = closed_name w.client i w.app ∙ l.same_name };
    entries = λ handle addr w l. record {
      trace = l.trace;
      same_name = received_name _ w.next_client w.app ∙ l.same_name;
    };
  }

  pub Later-Trials : Trials (Later base name)
  unfolding push_peer
  Later-Trials = record {
    steady = Later-Steady;
    dials = λ host port n w l. record { trace = l.trace; same_name = l.same_name };
    tables = λ n m w l. record { trace = l.trace; same_name = l.same_name };
  }

-- What `listenStarted` leaves behind, from the calls before it on.
pub record Started (base : List Call) (port : ℤ) (w : World) : Type 0 where
  pub trace : Extends base w.trace
  pub named : IsNamed port w.app

named_by : (port : ℤ) (a : App) → own_name a ≡ codes ":" ++ to_string port → IsNamed port a
named_by port (server_app s) e = tt
named_by port client_app e = tt
named_by port (node_app n) e = e

module _ (uv : Uv) where
  node-Started :
      (port : ℤ) (w : World) (a : App)
      → After (Started w.trace port) (listen_started_by uv a port (record w { app = a }))
  unfolding listen_started_by
  node-Started port w (server_app s) = record { trace = ([], refl); named = tt }
  node-Started port w client_app = record { trace = ([], refl); named = tt }
  node-Started port w (node_app n) =
      let name = codes ":" ++ to_string port in
      let kept = try_out_connections-Kept uv (Later-Trials w.trace name) in
      After-map _ (Started w.trace port) _
        (λ v l. record { trace = l.trace; named = named_by port v.app l.same_name })
        (kept.at (record w { app = node_app (record n { name = name }) })
          (record { trace = ([], refl); same_name = refl }))

  pub listen_started-Started :
      (port : ℤ) (w : World) → After (Started w.trace port) (listen_started uv port w)
  unfolding listen_started
  listen_started-Started port w = node-Started port w w.app
