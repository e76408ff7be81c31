-- ===== src/Programs.antt =====
-- The programs of client.cpp, server.cpp and relay_cli.cpp: an engine, a transport, and what is
-- printed.
pub mod Client
pub mod Server
pub mod Relay
pub mod Talking
use pqc_messaging_app.Prelude.{ℕ, List, [], ◌∷◌, ◌++◌, Bytes}
use pqc_messaging_app.Exec.{M, modify, zoom}
use pqc_messaging_app.Engine.{ConnectionEngine}
use pqc_messaging_app.Engine.Handshake.{Conn}

-- A line on `std::cout` or `std::cerr`; one with a number between two texts.
pub data Printed : Type 0 where
  out : Bytes → Printed
  err : Bytes → Printed
  out_count : Bytes → ℕ → Bytes → Printed

pub record Console (T : Type 0) : Type 0 where
  pub engine : ConnectionEngine
  pub net : T
  pub printed : List Printed

module _ {T : Type 0} where
  unfoldable pub print : Printed → M (Console T) Unit
  print line = modify (λ c. record c { printed = c.printed ++ (line ∷ []) })

  abbrev pub on_engine : {A : Type 0} → M ConnectionEngine A → M (Console T) A
  on_engine = zoom (λ (c : Console T). c.engine) (λ e c. record c { engine = e })

  abbrev pub on_transport : {A : Type 0} → M T A → M (Console T) A
  on_transport = zoom (λ (c : Console T). c.net) (λ n c. record c { net = n })

  -- The engine with the transport of its callbacks.
  abbrev pub on_conn : {A : Type 0} → M (Conn T) A → M (Console T) A
  on_conn =
      zoom (λ (c : Console T). record { engine = c.engine; net = c.net })
        (λ d c. record c { engine = d.engine; net = d.net })
