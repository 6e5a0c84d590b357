-- ===== src/Router/Apps.antt =====
-- pkg/router/app_manager.go and ServeApp of router.go: the requests of an app, from the time it is
-- served until its connection ends. Strings are their bytes; encoding/json is a parameter.
use skywire_mainnet_old.Base.{
  ℕ, List, [], ◌∷◌, Option, none, some, Bytes, Outcome, ok, err, or_err, list_eq, nat_eq, nat_beq,
  if◌then◌else◌, ◌==◌, ◌>>=◌ as ◌&>◌, malformed_json, unsupported_version, unexpected_app,
  unexpected_version, unexpected_frame,
}
use skywire_mainnet_old.Base.Step.{Step, ◌>>=◌, ◌>>◌, pure, lift, logged}
use skywire_mainnet_old.Routing.Addr.{Addr, PubKey, Port, Loop}
use skywire_mainnet_old.Router.Ports.{ConnId, open_port, close_port, app_ports}
use skywire_mainnet_old.Router.State.{AppPacket, Outside, State, on_ports, zero_key}
use skywire_mainnet_old.Router.Packets.{forward_app_packet}
use skywire_mainnet_old.Router.Loops.{request_loop, close_app_loop}
use skywire_mainnet_old.Setup.Json.{Json}

-- app.Config
pub record AppConfig : Type 0 where
  pub app_name : Bytes
  pub app_version : Bytes
  pub protocol_version : Bytes

-- json.Unmarshal into the types that the app manager reads.
pub record AppJson : Type 0 where
  pub unmarshal_config : Bytes → Option AppConfig
  pub unmarshal_addr : Bytes → Option Addr
  pub unmarshal_loop : Bytes → Option Loop
  pub unmarshal_packet : Bytes → Option AppPacket

-- FrameInit and the types after it, by iota
abbrev pub frame_init : ℕ
frame_init = 0

abbrev pub frame_create_loop : ℕ
frame_create_loop = 1

abbrev pub frame_send_type : ℕ
frame_send_type = 3

abbrev pub frame_close_type : ℕ
frame_close_type = 4

-- "0.0.1"
abbrev pub supported_protocol_version : Bytes
supported_protocol_version = 48 ∷ 46 ∷ 48 ∷ 46 ∷ 49 ∷ []

unfoldable pub check_config : AppConfig → AppConfig → Outcome (Unit {0})
check_config own config =
    if config.protocol_version == supported_protocol_version
    then (if own.app_name == config.app_name
        then (if own.app_version == config.app_version then ok tt else err unexpected_version)
        else err unexpected_app)
    else err unsupported_version

module _ (app_json : AppJson) where
  unfoldable pub init_app : AppConfig → Bytes → Outcome (Unit {0})
  init_app own body = or_err malformed_json (app_json.unmarshal_config body) &> check_config own

module _ (unmarshal_pk : Bytes → Option PubKey) (json : Json) (outside : Outside) (own_key : PubKey)
    (setup_nodes : List PubKey) where
  -- Close and closeLoop for the loops of one port; a failure is only logged.
  unfoldable pub close_loops : Port → List Addr → Step State (Unit {0})
  close_loops port [] = pure tt
  close_loops port (addr ∷ addrs) = do
    logged (
        close_app_loop unmarshal_pk json outside own_key setup_nodes
          (record { local = record { pub_key = zero_key; port = port }; remote = addr }))
    close_loops port addrs

  unfoldable pub close_ports : List Port → Step State (Unit {0})
  close_ports [] = pure tt
  close_ports (port ∷ ports) = do
    addrs ← on_ports (λ pm. let (pm', gone) = close_port port pm in (pm', ok gone))
    close_loops port addrs
    close_ports ports

  -- ServeApp before and after the loop that serves the app.
  unfoldable pub serve_app_start : ConnId → Port → Step State (Unit {0})
  serve_app_start conn port = do
    on_ports (open_port port conn)
    λ s. (record s { host = record (s.host) { static_ports = port ∷ s.host.static_ports } }, ok tt)

  unfoldable pub without_port : Port → List Port → List Port
  without_port port [] = []
  without_port port (p ∷ ports) =
      let rest = without_port port ports in if nat_beq p port then rest else p ∷ rest

  unfoldable pub serve_app_end : ConnId → Port → Step State (Unit {0})
  unfolding without_port
  serve_app_end conn port = do
    ports ← (λ s. (s, ok (app_ports conn s.host.pm)))
    close_ports ports
    λ s. (
      record s { host = record (s.host) { static_ports = without_port port s.host.static_ports } },
      ok tt,
    )

  module _ (app_json : AppJson) (own : AppConfig) (conn : ConnId) where
    -- The function that appManager.Serve hands to the protocol; the result of CreateLoop is an address.
    unfoldable pub handle_app_frame : ℕ → Bytes → Step State (Option Addr)
    handle_app_frame frame body =
        if nat_beq frame frame_init
        then (do lift (init_app app_json own body); pure none)
        else if nat_beq frame frame_create_loop
        then (do
          raddr ← lift (or_err malformed_json (app_json.unmarshal_addr body))
          laddr ← request_loop unmarshal_pk json outside own_key setup_nodes conn raddr
          pure (some laddr))
        else if nat_beq frame frame_close_type
        then (do
          loop ← lift (or_err malformed_json (app_json.unmarshal_loop body))
          close_app_loop unmarshal_pk json outside own_key setup_nodes loop
          pure none)
        else if nat_beq frame frame_send_type
        then (do
          packet ← lift (or_err malformed_json (app_json.unmarshal_packet body))
          forward_app_packet unmarshal_pk outside own_key packet
          pure none)
        else lift (err unexpected_frame)
