-- ===== src/Router/Ports.antt =====
-- pkg/router/port_list.go, loop_list.go and port_manager.go. Every bind is made by Alloc or Open and
-- stored under one port, so a write through its pointer is a write to that port's entry.
-- An app connection (*app.Protocol) is a number that stands for the pointer.
pub mod Alloc
pub mod Loops
pub mod Conns
use skywire_mainnet_old.Base.{
  ℕ, zero, suc, ◌+◌, ◌-◌, Bool, true, false, List, [], ◌∷◌, ◌++◌, map, Option, none, some, Map,
  lookup, insert, remove, Outcome, ok, err, panic, or_err, ◌>>=◌, port_already_bound,
  port_not_bound, unknown_loop, nat_eq, contains, if◌then◌else◌, ◌==◌, nat_beq, replicate, list_eq,
}
use skywire_mainnet_old.Routing.Addr.{Addr, addr_eq, Port, RouteId, TransportId}

-- loop_list.go

-- The forwarding transport and route of a loop.
pub record LoopEntry : Type 0 where
  pub tr_id : TransportId
  pub route_id : RouteId

abbrev pub LoopList : Type 0
LoopList = Map Addr LoopEntry

-- The keys; despite its name, the method leaves the list as it is.
unfoldable pub drop_all : LoopList → List Addr
drop_all ll = map (λ e. e.0) ll

-- port_list.go

abbrev pub ConnId : Type 0
ConnId = ℕ

pub record PortBind : Type 0 where
  pub conn : ConnId
  pub loops : LoopList

pub record PortList : Type 0 where
  pub min_port : Port
  pub ports : Map Port PortBind

-- `for i := …; i < math.MaxUint16; i++` with the rounds left; the panic is the end of the loop.
unfoldable pub add_from :
    ℕ → Port → PortBind → Map Port PortBind → Outcome (Port × Map Port PortBind)
add_from zero i b ports = panic
add_from (suc rounds) i b ports =
    let rest = add_from rounds (i + 1) b ports in
    elim (lookup i ports) [ none ↦ ok (i, insert i b ports) | some _ ↦ rest ]

abbrev pub max_port : Port
max_port = 65535

unfoldable pub add_port : PortBind → PortList → Outcome (Port × PortList)
add_port b pl = do
  (i, ports) ← add_from (max_port - pl.min_port) pl.min_port b pl.ports
  ok (i, record pl { ports = ports })

unfoldable pub set_port : Port → PortBind → PortList → PortList
set_port port b pl = record pl { ports = insert port b pl.ports }

unfoldable pub get_port : Port → PortList → Option PortBind
get_port port pl = lookup port pl.ports

unfoldable pub remove_port : Port → PortList → Option PortBind × PortList
remove_port port pl = (lookup port pl.ports, record pl { ports = remove port pl.ports })

-- port_manager.go: the manager is its port list.

unfoldable pub new_port_manager : Port → PortList
new_port_manager min_port = record { min_port = min_port; ports = [] }

unfoldable pub alloc : ConnId → PortList → Outcome (Port × PortList)
alloc conn pm = add_port (record { conn = conn; loops = [] }) pm

unfoldable pub open_port : Port → ConnId → PortList → PortList × Outcome (Unit {0})
open_port port proto pm = elim (get_port port pm) [
  | none ↦ (set_port port (record { conn = proto; loops = [] }) pm, ok tt)
  | some _ ↦ (pm, err port_already_bound)
]

-- `b.loops.set(raddr, l)`, through the pointer that the port list holds
unfoldable pub set_loop : Port → Addr → LoopEntry → PortList → PortList × Outcome (Unit {0})
set_loop port raddr l pm = elim (get_port port pm) [
  | none ↦ (pm, err port_not_bound)
  | some b ↦ (set_port port (record b { loops = insert raddr l b.loops }) pm, ok tt)
]

-- The loop of AppConns over the binds: `set` is the map of the connections seen.
unfoldable pub app_conns_loop : Map Port PortBind → List ConnId → List ConnId → List ConnId
app_conns_loop [] set res = res
app_conns_loop ((port, bind) ∷ rest) set res =
    let seen = contains bind.conn set in
    app_conns_loop rest (if seen then set else bind.conn ∷ set)
      (if seen then res else res ++ bind.conn ∷ [])

unfoldable pub app_conns : PortList → List ConnId
unfolding app_conns_loop
app_conns pm = app_conns_loop pm.ports [] []

unfoldable pub app_ports_loop : ConnId → Map Port PortBind → List Port → List Port
app_ports_loop conn [] res = res
app_ports_loop conn ((port, bind) ∷ rest) res =
    app_ports_loop conn rest (if nat_beq bind.conn conn then res ++ port ∷ [] else res)

unfoldable pub app_ports : ConnId → PortList → List Port
unfolding app_ports_loop
app_ports conn pm = app_ports_loop conn pm.ports []

abbrev pub dropped : Option PortBind → List Addr
dropped none = []
dropped (some b) = drop_all b.loops

unfoldable pub close_port : Port → PortList → PortList × List Addr
close_port port pm = let (b, pm') = remove_port port pm in (pm', dropped b)

unfoldable pub get_bind : Port → PortList → Outcome PortBind
get_bind port pm = or_err port_not_bound (get_port port pm)

unfoldable pub remove_loop : Port → Addr → PortList → PortList × Outcome (Unit {0})
remove_loop port raddr pm = elim (get_bind port pm) [
  | ok b ↦ (set_port port (record b { loops = remove raddr b.loops }) pm, ok tt)
  | err e ↦ (pm, err e)
  | panic ↦ (pm, panic)
]

unfoldable pub get_loop : Port → Addr → PortList → Outcome LoopEntry
get_loop local_port remote_addr pm = do
  b ← get_bind local_port pm
  or_err unknown_loop (lookup remote_addr b.loops)
