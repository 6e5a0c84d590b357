-- ===== src/Lib.antt =====
-- skywire-mainnet: the routing core of a visor and of the setup node, the transports they use and the
-- accounts of the hypervisor.
--
-- A visor keeps routing rules under numeric route IDs (pkg/routing), a table of them with the time of
-- each rule's last use, and a list of ports with the loops of the apps (pkg/router). The setup node
-- makes a loop between two visors (pkg/setup): it asks each visor on the two routes for route IDs,
-- makes the forward rules and the two app rules of these IDs, and sends them in the packets of the
-- setup protocol.
--
-- Base: numbers, lists, maps, the results of Go calls, byte slices and streams. A Go call that can
--   fail returns `Outcome`: a value, an error or a panic. A slice index out of range is a panic.
-- Routing/Addr, Routing/Rule, Routing/Packet, Routing/Table: pkg/routing/addr.go, loop.go, route.go,
--   rule.go, packet.go, routing_table.go. A rule is its bytes: Rule.KeepAlive is keep_alive, AppRule
--   is new_app_rule, ForwardRule is new_forward_rule. Table.AddRule, SetRule, Rule, RangeRules,
--   DeleteRules and Count are add_rule, set_rule, find_rule, range_rules, delete_rules and count. So are
--   the methods of boltdb_routing_table.go in Routing/BoltTable.
-- Router/Ports: pkg/router/port_list.go, loop_list.go, port_manager.go; portManager.Open is open_port,
--   Close is close_port, Get is get_bind.
-- Router/Managed: pkg/router/managed_routing_table.go; Rule is find_rule.
-- Router/RouteManager: pkg/router/route_manager.go. Its state is the host's state and the table, since
--   the callbacks of the router act on both.
-- Router/State, Router/Packets, Router/Loops, Router/Apps: pkg/router/router.go and app_manager.go. What
--   the router calls outside of it is the record Outside, what it has sent is kept in its state.
-- Setup/Node: pkg/setup/node.go. App/Frames: pkg/app/protocol.go.
-- Transport/Entry, Discovery, Handshake, Managed, Manager: the files of pkg/transport. A connection is
--   the bytes that the peer will send, what each Write returns, and what was written. Keeping, Ending
--   and Steps of Managed say what a step keeps and what follows from it for every sequence of steps.
--   Manager is the map of managed transports by ID, with the calls that make, delete and close them.
-- Net/Porter, Net/PkTable, Net/Retrier: pkg/snet/stcp/porter.go, pktable.go and
--   internal/netutil/retrier.go. Net/HttpAuth: internal/httpauth/client.go and Sign of auth.go. The body
--   of a request is a buffer, which the HTTP client reads to its end; GetBody may give it again.
-- Hypervisor/Users, Hypervisor/Sessions: pkg/hypervisor/user.go and user_manager.go.
-- Setup/Rules: pkg/setup/idreservoir.go. Setup/Json and Setup/Protocol: pkg/setup/protocol.go.
-- The Tests modules are runs at concrete inputs.
--
-- Each method that holds a lock is one step on the state, which is passed and returned. A Go map is
-- an association list, in whose order it is ranged over; a Go map has no fixed order, so a theorem
-- about a range loop says only what does not depend on it, or names the first match. Time is an
-- argument. Machine integers keep their wrap-around: the counter of route IDs modulo 2^32, the
-- counts of IDs modulo 256, a length field modulo 2^16. Public keys are 33 bytes and UUIDs 16 bytes;
-- where a theorem needs the length it says so.
-- Loops are structural recursion on the list they range over. The search for a free port recurses on
-- the rounds left, 65535 less the lowest port, which is the bound of the source's loop, so its end is
-- the panic that follows the loop.
-- ReserveEphemeral looks at the 2^16 ports in turn, and the endless retry of Retrier.Do recurses on
-- fuel, of which one unit per attempt is enough when an attempt succeeds.
-- Parameters: encoding/json, with what a decoder leaves unread; cipher (the keys' UnmarshalBinary, signing
-- and verification); the hash that makes a transport's ID; the password hash; securecookie; gob; net/http,
-- which rewinds a body by GetBody; the order in which the goroutines of the setup node end; and bbolt
-- (Base/Bolt), with the laws that it documents: a put or a deletion is done or the database fails, and
-- Update undoes all on an error.
-- Not modelled: logging and String methods, the stores of transport logs, the dialers, listeners and the
-- stcp handshake of the networks, the App type of pkg/app, the accept loops and the start of the servers,
-- the visor, the hypervisor's HTTP handlers, the requests of the discovery clients, the ssh and pty
-- applications and the commands. They are mostly goroutines, sockets and calls of other libraries.
pub mod Base
pub mod Routing
pub mod Router
pub mod Setup
pub mod App
pub mod Transport
pub mod Net
pub mod Hypervisor
