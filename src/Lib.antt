-- ===== src/Lib.antt =====
-- Gust: a port forwarder for TCP and UDP, with SOCKS5 chains and a kernel NAT mode.
--
-- A run reads the command line (src/cli.rs) into raw flags, and builds the validated configuration
-- from them (src/config.rs), where every `-L` and `-F` value is a node string (src/node.rs). In
-- userspace mode each listener runs under its supervisor (src/supervisor.rs), which keeps its
-- counters (src/stats.rs). A TCP connection is dialed directly or through SOCKS5 hops (src/chain.rs,
-- src/socks5.rs) with the options of src/netopt.rs, and copied (src/relay.rs); a UDP client has a
-- session with a socket of its own (src/forward/udp.rs). All stop at one signal (src/runtime.rs). In
-- kernel mode (src/nat/linux.rs) the listeners become DNAT rules of an nftables ruleset
-- (src/nat/nftables.rs), which are removed at the end.
--
-- Which file models which part:
--   Prelude, Text: numbers, lists, results, and the operations of `str` on a text as its list of code
--     points; Text.Number has `str::parse` and the decimal print, Text.Utf8 the encoding and
--     `from_utf8_lossy`.
--   Net: `str::parse` into `Ipv4Addr` and `Ipv6Addr`.
--   Node: src/node.rs (`parse_node`, `parse_host_port`, `Node::targets`, ...), Node.Percent its
--     `decode`. `parse_node` is cut into `parse_trimmed`, `parse_rest` and `build_node`, which follow
--     each other in the source's body. The query's map is an association list with distinct keys.
--     Node.Print is an independent description of the format: the printer, and the nodes that it can
--     express.
--   Socks5: src/socks5.rs, over Socks5.Stream, a stream of the bytes that come in, those that were
--     sent, and how many more the peer takes. Socks5.Transcript describes a handshake independently,
--     as the bytes of both sides.
--   Chain: src/chain.rs. `dial_tcp`, which `tcp_stream` of Runtime takes from Netopt.Dial, and the
--     time-outs are parameters.
--   Netopt: src/netopt.rs. Netopt.Calls is what is asked of the kernel, whose answers are a
--     parameter, and Netopt.Dial has `tune_accepted`, `dial_one` and `dial_tcp`, with
--     `bind_connected` and `new_session` of src/forward/udp.rs.
--   Cli: `parse_args` and `parse_bool` of src/cli.rs. Cli.Print has the command line that asks for
--     given flags.
--   Config: src/config.rs. `build_config` is cut into one definition for each loop and check.
--   Stats: src/stats.rs. The atomics are numbers below 2^64 that wrap around.
--   Supervisor: `supervise` of src/supervisor.rs with the constants of src/constants.rs. A round of the
--     loop is a record of what it meets, and the result holds the waits that were begun.
--   Runtime: src/runtime.rs. The `watch` channel is the record `Watch` of what tokio documents.
--     Runtime.Signal lets the calls of `cancelled` and `trigger` happen in any order, and
--     Runtime.Dials follows a dial from the configuration on.
--   Relay: src/relay.rs. The two streams are the records `Reader` and `Writer`.
--   Forward: `pick_target` of src/forward/tcp.rs; the one of src/forward/udp.rs does the same.
--     Forward.Tcp is the accept loop with the tasks of its connections, over a list of events.
--     Forward.Udp is the receive loop with the sessions and their reverse tasks, as a step relation
--     with a clock; the numbers of the sockets and the datagrams that passed are kept beside.
--     Forward.Udp.Table is the abstract table of sessions that it keeps.
--   Nat: src/nat/linux.rs, Nat.Nftables the text of the ruleset of src/nat/nftables.rs. `nft`, the
--     resolver, the print of an address and the file of `ip_forward` are parameters; what `nft` is
--     relied on for is the record `Nft`, and the system counts the warnings of `delete_table`.
--     Nat.Commands has the calls of the `nft` program and `cleanup_main` of src/nat/mod.rs; they
--     give what `Nft` asks for (Nat.Commands.Implements). Nat.Rights is `has_net_admin`, and
--     Nat.Status the counters of src/nat/status.rs over JSON values that are a parameter.
--   App: `main` of src/main.rs and `run` of src/app.rs. A run in userspace mode is what it has
--     launched when it begins to wait for the shutdown: the context, the registry, the services.
--   Tests: runs at concrete inputs, and the theorems there.
--
-- `usize` has 64 bits. The fuel is that of the loop of `parse_args` (the number of the arguments), of
-- the decimal print of n (n + 1 digits), and of a copy (one more than the bytes of the stream); each
-- is proved to be enough. An error carries the values that its message shows, and not always the
-- message.
--
-- Not modelled: the signal handlers and the logging (src/signals.rs, src/logging.rs), which are
-- calls of the runtime in sequence; that `transport` drops a copy in the middle of a write; the
-- timers of the heartbeats, and the wait for the tasks at the end (src/app.rs); the help text, which
-- is constant.
mod Prelude
pub mod Text
pub mod Net
pub mod Node
pub mod Netopt
pub mod Socks5
pub mod Cli
pub mod Config
pub mod Stats
pub mod Supervisor
pub mod Chain
pub mod Nat
pub mod Forward
pub mod Runtime
pub mod Relay
pub mod App
mod Tests
