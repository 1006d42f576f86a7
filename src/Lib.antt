-- ===== src/Lib.antt =====
-- Smuggle gives the containers of Nomad hosts a network. Every client takes a subnet of each
-- network, writes it to a store, and sets up the overlay interface, the routes and the firewall
-- rules; a server marks the subnets of silent clients as expired and deletes them later.
--
-- Parts, with the code that they model (paths from the root of the repository):
--   Ipv4          internal/types/ipv4.go: addresses and networks as uint32 with a prefix length.
--   Network       internal/types/network.go: configuration, `Canonicalize`, `Validate`.
--   Subnet        internal/types/subnet.go: the allocation of one client in one network.
--   Fingerprint   internal/network/fingerprint.go: the host's interface and address.
--   Allocator     internal/network/network.go: `GenerateIPv4Subnet` and its two searches.
--   Manager       internal/network/network.go: the calls to the provider of a subnet by its name.
--   Firewall      internal/network/firewall/iptables: rules as values in Firewall/Rules, the calls
--                 that put them in place, and go-iptables as the record Firewall/Interface.
--   Store         internal/types/store.go: the interface, with the laws that its clients rely on.
--   Nvar          internal/store/nvar/nvar.go: the store on Nomad variables, as an instance of Store
--                 in Nvar/Sound and Nvar/Refinement, a round of its watch in Nvar/Watch, and the
--                 goroutine of the watch in Nvar/Loop.
--   Reaper        internal/agent/server/reaper.go: `networkReaper` and what it calls, and in
--                 Reaper/Loop the server of internal/agent/server/server.go with the reaper's loop.
--   Client        internal/agent/client: `Init` with internal/types/cni.go, `generateID`, the
--                 heartbeat, the reaction to reported subnets, `Start`, and in Client/Goroutines
--                 what the goroutines do to the store and the provider. Client/Discovery puts
--                 the store, the watch and the handler together.
--   Workers       how the client and the server end their goroutines: `Stop` of
--                 internal/agent/client/client.go and internal/agent/server/server.go.
--   Vxlan         internal/network/provider/vxlan: the entries for remote subnets, on netlink as the
--                 record Vxlan/Interface, and the host's own link in Vxlan/Local;
--                 internal/helper/retry in Vxlan/Retry.
--   Config        internal/config: a file of each name for each section, Config/Files for reading
--                 files, and Config/Load for internal/cmd/agent/run.go, which puts all together.
--   Http          internal/http: the agent's server, its routes and the level of its access log.
--   Disk          internal/store/file/file.go in Disk/Cni, on package os as the record `FileSystem`.
--   Agent         internal/agent/agent.go and nomad.go, internal/log/log.go, and in Agent/Run the
--                 command of internal/cmd/agent/run.go.
--   Cli           internal/cmd/network/init.go, internal/version/version.go and cmd/cmd.go.
--   Prelude       what the parts share: tests on numbers, equality, errors, state.
--   Tests         tables and stores in memory, and the theorems applied to them.
--
-- Correspondence. A Go function `fooBar` is the definition `foo_bar`; a loop is a function by
-- recursion on its list. A struct is a record, a pointer that may be nil an `Option`, and reading
-- through nil is a `panic`. An error is a value of `Error`, which keeps the format and the wrapped
-- error; calls that change a state and may fail are in the monad of Prelude/State, where the state
-- stays changed when an error is returned. Arithmetic on uint32 is written with its wrap-around;
-- Go's `int` and times are integers of any size, the times in nanoseconds. Code of other modules is
-- a parameter: package net (`Net`, `Host`), go-iptables, Nomad's variables, JSON texts, the clock,
-- netlink, package os, zap, the flags of package cli and the random numbers.
--
-- Fuel. Only the sequential search has fuel. It starts with one round more than the candidates of
-- the range, and running out is a result of its own. The random search counts its attempts down.
-- The retries of a netlink call count down a number of attempts that is a parameter.
--
-- Pointers. The `Merge` methods of the server and store sections write through a pointer of their
-- receiver, so these sections are cells of a heap in Config/Cells. The other sections are copied
-- before they change and are values.
--
-- Goroutines. Their steps, those of `Stop` and those of other clients are the constructors of step
-- relations, and a run takes them in any order. An iteration of a loop, with all that it calls, is
-- one step, as is a round of the watch. Goroutines are a list, a wait group a number, a channel
-- that is closed a Boolean, and what is sent on a channel the list of it. The timer of `Stop` may
-- run out at any time, and a tick may come at any time.
--
-- Not modelled: logging, serving HTTP requests and the parsing of the command line, which are those
-- of other packages; how long tickers and timers take, and the wait of the watch after a listing
-- that failed. `Client` calls the provider's `SetLocal` and the CNI store through the record `Local`.
pub mod Prelude
pub mod Ipv4
pub mod Subnet
pub mod Network
pub mod Fingerprint
pub mod Allocator
pub mod Firewall
pub mod Store
pub mod Reaper
pub mod Client
pub mod Nvar
pub mod Tests
pub mod Vxlan
pub mod Config
pub mod Http
pub mod Disk
pub mod Agent
pub mod Manager
pub mod Workers
pub mod Cli
