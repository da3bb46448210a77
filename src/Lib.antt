-- ===== src/Lib.antt =====
-- dns-box is a DNS proxy that adds the addresses of selected domains to ipsets.
--
-- Parts. A configuration file (internal/config) holds the rules, the lists with a set each, the
-- upstream servers and the blocklists. At its start the program (cmd/dns-box) fills one domain cache
-- from the shared rules and one for each list (internal/cache/domain_cache.go). A DNS request
-- (internal/dns/handler.go) is answered with a null address where the blocklist
-- (internal/blocklist) names its domain; else it is resolved, from the answer cache
-- (internal/cache/dns_cache.go) or by the upstream servers, and the addresses go into the ipsets
-- (internal/ipset) of the lists whose cache selects the domain. The configuration is saved to the
-- disk, and its rules to GitHub (internal/github/client.go). An HTTP API (internal/api) edits the
-- rules, in the configuration and in the domain caches, and the addresses of the blocklists. A signal
-- cancels the context: the configuration is saved, and the DNS server (internal/dns/server.go) and the
-- server of the API (internal/api/server.go) stop.
--
-- Files.
--   Prelude       texts (strings.HasPrefix, Split, Join, TrimSpace, Fields ...), lists and numbers.
--   Cache         FastCache is the interface of the package fastcache, with an association list as
--                 an instance in Assoc; DomainCache is internal/cache/domain_cache.go; DnsCache is
--                 internal/cache/dns_cache.go, with the layout of its entries in Wire. Decode and
--                 Readable hold what its loops and its panics need.
--   Github        internal/github/client.go: NewClient is new_client, by the header that its requests
--                 carry, SaveFile is save_file, LoadFile is load_file.
--   Config        the records and the accessors of internal/config/config.go; Rules and Lists its
--                 mutators; Mutators the sequences of calls, with what no call changes in Frame, and
--                 what each means for the sets of entries in Sets; Disk, Save and Load are SaveConfig,
--                 LoadConfig and LoadConfigFromGitHub. A world is a disk, the files of it that are not
--                 synced, and all states that the two have been in; Faults says which system calls
--                 fail.
--   Ipset         the commands of internal/ipset/ipset.go; stub_fails is internal/ipset/ipset_stub.go.
--   Dns           Match is shouldProcess and isDomainInList; Ttl is normalizeTTL; Servers is
--                 sortServers; Upstream is the loop over the servers and exchangeDoH; Resolver is
--                 resolver, a state monad over the answer cache, the number of the next network call
--                 and the number of the next reading of the clock; Handler is ServeDNS and
--                 processAnswers, which give a response and a list of commands; Answers and Times are
--                 which commands and how often, Sent which sets those go to.
--   Blocklist     updateLists and the queries; Service is the goroutine of Start beside the calls of
--                 others, as a step relation.
--   Startup       run of cmd/dns-box/main.go up to its wait. The root fills the caches, Sets creates the
--                 sets, Durations are the int64 of NewBlockList and NewDnsHandler, and Begin is the
--                 whole, with each early exit and panic as an outcome; Routing is which rules select a
--                 question, and Bare what a suffix rule does with the domain behind its dot.
--   Api           internal/api/handlers.go: the response writer and the frame of the handlers. A reply
--                 is what has been sent; of several statuses the first counts. Shared has the handlers
--                 of /domains, /suffixes and /blocklist/urls, Lists those of /ipset/ and NetLists those of
--                 /ipset/net/. Routes is Routes, with the cleaning of paths, the redirects and the
--                 choice of the pattern by http.ServeMux; its children take a property of the state
--                 through every handler (Edits, Keeps), and say what a request does; Requested is what
--                 it asks for.
--   Process       run behind its start and the Start and Stop of both servers, as a step relation: the
--                 signal, the goroutines of the listeners, requests, updates of the blocklist, the last
--                 save and the stops. Keeps, Kept, Disk, Updates, PowerFailure and Safety are what holds
--                 in every reachable state, Rank and Shutdown how a run ends, Missed when it does not, and Order
--                 what lies behind its end.
--   Tests         every property at a concrete input, and runs of the code.
--
-- Parameters. Outside the repository are fastcache (with the laws that its documentation gives;
-- entries may be evicted unless a theorem asks for a cache that loses nothing), the wire form of DNS
-- records (RrCodec), the network (Net; a call carries its number, so that each may be answered
-- differently), the sources of the blocklists, the JSON codec and the API of GitHub.
--
-- Bounds. A run has no bound of its own; Rank counts down its steps beside the work on requests.
-- resolver runs through depths 0 to 10, which is structural recursion on the levels that are
-- left, eleven at the start. The loop of Get in the answer cache has the length of the buffer as its
-- fuel: every round moves the offset by two or more. decimal has fuel for 20 digits, and a query
-- type has 5 at most. Times are numbers; the conversion of an expiry to a signed number is written
-- out, and so are the 16 bits of a record's length and the 64 bits of a time.
--
-- Not modelled. The mutexes: a method is one step, and so is an update of the blocklists; in Process a
-- request is one step, and so is a save, and only Api.Shared.Race interleaves two requests within.
-- Logging, time limits (but for the five seconds of the last Shutdown, which may pass) and the flags. Percent-escapes in paths, CONNECT, and the texts of errors
-- inside replies. The memory that slices share. A failure of the power may leave anything in a file
-- that is not synced; that a rename is lost in it, since the directory is not synced, is not a state of its
-- own, but the file at the path is then the one of a state before.
pub mod Prelude
pub mod Cache
pub mod Github
pub mod Config
pub mod Ipset
pub mod Dns
pub mod Blocklist
pub mod Startup
pub mod Api
pub mod Process
pub mod Tests
