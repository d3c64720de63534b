-- ===== src/Lib.antt =====
-- A model of sardis, a command runner with its libraries for message routing, job envelopes and
-- Go builds. The files follow the packages of the repository.
--
-- Common holds what the parts share: tests on numbers and texts, lists measured by native numbers,
-- Go's comparable types (Common/Compare), strings (Common/Text), words of a line (Common/Scanning),
-- paths (Common/FilePath), sorting (Common/Sorting), maps (Common/Maps) and integers (Common/Int).
-- Extern holds the libraries that the program calls, as records of operations and laws, each with
-- an instance: error collectors (Extern/Erc), sets of texts (Extern/Sets), tables and queues
-- (Extern/Tables), and the host's name and paths (Extern/System).
--
-- Util/Dots is util/dots.go and util/heplers.go: dotted names. Util/Marshal is util/marshal.go, and
-- Util/Path has the home directory in paths of util/path.go.
--
-- Subexec is subexec/. Subexec/Command is a command of commands.go. Subexec/Group has the groups of
-- group.go and how two merge, Subexec/Group/Validate the method `Validate`, which completes the
-- commands of a group. Subexec/Configuration has `Join` and the exports of subexec.go, which read
-- the validated groups. Subexec/Aliases is its `resolveAliasesAndMergeGroups`, over
-- the arrays of commands that copies of a group share, Subexec/Validating
-- its `doValidate`. Subexec/Filter is `FilterCommands`, Subexec/Select is `ResolveCommands` of
-- list.go, which calls it on what is exported. Subexec/Tree is the tree of index.go.
--
-- Router is x/router/. Router/Model has the messages of model.go, Router/Dispatcher the dispatcher
-- of dispatcher.go: `AddMiddleware` and its like, and for each worker and listener its body as a
-- function (`process_message`, `process_response`, `exec_listen`, `subscribe`). Callbacks change a
-- state of any type, the message or response they are given, and may panic. Router/Ids has the
-- message ids of rand.go: 64-bit numbers in base 10, whose digits are written on 19 units of fuel,
-- since no int64 has more of them. Router/Peer has the loops of peer.go that send and receive
-- envelopes, with the transport's answers and the clock's readings as a list; the sending loops of
-- all peers take turns at the counter that they share.
--
-- Postal is x/postal/. Postal/Meta is meta.go: schemas, lock statuses and lock records, with the
-- readings of the clock as arguments and the 64-bit counter written out. Postal/Envelopes is
-- postal.go and codecs.go: envelopes of jobs, which codecs of a registry encode and decode. A codec
-- may call the envelope back; the fuel counts these calls, and what is said holds for any fuel.
--
-- Gadget is tools/gadget/. Gadget/Packages has the indexes and the graph of daggen.go,
-- Gadget/BuildOrder the search of `GetBuildOrder` in gendget.go. Its loop runs on fuel, which is n
-- * (11 * n + 3) + 11 * n + 3 for a queue of n packages: between two packages that leave the queue
-- at most 11 * n rounds pass before the loop gives up.
--
-- Tools/Depgraph is tools/depgraph/depgraph.go, over the packages that the Go loader gives.
--
-- Sysmgmt is sysmgmt/. Sysmgmt/Systemd is systemd.go: services, their set-up and their groups of
-- commands. Sysmgmt/Links has the links of links.go and the job that creates one, over a file
-- system that is a parameter, and `Validate` of discovery.go. Sysmgmt/Packages and Sysmgmt/Arch are
-- arch.go: the packages, what discovery collects and what is exported, with the output of each
-- command as a parameter; Sysmgmt/Arch/Building has the jobs, which call those of Repo/Jobs.
-- Sysmgmt/Settings is sysmgmt.go, `Join` and `Validate` of the whole.
--
-- Repo is repo/. Repo/Configuration is conf.go and a part of subexec.go: the indexes by name and by
-- tag, the lookups, and the groups of commands, in which a job is told by a number; Repo/Synthetic
-- has the groups of the tags. Repo/Projects is blog.go, Repo/Validation has `Validate` and `Join`.
-- Repo/Commands has the commands of jobs.go, Repo/Jobs its jobs and `Validate` of repo.go: a job
-- changes the settings it completes and a host, and returns an error or none, or panics. Fetching
-- and cloning call each other; two units of fuel are enough for settings that are already complete,
-- and with none left a job gives the error `loops`.
--
-- Srv is srv/. Srv/Network is network.go, Srv/Logging the settings of logging.go and what they set
-- up, Srv/Settings `Join` of srv.go and Srv/Settings/Completing its `Validate`.
--
-- Application is conf.go. Its own file has `Migrate`, `Join` and `expandOperations`,
-- Application/Loading `readConfiguration`, and Application/Linking `expandLinkedFiles` and
-- `Validate`, which calls the validation of every part. A result `none` is a panic of the program.
--
-- Examples runs the parts on concrete data.
--
-- Not modelled: processes, files, terminals, the network and the encoding of data, which are the
-- work of libraries; goroutines and channels, of which only the bodies that the program wrote are
-- functions here; and the order in which Go ranges over a map, which is a parameter where it shows.
pub mod Common
pub mod Extern
pub mod Util
pub mod Postal
pub mod Subexec
pub mod Router
pub mod Srv
pub mod Gadget
pub mod Tools
pub mod Sysmgmt
pub mod Repo
pub mod Application
pub mod Examples
