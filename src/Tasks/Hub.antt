-- ===== src/Tasks/Hub.antt =====
-- internal/tasks/hub.go: the per-task fan-out of progress to subscribers.
-- A subscription stands in `subs` in the order of the calls of `subscribe`, and is named by its
-- place there. `member` says whether it is a key of the source's map `h.subs`; `buffer` is what its
-- channel holds, `received` what its reader has taken, and `closes` counts the calls of `close` on
-- it (Go panics at a second). Map iteration order does not matter: each step treats every member by
-- itself. The mutex makes each method one step.
pub mod Defs
pub mod Order
pub mod Channels
pub mod Terminal
