-- ===== src/Rpc/Caller/Closures.antt =====
-- How often the closures of calls run, and how often their responses are deleted.
use gd_rpc.Base.{ℕ, Bool, false, Option, none, some, ◌==◌, if◌then◌else◌}
use gd_rpc.Rpc.Caller.{OutstandingCall, Caller, Effect, ran, deleted_message}

abbrev pub is_run_of : ℕ → Effect → Bool
is_run_of k (ran j) = j == k
is_run_of k _ = false

abbrev pub is_deletion_of : ℕ → Effect → Bool
is_deletion_of r (deleted_message j) = j == r
is_deletion_of r _ = false

-- How often a pointer holds a number: once or never.
abbrev pub holds : ℕ → Option ℕ → ℕ
holds k none = 0
holds k (some j) = if j == k then 1 else 0

-- How often a call holds a response.
abbrev pub has_response : ℕ → OutstandingCall → ℕ
has_response r out = holds r out.response

abbrev pub with_response : Option ℕ → ℕ → ℕ
with_response none n = 0
with_response (some r) n = n

-- How often a call holds a closure; one without a response counts for none.
abbrev pub has_closure : ℕ → OutstandingCall → ℕ
has_closure k out = with_response out.response (holds k out.done)
