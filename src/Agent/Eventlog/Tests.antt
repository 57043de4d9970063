-- ===== src/Agent/Eventlog/Tests.antt =====
-- The theorems on the event log at concrete logs.
use aev_os.Common.{◌≡◌, true, some, [], ◌∷◌, arith}
use aev_os.Agent.Eventlog.{Eventlog, init, append, snapshot, tool_call}
use aev_os.Agent.Eventlog.Inv.{IsValid, init-IsValid, records, append-IsValid}
use aev_os.Agent.Eventlog.Log.{newest, snapshot-newest}

-- a log of one event
abbrev called : Eventlog
called = append init 5 tool_call 7 (some (108 ∷ 115 ∷ []))

called-IsValid : IsValid called
unfolding init
called-IsValid = append-IsValid init 5 tool_call 7 _ init-IsValid (omega arith)

snapshot-newest_example : snapshot called true 3 ≡ newest 3 (records called)
snapshot-newest_example = snapshot-newest 3 called-IsValid
