-- ===== src/Runtime/Replies.antt =====
-- consent/inmemory.ts: the idempotency store.
use clickwrap.Prelude.{String, Option, none, some, String_eq}
use clickwrap.Prelude.Dict.{get, set, delete}
use clickwrap.Runtime.Shared.{World, Response, Reply, in_progress, stored}

-- The response of an entry, unless the key is unknown or reserved.
abbrev pub replay_of : Option Reply → Option Response
replay_of none = none
replay_of (some in_progress) = none
replay_of (some (stored response)) = some response

-- `get`
abbrev pub find_replay : String → World → Option Response
find_replay key w = replay_of (get w.replies key)

-- `put`
abbrev pub put_reply : String → Response → World → World
put_reply key response w = record w { replies = set w.replies key (stored response) }

-- `release`
unfoldable pub release : String → World → World
release key w = elim (get w.replies key) [
  | some in_progress ↦ record w { replies = delete w.replies key }
  | _ ↦ w
]
