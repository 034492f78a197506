-- ===== src/Client/Connect/Sent.antt =====
-- What a call through `Connect` sends, and where it goes.
use easy_rpc_go.Base.{◌||◌, List, ◌++◌, Option, none, some, Result, if◌then◌else◌}
use easy_rpc_go.Base.Int.{ℤ, is_positive}
use easy_rpc_go.Text.{Bytes, codes, has_prefix}
use easy_rpc_go.Code.{Error}
use easy_rpc_go.Message.{Request, Response}
use easy_rpc_go.Client.Interceptors.Laws.{Half}
use easy_rpc_go.Client.Connect.{Deadlines, Net, Factory, Mode, auto, std, ConnectOptions, closing}

abbrev pub UserHalves : Type 0 → Type 0
UserHalves Stream =
    List (Option (Half (Result Error Response)) × Option (Half (Result Error Stream)))

module _ {C Stream : Type 0} where
  -- The transport that a call goes to: the adapter; else, in the mode auto, what the factory returns
  -- twice; else NetHTTP.
  abbrev pub destination :
      Option (Net C Stream) → Mode → Factory C Stream → Net C Stream → Net C Stream
  destination (some adapter) mode factory net = adapter
  destination none auto (some (some tested, some at)) net = at
  destination none auto (some (some tested, none)) net = net
  destination none auto (some (none, later)) net = net
  destination none auto none net = net
  destination none std factory net = net

  -- The URL there: with the base in front, unless it has a scheme of its own or an adapter is set.
  abbrev pub located : Option (Net C Stream) → Bytes → Bytes → Bytes
  located (some adapter) base u = u
  located none base u =
      if has_prefix u (codes "http://") || has_prefix u (codes "https://") then u else base ++ u

  abbrev pub arriving : ConnectOptions C Stream → Request → Request
  arriving opts req = record req { url = located opts.adapter opts.base_url req.url }

module _ {C Stream : Type 0} (deadlines : Deadlines C Stream) where
  -- The context of the call, and what becomes of a stream that it opens.
  abbrev pub context_of : ℤ → C → C
  context_of d ctx = if is_positive d then deadlines.within ctx d else ctx

  abbrev pub released : ℤ → C → Result Error Stream → Result Error Stream
  released d ctx st = if is_positive d then closing deadlines (deadlines.within ctx d) st else st
