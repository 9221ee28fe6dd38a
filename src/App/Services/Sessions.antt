-- ===== src/App/Services/Sessions.antt =====
-- The sessions of the whole program, as internal/app/app.go puts it together over its drivers.
use ndbx.Prelude.{String}
use ndbx.Redis.{RedisLaws}
use ndbx.Service.Session.{get_session}
use ndbx.App.{session_storage}
use ndbx.App.Machine.{State, Reach}
use ndbx.App.Machine.Storage.{WholeCommands}
use ndbx.App.Machine.Sessions.{HostLaws}
use ndbx.App.Machine.Reachable.{IsFresh, TellsGranted, Reach-TellsGranted}
use ndbx.App.Services.{Drivers, wired}
use ndbx.App.Services.Storages.{Elsewhere}
use ndbx.App.Services.Leaving.{wired-Aside}

module _ {W : Type 0} (d : Drivers W) (laws : RedisLaws d.redis)
    (whole : WholeCommands d.redis laws) (quiet : HostLaws d.host d.redis laws)
    (e : Elsewhere d laws) where
  abbrev pub Starts : W → Type 0
  Starts = IsFresh d.clock d.redis (wired d) laws whole quiet (wired-Aside d laws e)

  abbrev pub Runs : State W → State W → Type 0
  Runs = Reach d.clock d.redis (wired d) laws

  -- In every state that requests to the program, in any number and order, and sessions that lapse
  -- lead to from a Redis without sessions, and for every sid: GetSession gives a session, whose user
  -- is empty or one that Authenticate or Register has answered with; or ErrNotFound; or a failure of
  -- HMGET. It never fails on a session that cannot be read. A failed command of Redis that writes or
  -- deletes leaves its key as it was or has done its work; MongoDB, Cassandra, Neo4j and the host do
  -- not change Redis.
  pub Runs-TellsGranted :
      {start n : State W} (sid : String)
      → Starts start.world
      → Runs start n
      → TellsGranted d.clock d.redis
          (wired d)
          laws
          whole
          quiet
          (wired-Aside d laws e)
          n.granted
          (get_session d.host (session_storage d.clock d.redis) d.session_ttl sid n.world).0
  Runs-TellsGranted {start} {n} sid fresh run =
      Reach-TellsGranted d.clock d.redis (wired d) laws whole quiet (wired-Aside d laws e)
        {start = start} {n = n} sid fresh run
