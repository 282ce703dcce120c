-- ===== src/Readiness/Safety.antt =====
-- The waits of src/handlers/compositor.rs over any history of the event loop and the clients.
use ihs_wl_server.Readiness.Watched.{
  World, IsWatched, Step, gates, fires, connects, leaves, reaps, Reach, here, next,
}
use ihs_wl_server.Readiness.Steps.{
  gated-IsWatched, fired, fired-IsWatched, left-IsWatched, connected-IsWatched,
}
use ihs_wl_server.Readiness.Reaped.{reap_clients-IsReaped}

Step-IsWatched : {u v : World} → Step u v → IsWatched u → IsWatched v
unfolding fired
Step-IsWatched (gates w surface m inserted fresh there) h =
    gated-IsWatched surface m inserted w fresh there h
Step-IsWatched (fires w k c t live) h = fired-IsWatched k c t w h live
Step-IsWatched (connects w ok) h = connected-IsWatched ok w h
Step-IsWatched (leaves w c) h = left-IsWatched c w h
Step-IsWatched (reaps w) h = (reap_clients-IsReaped w h).0

-- Over any history of commits, sources that fire, clients that come and go, and reaps, whatever the event
-- loop answers: the waits that the server keeps are exactly the sources in the loop, 32 for a client at
-- most. Each commit that is blocked waits for a blocker that is not ready yet, whose source is still in
-- the loop, and none that could go on waits, since the client of a source that fired is told: so no
-- client is wedged.
pub Reach-IsWatched : {u v : World} → IsWatched u → Reach u v → IsWatched v
Reach-IsWatched h here = h
Reach-IsWatched h (next r st) = Step-IsWatched st (Reach-IsWatched h r)
