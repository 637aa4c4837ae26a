-- ===== src/Backend/CmdServer/Supervise.antt =====
-- The server's keep-alive: the frame that it sends, or fails to.
use hq_components.Prelude.{List, [], arith, false, some, true, ◌≡◌}
use hq_components.Backend.CmdServer.{ready, close_soc, Ctx, Net, step, Parameter}
use hq_components.Backend.CmdServer.Api.{Wait, keep_alive_send}
use hq_components.Drv.Keepalive.{keep_alive_frame}

module _ (project : List Parameter) where
  -- The server cannot send its own keep-alive frame: where a client is connected, keepAliveSend
  -- hands nothing to the socket, whatever the semaphores and the network do, and requests that the
  -- client be dropped; a following round of the waiting task closes the connection.
  pub keep_alive_send-closes :
      (w : Wait) (net : Net) (c : Ctx)
      → c.state ≡ ready
      → let (done, out, c') = keep_alive_send w keep_alive_frame c in
        (done ≡ false)
        × (out ≡ [])
        × (c' ≡ record c { disconnect_req = true })
        × (step project net c' ≡ some (record c { disconnect_req = true; state = close_soc }))
  unfolding keep_alive_send step
  keep_alive_send-closes w net c s = ground arith
