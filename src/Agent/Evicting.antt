-- ===== src/Agent/Evicting.antt =====
-- project-agent.ts: an eviction while the services of the agent are being connected.
use ai_support_agent_cli.Common.{true, false, ◌∷◌}
use ai_support_agent_cli.Agent.State.{standby, evicted, Agent}
use ai_support_agent_cli.Agent.Registering.{stop, restart_register_loop}

-- An eviction that is acted on.
abbrev leave : Agent → Agent
unfolding stop restart_register_loop
leave a =
    restart_register_loop true
      (stop (record a { slot_held = false; next_mode = standby; log = evicted ∷ a.log }))
