-- ===== src/Server/Tests.antt =====
-- Runs of heartbeat_cb.
use ubervisor.Common.{ℕ, ◌≡◌, refl, false, [], ◌∷◌, none, some, codes}
use ubervisor.Common.Int.{pos}
use ubervisor.Config.{ChildConfig, child_config_new}
use ubervisor.Server.{Server, Process}
use ubervisor.Server.Heap.{update}
use ubervisor.Server.Heartbeat.{exceeded}
use ubervisor.Command.{server_start}

-- A process that started at the second 50 and may run for ten seconds.
abbrev short_lived : Process
short_lived = record {
  p_pid = 100;
  p_start = 50;
  p_age = pos 10;
  p_terminated = false;
  p_child_config = some 0;
  p_instance = 0;
}

abbrev hourly : ChildConfig
hourly = record child_config_new {
  cc_name = some (codes "web");
  cc_heartbeat = some (codes "/bin/alive");
  cc_killsig = pos 15;
}

abbrev at_second : ℕ → Server
at_second now = record (server_start (some 101 ∷ []) now) {
  configs = update (λ c. none) 0 (some hourly);
  processes = update (λ p. none) 1 (some short_lived);
}

not_too_old : exceeded short_lived 60 ≡ false
unfolding exceeded
not_too_old = refl
