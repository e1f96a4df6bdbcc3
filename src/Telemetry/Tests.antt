-- ===== src/Telemetry/Tests.antt =====
-- The collector of telemetry.go at examples.
use beryl7_ai_agent.Base.{
  ◌++◌, ℕ, not, ◌&&◌, List, ◌∷◌, ◌*◌, ◌≡◌, refl, true, false, Option, none, some, [], arith,
}
use beryl7_ai_agent.Base.Int.{ℤ, pos}
use beryl7_ai_agent.Base.Text.{Text, codes}
use beryl7_ai_agent.Base.Fixed.{fixed}
use beryl7_ai_agent.Executor.Effects.{World}
use beryl7_ai_agent.Executor.Dispatch.{execute_action}
use beryl7_ai_agent.Executor.Guards.{is_not_wifi}
use beryl7_ai_agent.Executor.Programs.{all_ran}
use beryl7_ai_agent.Telemetry.Collect.{Collector, Reading}
use beryl7_ai_agent.Telemetry.Traffic.{
  bulk, idle, count_cycles, no_cycles, is_bulk_download_active, bulk-lingers,
}
use beryl7_ai_agent.Telemetry.Proc.{
  fields, parse_uint, after_colon, counters_in, parse_proc_net_dev_interface, count_clients,
  is_client, read_active_clients,
}
use beryl7_ai_agent.Telemetry.Wan.{Iface, is_wan, read_multi_wan_stats}
use beryl7_ai_agent.Telemetry.Wan.Offline.{has_wan, has_wan_up, read_multi_wan_stats-offline}
use beryl7_ai_agent.Healing.Detect.{names_offline}
use beryl7_ai_agent.Telemetry.Clients.{provider, is_repeater_active, provider-no_reload}

abbrev collector : Collector fixed
collector = record {
  last_collect = none;
  last_rx_bytes = 0;
  last_tx_bytes = 0;
  last_dl_mbps = fixed.lit 0 0;
  last_ul_mbps = fixed.lit 0 0;
  peak_dl_mbps = fixed.lit 0 0;
  peak_ul_mbps = fixed.lit 0 0;
  active_clients_count = 3;
  cycles = no_cycles;
  last_metric = none;
}

-- The router with its collector, which may or may not hear from each band
abbrev router : Option ℕ → Option ℕ → World
router band₀ band₁ = record {
  is_linux = true;
  look_path = λ _. true;
  stat_ok = λ _ _. true;
  stat_not_exist = λ _ _. false;
  write_ok = λ _ _. true;
  command_ok = λ _ _. true;
  is_done = λ _. false;
  telemetry = some (provider fixed band₀ band₁ none collector);
  to_lower = λ s. s;
  to_upper = λ s. s;
  remove_colons = λ s. s;
}

bulk-lingers_example :
    is_bulk_download_active (count_cycles 700 idle (count_cycles 720 bulk no_cycles)) ≡ true
bulk-lingers_example = bulk-lingers 720 700

provider-no_reload_example :
    all_ran is_not_wifi (
      (execute_action
        (router none (some 2))
        (some (record { action_name = "align_channels"; target = "wan"; parameters = [] }))
        false
        []).1)
    ≡ true
provider-no_reload_example =
    provider-no_reload fixed (router none (some 2)) none (some 2) none collector
      (some (record { action_name = "align_channels"; target = "wan"; parameters = [] })) false refl
      (omega arith)

no_uplink : (is_repeater_active none).0 ≡ false
unfolding is_repeater_active
no_uplink = refl

abbrev reading : Reading fixed
reading = record {
  now = 9;
  cpu_usage_pct = fixed.lit 10 0;
  ram_usage_pct = fixed.lit 40 0;
  hardware_temp_c = fixed.lit 50 0;
  active_clients = 2;
  status = codes "Active (1/1)";
  rx_bytes = 5;
  tx_bytes = 5;
  ping_latency = fixed.lit 20 0;
}

abbrev to_fixed : ℕ → ℤ
to_fixed n = pos (n * 10000)

-- The counters of wan, and the line of another interface whose name ends like eth0
abbrev proc_net_dev : Text
proc_net_dev =
    codes "Inter-|   Receive\n"
    ++ codes "   wan: 700 1 0 0 0 0 0 0 900 1 0 0 0 0 0 0\n"
    ++ codes " veth0: 11 1 0 0 0 0 0 0 22 1 0 0 0 0 0 0\n"
    ++ codes "  eth0: 33 1 0 0 0 0 0 0 44 1 0 0 0 0 0 0\n"

reads_wan : parse_proc_net_dev_interface proc_net_dev (codes "wan") ≡ (700, 900)
unfolding parse_proc_net_dev_interface counters_in after_colon fields parse_uint
reads_wan = refl

-- The counters that eth0 is given are those of veth0, whose line contains `eth0:`.
reads_eth0 : parse_proc_net_dev_interface proc_net_dev (codes "eth0") ≡ (11, 22)
unfolding parse_proc_net_dev_interface counters_in after_colon fields parse_uint
reads_eth0 = refl

counts_client :
    read_active_clients (
      some (
        codes "IP address HW type Flags HW address\n"
        ++ codes "192.168.8.2 0x1 0x2 aa:bb:cc:00:00:01 *\n"
        ++ codes "192.168.8.3 0x1 0x0 00:00:00:00:00:00 *\n"))
    ≡ 1
unfolding read_active_clients count_clients is_client fields
counts_client = refl

abbrev ifaces : List Iface
ifaces =
    record { name = codes "br-lan"; is_up = true }
    ∷ record { name = codes "wan"; is_up = false }
    ∷ record { name = codes "eth0"; is_up = false }
    ∷ []

read_multi_wan_stats-offline_example :
    names_offline (read_multi_wan_stats proc_net_dev (some ifaces)).0
    ≡ (has_wan ifaces && not (has_wan_up ifaces))
read_multi_wan_stats-offline_example = read_multi_wan_stats-offline proc_net_dev ifaces

-- With the link to the provider down, the example is offline.
ifaces-offline : (has_wan ifaces && not (has_wan_up ifaces)) ≡ true
unfolding has_wan has_wan_up is_wan
ifaces-offline = refl
