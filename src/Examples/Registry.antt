-- ===== src/Examples/Registry.antt =====
-- A table of registrations that receives heartbeats.
use goalpaca.Prelude.{ℕ, String, ◌==◌, pos, ◌≡◌, ◌↔◌, ℤ, List, [], ◌∷◌, arith, none, some, false}
use goalpaca.Server.Registrations.{Net, Heartbeat, live, local_ports, new_registrations}
use goalpaca.Server.Registrations.Entries.{In}
use goalpaca.Server.Registrations.Latest.{Event, packet, reading, run, latest, made, live-latest}
use goalpaca.Server.Registrations.Expiry.{fresh}
use goalpaca.Server.Registrations.Ports.{HasNoRepeat, HasLocal, local_ports_lem}

abbrev focuser_beat : String → Heartbeat
focuser_beat name = record {
  alpaca_port = pos 11111;
  unique_id = "focuser-1";
  device_type = "Focuser";
  device_name = name;
  instance_name = "";
  address = "";
}

-- Addresses that are numbers, of which 1 is the loopback, and packets that are names.
abbrev pub plain_net : Net
plain_net = record {
  Ip = ℕ;
  parse_ip = λ s. some 7;
  is_loopback = λ a. a == 1;
  equal = λ a b. a == b;
  to_string = λ a. "host";
  join_host_port = λ host port. host;
  itoa = λ n. "port";
  trim_space = λ s. s;
  has_prefix = λ s prefix. false;
  unmarshal = λ s. some (focuser_beat s);
}

-- A device that comes back under another name, after it was forgotten.
abbrev beats : List (ℕ × Event plain_net)
beats = (10, packet [] "old" 1) ∷ (50, reading) ∷ (60, packet [] "new" 1) ∷ []

live-latest_example :
    In
      (made plain_net 60 [] (focuser_beat "new") 1)
      (live plain_net 70 (run plain_net beats (new_registrations plain_net 20))).1
    ↔ ((key : _) × (fresh plain_net 70
            (new_registrations plain_net 20).ttl
            (latest plain_net key beats none)
          ≡ some (made plain_net 60 [] (focuser_beat "new") 1)))
live-latest_example =
    live-latest plain_net 20 beats 70 (made plain_net 60 [] (focuser_beat "new") 1)
      (omega arith, (omega arith, (omega arith, omega arith)))

local_ports_lem_example :
    let r = run plain_net beats (new_registrations plain_net 20) in
    HasNoRepeat (local_ports plain_net 70 r).1
    × ((p : ℤ) → In p (local_ports plain_net 70 r).1 ↔ HasLocal plain_net p (live plain_net 70 r).1)
local_ports_lem_example =
    local_ports_lem plain_net 70 (run plain_net beats (new_registrations plain_net 20))
